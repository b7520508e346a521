-- ===== src/Forge/Preserved.antt =====
-- Every call of internal/forge/fake.go keeps the stand-in sound.
use layup.Base.{
  ℕ, ◌≡◌, inl, inr, refl, List, [], ◌∷◌, arith, ◌==◌, Option-cases, Bool-cases, Result-cases, ltb,
}
use layup.Text.{Text, codes, text_eq}
use layup.Forge.Types.{full_sha, valid_status}
use layup.Forge.Fake.{
  Fake, set_number, set_head, add_status, set_check_runs, open_issue, comment, set_status,
  close_issue,
}
use layup.Forge.Invariant.{
  IsSound, Call, heads, moves, adds, runs, fails, opens_issue, comments, opens, readies, posts,
  merges, edits, closes, closes_issue, perform, perform_all,
}
use layup.Forge.Numbering.{NumberedComments-concat}
use layup.Forge.KeepsPrs.{
  with_statuses, move_head-IsSound, merge-IsSound, edit_body-IsSound, close_pull_request-IsSound,
  mark_ready-IsSound, open_draft-IsSound,
}

comment-IsSound :
    (issue : ℕ) (body : Text) (f : Fake) → IsSound f → IsSound (comment issue body f).1
unfolding comment set_number
comment-IsSound issue body f s = elim (Bool-cases (text_eq f.fail (codes "Comment"))) [
  | inl e ↦ rw e s
  | inr e ↦ rw e (record {
    prs_numbered = s.prs_numbered;
    closed_known = s.closed_known;
    comments_numbered = λ j. elim (Bool-cases (j == issue)) [
      | inl same ↦
          rw same (
            NumberedComments-concat 1 (f.comments issue) _ (s.comments_numbered issue)
              (omega arith))
      | inr other ↦ rw other (s.comments_numbered j)
    ];
  })
]

open_issue-IsSound : (f : Fake) → IsSound f → IsSound (open_issue f).1
unfolding open_issue
open_issue-IsSound f s = elim (Bool-cases (text_eq f.fail (codes "OpenIssue"))) [
  | inl e ↦ rw e s
  | inr e ↦ rw e (record {
    prs_numbered = s.prs_numbered;
    closed_known = λ k reason h. let c = s.closed_known k reason h in (c.0, omega arith, c.2);
    comments_numbered = s.comments_numbered;
  })
]

set_status-IsSound :
    (sha context state description : Text) (f : Fake)
    → IsSound f
    → IsSound (set_status sha context state description f).1
unfolding set_status add_status
set_status-IsSound sha context state description f s = elim (Bool-cases (full_sha sha)) [
  | inr e ↦ rw e s
  | inl e ↦ rw e (elim (Result-cases (valid_status state description)) [
    | inr (m, v) ↦ rw (v, set_status) s
    | inl (u, v) ↦
        rw (v, set_status)
          (elim (Bool-cases (text_eq f.fail (codes "SetStatus"))) [
            | inl x ↦ rw x s
            | inr x ↦ rw x (with_statuses f _ s)
          ])
  ])
]

close_issue-IsSound : (number : ℕ) (f : Fake) → IsSound f → IsSound (close_issue number f).1
unfolding close_issue set_number
close_issue-IsSound number f s = elim (Bool-cases (ltb number 1)) [
  | inl a ↦ rw a s
  | inr a ↦ rw a (elim (Bool-cases (text_eq f.fail (codes "CloseIssue"))) [
    | inl b ↦ rw b s
    | inr b ↦ rw b (elim (Bool-cases (ltb f.issues number)) [
      | inl c ↦ rw c s
      | inr c ↦ rw c (elim (Option-cases (f.closed number)) [
        | inr (reason, d) ↦ rw (d, close_issue) s
        | inl d ↦
            rw (d, close_issue)
              (record {
                prs_numbered = s.prs_numbered;
                closed_known = λ k reason h. elim (Bool-cases (k == number)) [
                  | inl same ↦ ground arith
                  | inr other ↦ s.closed_known k reason (rw other at h)
                ];
                comments_numbered = s.comments_numbered;
              })
      ])
    ])
  ])
]

same_core :
    (f g : Fake)
    → IsSound f
    → g.prs ≡ f.prs
    → g.closed ≡ f.closed
    → g.issues ≡ f.issues
    → g.comments ≡ f.comments
    → IsSound g
same_core f g s a b c d = record {
  prs_numbered = rw a s.prs_numbered;
  closed_known = λ k reason h. rw c (s.closed_known k reason (rw b at h));
  comments_numbered = λ issue. rw d (s.comments_numbered issue);
}

-- Every call, taken or refused, keeps the stand-in sound.
pub perform-IsSound : (c : Call) (f : Fake) → IsSound f → IsSound (perform c f).0
unfolding perform
perform-IsSound (heads branch sha) f s =
    same_core f _ s (unfold set_head in refl) (unfold set_head in refl) (unfold set_head in refl)
      (unfold set_head in refl)
perform-IsSound (moves number sha) f s = move_head-IsSound number sha f s
perform-IsSound (adds sha st) f s = unfold add_status in with_statuses f _ s
perform-IsSound (runs sha rs) f s =
    same_core f _ s (unfold set_check_runs in refl) (unfold set_check_runs in refl)
      (unfold set_check_runs in refl) (unfold set_check_runs in refl)
perform-IsSound (fails c d) f s = same_core f _ s refl refl refl refl
perform-IsSound opens_issue f s = open_issue-IsSound f s
perform-IsSound (comments issue body) f s = comment-IsSound issue body f s
perform-IsSound (opens head body) f s = open_draft-IsSound head body f s
perform-IsSound (readies node) f s = mark_ready-IsSound node f s
perform-IsSound (posts sha context state description) f s =
    set_status-IsSound sha context state description f s
perform-IsSound (merges number sha) f s = merge-IsSound number sha f s
perform-IsSound (edits number body) f s = edit_body-IsSound number body f s
perform-IsSound (closes number) f s = close_pull_request-IsSound number f s
perform-IsSound (closes_issue number) f s = close_issue-IsSound number f s

-- Whatever calls are made, one after the other, a sound stand-in stays sound: its pull requests are
-- numbered from 1 in the order of their opening, each with its own node; a merged one is closed, no
-- draft, and names its merge commit, and no other names one; a closed issue is one that was opened,
-- closed as not planned; and the comments of an issue are numbered from 1.
pub perform_all-IsSound : (cs : List Call) (f : Fake) → IsSound f → IsSound (perform_all cs f)
unfolding perform_all
perform_all-IsSound [] f s = s
perform_all-IsSound (c ∷ cs) f s = perform_all-IsSound cs (perform c f).0 (perform-IsSound c f s)
