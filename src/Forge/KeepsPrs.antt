-- ===== src/Forge/KeepsPrs.antt =====
-- The calls of pull requests of internal/forge/fake.go keep the stand-in sound.
use layup.Base.{
  ℕ, ◌-◌, ◌≡◌, ◌⊎◌, inl, inr, refl, ap, false, List, some, arith, Option-cases, Bool-cases,
}
use layup.Text.{Text, codes, text_eq}
use layup.Forge.Types.{Status}
use layup.Forge.Fake.{FakePr, Fake, find_pr, set_at, move_head}
use layup.Forge.Calls.{
  node_id_of, open_draft, mark_ready_in, mark_ready, mark_merged, merge_pr, merge, edit_body,
  close_pull_request,
}
use layup.Forge.Invariant.{IsSoundPr, Numbered, IsSound}
use layup.Forge.Numbering.{set_pr-Numbered, mark_ready_in-Numbered, Numbered-concat}

-- A change of the pull requests alone.
with_prs :
    (f : Fake) (prs : List FakePr) → IsSound f → Numbered 1 prs → IsSound (record f { prs = prs })
with_prs f prs s a = record {
  prs_numbered = a;
  closed_known = s.closed_known;
  comments_numbered = s.comments_numbered;
}

pub with_statuses :
    (f : Fake) (statuses : Text → List Status)
    → IsSound f
    → IsSound (record f { statuses = statuses })
with_statuses f statuses s = record {
  prs_numbered = s.prs_numbered;
  closed_known = s.closed_known;
  comments_numbered = s.comments_numbered;
}

module _ (number : ℕ) (f : Fake) (s : IsSound f) (p : FakePr)
    (e : find_pr number f.prs ≡ some p) where
  -- A change of the pull request that was found.
  replaced :
      (q : FakePr)
      → (IsSoundPr number p → IsSoundPr number q)
      → IsSound (record f { prs = set_at (number - 1) q f.prs })
  replaced q k =
      with_prs f (set_at (number - 1) q f.prs) s
        (set_pr-Numbered number f.prs p q s.prs_numbered e k)

  merged_sound : p.pr.draft ≡ false → IsSoundPr number p → IsSoundPr number (mark_merged number p)
  unfolding mark_merged
  merged_sound ready q = record {
    numbered = q.numbered;
    noded = q.noded;
    stated = inr refl;
    merged_closed = λ m. refl;
    merged_ready = λ m. ready;
    merged_named = λ m. refl;
    unmerged_unnamed = λ m. cc;
  }

  -- `merge_pr` changes nothing, or merges a pull request that is no draft.
  merge_pr_cases :
      (sha : Text)
      → ((merge_pr number sha p f).1 ≡ f)
        ⊎ ((p.pr.draft ≡ false)
            × ((merge_pr number sha p f).1
                ≡ record f { prs = set_at (number - 1) (mark_merged number p) f.prs }))
  unfolding merge_pr
  merge_pr_cases sha = ground arith

  merge_pr-IsSound : (sha : Text) → IsSound (merge_pr number sha p f).1
  merge_pr-IsSound sha = elim (merge_pr_cases sha) [
    | inl same ↦ rw same s
    | inr (ready, done) ↦ rw done (replaced (mark_merged number p) (merged_sound ready))
  ]

pub move_head-IsSound :
    (number : ℕ) (sha : Text) (f : Fake) → IsSound f → IsSound (move_head number sha f)
unfolding move_head
move_head-IsSound number sha f s = elim (Option-cases (find_pr number f.prs)) [
  | inl e ↦ rw (e, move_head) s
  | inr (p, e) ↦
      rw (e, move_head)
        (replaced number f s p e (record p { pr = record (p.pr) { head_sha = sha } })
          (λ q. record {
            numbered = q.numbered;
            noded = q.noded;
            stated = q.stated;
            merged_closed = q.merged_closed;
            merged_ready = q.merged_ready;
            merged_named = q.merged_named;
            unmerged_unnamed = q.unmerged_unnamed;
          }))
]

pub merge-IsSound :
    (number : ℕ) (sha : Text) (f : Fake) → IsSound f → IsSound (merge number sha f).1
unfolding merge
merge-IsSound number sha f s = elim (Option-cases (find_pr number f.prs)) [
  | inl e ↦ ground (arith, s)
  | inr (p, e) ↦ ground (arith, s, merge_pr-IsSound number f s p e sha)
]

pub edit_body-IsSound :
    (number : ℕ) (body : Text) (f : Fake) → IsSound f → IsSound (edit_body number body f).1
unfolding edit_body
edit_body-IsSound number body f s = elim (Option-cases (find_pr number f.prs)) [
  | inl e ↦ ground (arith, s)
  | inr (p, e) ↦ ground (
    arith,
    s,
    replaced number f s p e (record p { pr = record (p.pr) { body = body } })
        (λ (q : IsSoundPr number p). record {
          numbered = q.numbered;
          noded = q.noded;
          stated = q.stated;
          merged_closed = q.merged_closed;
          merged_ready = q.merged_ready;
          merged_named = q.merged_named;
          unmerged_unnamed = q.unmerged_unnamed;
        }),
  )
]

pub close_pull_request-IsSound :
    (number : ℕ) (f : Fake) → IsSound f → IsSound (close_pull_request number f).1
unfolding close_pull_request
close_pull_request-IsSound number f s = elim (Option-cases (find_pr number f.prs)) [
  | inl e ↦ ground (arith, s)
  | inr (p, e) ↦ ground (
    arith,
    s,
    replaced number f s p e (record p { pr = record (p.pr) { state = codes "closed" } })
        (λ (q : IsSoundPr number p). record {
          numbered = q.numbered;
          noded = q.noded;
          stated = inr refl;
          merged_closed = λ m. refl;
          merged_ready = q.merged_ready;
          merged_named = q.merged_named;
          unmerged_unnamed = q.unmerged_unnamed;
        }),
  )
]

pub mark_ready-IsSound : (node : Text) (f : Fake) → IsSound f → IsSound (mark_ready node f).1
unfolding mark_ready
mark_ready-IsSound node f s = elim (Option-cases (mark_ready_in node f.prs)) [
  | inl e ↦ ground (arith, s)
  | inr ((q, qs), e) ↦
      ground (arith, s, with_prs f qs s (mark_ready_in-Numbered 1 node f.prs s.prs_numbered e))
]

pub open_draft-IsSound :
    (head body : Text) (f : Fake) → IsSound f → IsSound (open_draft head body f).1
unfolding open_draft
open_draft-IsSound head body f s = elim (Bool-cases (text_eq f.fail (codes "OpenDraft"))) [
  | inl e ↦ rw e s
  | inr e ↦ rw e (
      with_prs f _ s (
        Numbered-concat 1 f.prs _ s.prs_numbered (record {
          numbered = omega arith;
          noded = ap node_id_of (omega arith);
          stated = inl refl;
          merged_closed = λ m. cc;
          merged_ready = λ m. cc;
          merged_named = λ m. cc;
          unmerged_unnamed = λ m. refl;
        })))
]
