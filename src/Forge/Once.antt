-- ===== src/Forge/Once.antt =====
-- internal/forge/fake.go: a pull request that was merged stays merged, whatever calls are made.
use mathlib.Core.Path.{subst}
use layup.Base.{
  ℕ, zero, suc, ◌-◌, ◌≡◌, inl, inr, refl, sym, ◌∙◌, ap, true, false, List, [], ◌∷◌, ◌++◌, some,
  arith, get_elem?, is_ok, ltb, Option-cases, Bool-cases,
}
use layup.Text.{Text, codes, text_eq}
use layup.Forge.Types.{PullRequest}
use layup.Forge.Fake.{
  FakePr, Fake, find_pr, set_at, set_head, move_head, add_status, set_check_runs, open_issue,
  comment, set_status, close_issue,
}
use layup.Forge.Calls.{
  open_draft, undraft, mark_ready_in, mark_ready, mark_merged, merge_pr, merge, edit_body,
  close_pull_request,
}
use layup.Forge.Invariant.{
  Call, heads, moves, adds, runs, fails, opens_issue, comments, opens, readies, posts, merges,
  edits, closes, closes_issue, perform, perform_all,
}
use layup.Forge.Laws.{merge_iff, merge-ok}

-- The pull request at a place is a merged one.
abbrev MergedAt : ℕ → List FakePr → Type 0
MergedAt i prs = (p : FakePr) × (get_elem? prs i ≡ some p) × (p.pr.merged ≡ true)

abbrev Stays : List FakePr → List FakePr → Type 0
Stays prs prs' = (i : ℕ) → MergedAt i prs → MergedAt i prs'

same-Stays : (prs prs' : List FakePr) → prs' ≡ prs → Stays prs prs'
same-Stays prs prs' e i m = subst (MergedAt i) (sym e) m

set_at-Stays :
    (j : ℕ) (q : FakePr) (prs : List FakePr) {r : FakePr}
    → get_elem? prs j ≡ some r
    → (r.pr.merged ≡ true → q.pr.merged ≡ true)
    → Stays prs (set_at j q prs)
unfolding set_at
set_at-Stays j q [] e k i m = absurd (cc (e))
set_at-Stays zero q (x ∷ prs) {r} e k zero (p, g, m) =
    let same : p ≡ r = cc in (q, refl, k (sym (ap (λ (z : FakePr). z.pr.merged) same) ∙ m))
set_at-Stays zero q (x ∷ prs) e k (suc i) m = m
set_at-Stays (suc j) q (x ∷ prs) e k zero m = m
set_at-Stays (suc j) q (x ∷ prs) e k (suc i) m = set_at-Stays j q prs e k i m

set_pr-Stays :
    (number : ℕ) (q : FakePr) (prs : List FakePr) {p : FakePr}
    → find_pr number prs ≡ some p
    → (p.pr.merged ≡ true → q.pr.merged ≡ true)
    → Stays prs (set_at (number - 1) q prs)
unfolding find_pr
set_pr-Stays zero q prs e k = cc
set_pr-Stays (suc j) q prs {p} e k =
    let below : suc j - 1 ≡ j = omega arith in
    subst (λ z. Stays prs (set_at z q prs)) (sym below) (set_at-Stays j q prs {r = p} e k)

concat-Stays : (prs more : List FakePr) → Stays prs (prs ++ more)
concat-Stays [] more i m = absurd (cc (m.1))
concat-Stays (x ∷ prs) more zero m = m
concat-Stays (x ∷ prs) more (suc i) m = concat-Stays prs more i m

mark_ready_in-Stays :
    (node : Text) (prs : List FakePr) {q : PullRequest} {qs : List FakePr}
    → mark_ready_in node prs ≡ some (q, qs)
    → Stays prs qs
unfolding mark_ready_in set_at
mark_ready_in-Stays node [] e = cc
mark_ready_in-Stays node (x ∷ prs) {q} {qs} e = elim (Bool-cases (text_eq x.pr.node_id node)) [
  | inl this ↦
      let made : undraft x ∷ prs ≡ qs = ground arith in
      subst (Stays (x ∷ prs)) made (set_at-Stays zero (undraft x) (x ∷ prs) {r = x} refl (λ m. m))
  | inr other ↦ elim (Option-cases (mark_ready_in node prs)) [
    | inl absent ↦ absurd (ground arith)
    | inr ((q', qs'), found) ↦
        let made : x ∷ qs' ≡ qs = ground arith in
        let rest : Stays prs qs' = mark_ready_in-Stays node prs {q = q'} {qs = qs'} found in
        subst (Stays (x ∷ prs)) made (λ i m.
          elim i as (λ i. MergedAt i (x ∷ prs) → MergedAt i (x ∷ qs')) [
            | zero ↦ λ m. m
            | suc i ↦ λ m. rest i m
          ]
            m)
  ]
]

move_head-Stays : (number : ℕ) (sha : Text) (f : Fake) → Stays f.prs (move_head number sha f).prs
unfolding move_head
move_head-Stays number sha f = elim (Option-cases (find_pr number f.prs)) [
  | inl e ↦ rw (move_head, e) (λ i m. m)
  | inr (p, e) ↦
      rw (move_head, e)
        (set_pr-Stays number (record p { pr = record (p.pr) { head_sha = sha } }) f.prs {p = p} e
          (λ m. m))
]

open_draft-Stays : (head body : Text) (f : Fake) → Stays f.prs (open_draft head body f).1.prs
unfolding open_draft
open_draft-Stays head body f = elim (Bool-cases (text_eq f.fail (codes "OpenDraft"))) [
  | inl e ↦ rw (open_draft, e) (λ i m. m)
  | inr e ↦ rw (open_draft, e) (concat-Stays f.prs _)
]

mark_ready-Stays : (node : Text) (f : Fake) → Stays f.prs (mark_ready node f).1.prs
unfolding mark_ready
mark_ready-Stays node f = elim (Bool-cases (text_eq f.fail (codes "MarkReady"))) [
  | inl e ↦ rw (mark_ready, e) (λ i m. m)
  | inr e ↦ elim (Option-cases (mark_ready_in node f.prs)) [
    | inl absent ↦ rw (mark_ready, e, absent) (λ i m. m)
    | inr ((q, qs), found) ↦
        rw (mark_ready, e, found) (mark_ready_in-Stays node f.prs {q = q} {qs = qs} found)
  ]
]

merge-Stays : (number : ℕ) (sha : Text) (f : Fake) → Stays f.prs (merge number sha f).1.prs
unfolding merge merge_pr
merge-Stays number sha f = elim (Bool-cases (is_ok (merge number sha f).0)) [
  | inr refused ↦ same-Stays f.prs _ (ground arith)
  | inl taken ↦
      let (p, c) = (merge_iff number sha f).0 taken in
      let made = (merge-ok number sha f p c).0 in
      subst (Stays f.prs) (sym (ap (λ o. o.1.prs) made)) (
        set_pr-Stays number (mark_merged number p) f.prs {p = p} c.found
          (λ m. unfold mark_merged in refl))
]

edit_body-Stays :
    (number : ℕ) (body : Text) (f : Fake) → Stays f.prs (edit_body number body f).1.prs
unfolding edit_body
edit_body-Stays number body f = elim (Bool-cases (ltb number 1)) [
  | inl low ↦ rw (edit_body, low) (λ i m. m)
  | inr fine ↦ elim (Bool-cases (text_eq f.fail (codes "EditBody"))) [
    | inl e ↦ rw (edit_body, fine, e) (λ i m. m)
    | inr e ↦ elim (Option-cases (find_pr number f.prs)) [
      | inl absent ↦ rw (edit_body, fine, e, absent) (λ i m. m)
      | inr (p, found) ↦
          let kept =
            set_pr-Stays number (record p { pr = record (p.pr) { body = body } }) f.prs {p = p}
              found (λ m. m) in
          elim (Bool-cases (text_eq f.fail_after (codes "EditBody"))) [
            | inl late ↦ rw (edit_body, fine, e, found, late) kept
            | inr quiet ↦ rw (edit_body, fine, e, found, quiet) kept
          ]
    ]
  ]
]

close_pull_request-Stays : (number : ℕ) (f : Fake) → Stays f.prs (close_pull_request number f).1.prs
unfolding close_pull_request
close_pull_request-Stays number f = elim (Bool-cases (ltb number 1)) [
  | inl low ↦ rw (close_pull_request, low) (λ i m. m)
  | inr fine ↦ elim (Bool-cases (text_eq f.fail (codes "ClosePullRequest"))) [
    | inl e ↦ rw (close_pull_request, fine, e) (λ i m. m)
    | inr e ↦ elim (Option-cases (find_pr number f.prs)) [
      | inl absent ↦ rw (close_pull_request, fine, e, absent) (λ i m. m)
      | inr (p, found) ↦
          rw (close_pull_request, fine, e, found)
            (set_pr-Stays number (record p { pr = record (p.pr) { state = codes "closed" } }) f.prs
              {p = p} found (λ m. m))
    ]
  ]
]

perform-Stays : (c : Call) (f : Fake) → Stays f.prs (perform c f).0.prs
unfolding perform
perform-Stays (heads branch sha) f = same-Stays f.prs _ (unfold set_head in refl)
perform-Stays (moves number sha) f = move_head-Stays number sha f
perform-Stays (adds sha st) f = same-Stays f.prs _ (unfold add_status in refl)
perform-Stays (runs sha rs) f = same-Stays f.prs _ (unfold set_check_runs in refl)
perform-Stays (fails c d) f = λ i m. m
perform-Stays opens_issue f = same-Stays f.prs _ (unfold open_issue in ground arith)
perform-Stays (comments issue body) f = same-Stays f.prs _ (unfold comment in ground arith)
perform-Stays (opens head body) f = open_draft-Stays head body f
perform-Stays (readies node) f = mark_ready-Stays node f
perform-Stays (posts sha context state description) f =
    same-Stays f.prs _ (unfold set_status add_status in ground arith)
perform-Stays (merges number sha) f = merge-Stays number sha f
perform-Stays (edits number body) f = edit_body-Stays number body f
perform-Stays (closes number) f = close_pull_request-Stays number f
perform-Stays (closes_issue number) f = same-Stays f.prs _ (unfold close_issue in ground arith)

perform_all-Stays : (cs : List Call) (f : Fake) → Stays f.prs (perform_all cs f).prs
unfolding perform_all
perform_all-Stays [] f = λ i m. m
perform_all-Stays (c ∷ cs) f = λ i m. perform_all-Stays cs (perform c f).0 i (perform-Stays c f i m)

-- No pull request is merged twice: once a merge of it was taken, no merge of it is, by whatever head and
-- whatever calls are made in between.
pub merge-merge :
    (number : ℕ) (sha again : Text) (between : List Call) (f : Fake)
    → is_ok (merge number sha f).0 ≡ true
    → is_ok (merge number again (perform_all between (merge number sha f).1)).0 ≡ false
unfolding find_pr
merge-merge zero sha again between f t = cc ((merge_iff zero sha f).0 t).1.found
merge-merge (suc i) sha again between f t =
    let (p, c) = (merge_iff (suc i) sha f).0 t in
    let g = perform_all between (merge (suc i) sha f).1 in
    let (q, there, merged) =
      perform_all-Stays between (merge (suc i) sha f).1 i
        (mark_merged (suc i) p, (merge-ok (suc i) sha f p c).1, (unfold mark_merged in refl)) in
    elim (Bool-cases (is_ok (merge (suc i) again g).0)) [
      | inr refused ↦ refused
      | inl taken ↦
          let (r, d) = (merge_iff (suc i) again g).0 taken in
          let same : some q ≡ some r = sym there ∙ d.found in absurd (cc (same, merged, d.unmerged))
    ]
