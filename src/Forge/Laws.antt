-- ===== src/Forge/Laws.antt =====
-- The calls of internal/forge/fake.go: when `Merge` is taken, what a refused call changes, and the
-- life of a pull request.
use layup.Base.{
  ℕ, zero, suc, ◌-◌, ◌<◌, ◌≡◌, ◌≢◌, ◌↔◌, inl, inr, refl, true, false, List, [], ◌∷◌, some, arith,
  get_elem?, ok, is_ok, Option-cases,
}
use layup.Text.{Text, codes, text_eq, text_eq_iff}
use layup.Forge.Types.{full_sha}
use layup.Forge.Fake.{FakePr, Fake, find_pr, set_at, open_issue, comment, set_status, close_issue}
use layup.Forge.Calls.{
  open_draft, mark_ready, merge_sha_of, mark_merged, merge_pr, merge, edit_body, close_pull_request,
}
use layup.Forge.Invariant.{
  Call, heads, moves, adds, runs, fails, opens_issue, comments, opens, readies, posts, merges,
  edits, closes, closes_issue, perform,
}

get_elem?-set_at :
    (i : ℕ) (prs : List FakePr) {p : FakePr} (q : FakePr)
    → get_elem? prs i ≡ some p
    → get_elem? (set_at i q prs) i ≡ some q
unfolding set_at
get_elem?-set_at i [] q e = cc
get_elem?-set_at zero (r ∷ prs) q e = refl
get_elem?-set_at (suc i) (r ∷ prs) q e = get_elem?-set_at i prs q e

pub find_pr-set_at :
    (number : ℕ) (prs : List FakePr) {p : FakePr} (q : FakePr)
    → find_pr number prs ≡ some p
    → find_pr number (set_at (number - 1) q prs) ≡ some q
unfolding find_pr
find_pr-set_at zero prs q e = cc
find_pr-set_at (suc i) prs q e =
    let below : suc i - 1 ≡ i = omega arith in rw below (get_elem?-set_at i prs q e)

find_pr-positive :
    (number : ℕ) (prs : List FakePr) {p : FakePr} → find_pr number prs ≡ some p → 0 < number
unfolding find_pr
find_pr-positive zero prs e = cc
find_pr-positive (suc i) prs e = omega arith

-- What `Merge` asks of the call and of the pull request.
pub record CanMerge (number : ℕ) (sha : Text) (f : Fake) (p : FakePr) : Type 0 where
  pub answers : f.fail ≢ codes "Merge"
  pub full : full_sha sha ≡ true
  pub found : find_pr number f.prs ≡ some p
  pub unmerged : p.pr.merged ≡ false
  pub is_open : p.pr.state ≡ codes "open"
  pub ready : p.pr.draft ≡ false
  pub head : sha ≡ p.pr.head_sha

merge_pr_iff :
    (number : ℕ) (sha : Text) (p : FakePr) (f : Fake)
    → (is_ok (merge_pr number sha p f).0 ≡ true) ↔ (
        (p.pr.merged ≡ false)
        × (p.pr.state ≡ codes "open")
        × (p.pr.draft ≡ false)
        × (sha ≡ p.pr.head_sha))
unfolding merge_pr
merge_pr_iff number sha p f =
    ground (arith, text_eq_iff p.pr.state (codes "open"), text_eq_iff sha p.pr.head_sha)

-- `Merge` that is taken gives the merge commit, and changes the pull request of the number alone:
-- from then on it is found merged, closed and with that commit.
pub merge-ok :
    (number : ℕ) (sha : Text) (f : Fake) (p : FakePr)
    → CanMerge number sha f p
    → (merge number sha f ≡ (
      ok (merge_sha_of number),
      record f { prs = set_at (number - 1) (mark_merged number p) f.prs },
    ))
      × (find_pr number (merge number sha f).1.prs ≡ some (mark_merged number p))
unfolding merge merge_pr
merge-ok number sha f p c =
    let positive = find_pr-positive number f.prs c.found in
    let named = text_eq_iff f.fail (codes "Merge") in
    let o = text_eq_iff p.pr.state (codes "open") in
    let h = text_eq_iff sha p.pr.head_sha in
    let found = c.found in
    let full = c.full in
    let u = c.unmerged in
    let so = c.is_open in
    let r = c.ready in
    let hd = c.head in
    let an = c.answers in
    let eq : merge number sha f ≡ (
      ok (merge_sha_of number),
      record f { prs = set_at (number - 1) (mark_merged number p) f.prs },
    ) =
      ground arith in
    (eq, rw eq (find_pr-set_at number f.prs (mark_merged number p) found))

merge_taken :
    (number : ℕ) (sha : Text) (f : Fake) (p : FakePr)
    → find_pr number f.prs ≡ some p
    → is_ok (merge number sha f).0 ≡ true
    → CanMerge number sha f p
unfolding merge
merge_taken number sha f p e t =
    let inner = merge_pr_iff number sha p f in
    let named = text_eq_iff f.fail (codes "Merge") in
    let full : full_sha sha ≡ true = ground arith in
    let answers : text_eq f.fail (codes "Merge") ≡ false = ground arith in
    let (m, s, d, h) = inner.0 (ground arith) in
    record {
      answers = λ x. cc (answers, named.1 x);
      full = full;
      found = e;
      unmerged = m;
      is_open = s;
      ready = d;
      head = h;
    }

-- `Merge` is taken exactly when the forge answers, the SHA is a full one, and the number is that of a
-- pull request that is open, not merged, no draft, and whose head is the SHA.
pub merge_iff :
    (number : ℕ) (sha : Text) (f : Fake)
    → (is_ok (merge number sha f).0 ≡ true) ↔ ((p : FakePr) × CanMerge number sha f p)
unfolding merge
merge_iff number sha f = elim (Option-cases (find_pr number f.prs)) [
  | inl e ↦ (ground arith, λ (p, c). cc (e, c.found))
  | inr (p, e) ↦ (
    λ t. (p, merge_taken number sha f p e t),
    λ (q, c). let done = (merge-ok number sha f q c).0 in rw done refl,
  )
]

-- Where `FailAfter` does not name `EditBody`, a call that is refused leaves the stand-in as it was.
pub perform_refused :
    (c : Call) (f : Fake)
    → f.fail_after ≢ codes "EditBody"
    → (perform c f).1 ≡ false
    → (perform c f).0 ≡ f
unfolding perform
perform_refused (heads branch sha) f a e = cc
perform_refused (moves number sha) f a e = cc
perform_refused (adds sha st) f a e = cc
perform_refused (runs sha rs) f a e = cc
perform_refused (fails c d) f a e = cc
perform_refused opens_issue f a e = unfold open_issue in ground arith
perform_refused (comments issue body) f a e = unfold comment in ground arith
perform_refused (opens head body) f a e = unfold open_draft in ground arith
perform_refused (readies node) f a e = unfold mark_ready in ground arith
perform_refused (posts sha context state description) f a e = unfold set_status in ground arith
perform_refused (merges number sha) f a e = unfold merge merge_pr in ground arith
perform_refused (edits number body) f a e =
    unfold edit_body in ground (arith, text_eq_iff f.fail_after (codes "EditBody"))
perform_refused (closes number) f a e = unfold close_pull_request in ground arith
perform_refused (closes_issue number) f a e = unfold close_issue in ground arith
