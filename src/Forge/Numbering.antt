-- ===== src/Forge/Numbering.antt =====
-- The numbers of pull requests and comments through internal/forge/fake.go's changes of its lists.
use layup.Base.{
  ℕ, zero, suc, ◌+◌, ◌-◌, ◌≡◌, inl, inr, List, [], ◌∷◌, ◌++◌, some, arith, get_elem?, length,
  Option-cases, Bool-cases,
}
use native.Mathlib.Nat.{add-zero}
use layup.Text.{Text, text_eq}
use layup.Forge.Types.{PullRequest, Comment}
use layup.Forge.Fake.{FakePr, find_pr, set_at}
use layup.Forge.Calls.{mark_ready_in}
use layup.Forge.Invariant.{IsSoundPr, Numbered, NumberedComments}

Numbered-get :
    (n i : ℕ) (prs : List FakePr) {p : FakePr}
    → Numbered n prs
    → get_elem? prs i ≡ some p
    → IsSoundPr (n + i) p
Numbered-get n i [] a e = cc
Numbered-get n zero (q ∷ prs) a e = rw (add-zero) (ground arith)
Numbered-get n (suc i) (q ∷ prs) a e =
    let h = Numbered-get (suc n) i prs a.1 e in
    let same : n + suc i ≡ suc n + i = omega arith in rw same h

Numbered-set_at :
    (n i : ℕ) (prs : List FakePr) (q : FakePr)
    → Numbered n prs
    → IsSoundPr (n + i) q
    → Numbered n (set_at i q prs)
unfolding set_at
Numbered-set_at n i [] q a s = tt
Numbered-set_at n zero (p ∷ prs) q a s = ((rw add-zero at s), a.1)
Numbered-set_at n (suc i) (p ∷ prs) q a s =
    let same : n + suc i ≡ suc n + i = omega arith in
    (a.0, Numbered-set_at (suc n) i prs q a.1 (rw same at s))

pub Numbered-concat :
    (n : ℕ) (prs : List FakePr) (q : FakePr)
    → Numbered n prs
    → IsSoundPr (n + length prs) q
    → Numbered n (prs ++ (q ∷ []))
Numbered-concat n [] q a s = ((rw add-zero at s), tt)
Numbered-concat n (p ∷ prs) q a s =
    let same : n + suc (length prs) ≡ suc n + length prs = omega arith in
    (a.0, Numbered-concat (suc n) prs q a.1 (rw same at s))

pub NumberedComments-concat :
    (n : ℕ) (cs : List Comment) (c : Comment)
    → NumberedComments n cs
    → c.id ≡ n + length cs
    → NumberedComments n (cs ++ (c ∷ []))
NumberedComments-concat n [] c a e = (ground arith, tt)
NumberedComments-concat n (d ∷ cs) c a e =
    (a.0, NumberedComments-concat (suc n) cs c a.1 (omega arith))

-- A change of one pull request that keeps it sound.
pub set_pr-Numbered :
    (number : ℕ) (prs : List FakePr) (p q : FakePr)
    → Numbered 1 prs
    → find_pr number prs ≡ some p
    → (IsSoundPr number p → IsSoundPr number q)
    → Numbered 1 (set_at (number - 1) q prs)
unfolding find_pr
set_pr-Numbered zero prs p q a e k = cc
set_pr-Numbered (suc i) prs p q a e k =
    let at_i : 1 + i ≡ suc i = omega arith in
    let below : suc i - 1 ≡ i = omega arith in
    rw below (Numbered-set_at 1 i prs q a (rw at_i (k (rw at_i at (Numbered-get 1 i prs a e)))))

pub mark_ready_in-Numbered :
    (n : ℕ) (node : Text) (prs : List FakePr) {q : PullRequest} {qs : List FakePr}
    → Numbered n prs
    → mark_ready_in node prs ≡ some (q, qs)
    → Numbered n qs
unfolding mark_ready_in
mark_ready_in-Numbered n node [] a e = cc
mark_ready_in-Numbered n node (p ∷ prs) a e = elim (Bool-cases (text_eq p.pr.node_id node)) [
  | inl t ↦ ground (arith, a.0.merged_closed, a.0.merged_named)
  | inr t ↦ elim (Option-cases (mark_ready_in node prs)) [
    | inl m ↦ ground arith
    | inr ((q', qs'), m) ↦ ground (arith, mark_ready_in-Numbered (suc n) node prs a.1 m)
  ]
]
