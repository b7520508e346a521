-- ===== src/Attempts/Earliest.antt =====
-- internal/run/cycle.go: which command `judgeGrants` takes for the grant.
use mathlib.Core.Path.{subst}
use layup.Base.{ℕ, ◌≤◌, ◌≡◌, ◌≢◌, inl, inr, refl, sym, ◌∙◌, List, [], ◌∷◌, arith, All, Bool-cases}
use layup.Members.{Exists}
use layup.Attempts.View.{View, Copy}
use layup.Attempts.Grants.{id_of, sort_copies, Grants, judge_grant, judge_in, judge_grants}
use layup.Attempts.ByComment.{Rising, sort_copies-Rising, sort_copies-All, sort_copies-Exists}
use layup.Attempts.Eligible.{
  Eligible, eligible, judge_grant-grant, eligible-Eligible, Eligible-eligible,
}

judge_in-kept :
    (v : View) (g : Grants) (cs : List Copy) → g.grant ≢ 0 → (judge_in v g cs).grant ≡ g.grant
unfolding judge_in
judge_in-kept v g [] n = refl
judge_in-kept v g (c ∷ cs) n =
    let same : (judge_grant v g c).grant ≡ g.grant = judge_grant-grant v g c ∙ ground arith in
    judge_in-kept v (judge_grant v g c) cs (λ z. n (sym same ∙ z)) ∙ same

kept_below :
    (v : View) (n : ℕ) (cs : List Copy)
    → 1 ≤ n
    → All (λ d. n ≤ id_of d) cs
    → All (λ c. Eligible v c → (1 ≤ n) × (n ≤ id_of c)) cs
kept_below v n [] p a = tt
kept_below v n (c ∷ cs) p a = ((λ e. (p, a.0)), kept_below v n cs p a.1)

module _ (v : View) where
  judge_in-least :
      (g : Grants) (cs : List Copy)
      → Rising cs
      → g.grant ≡ 0
      → All
          (λ c. Eligible v c → (1 ≤ (judge_in v g cs).grant) × ((judge_in v g cs).grant ≤ id_of c))
          cs
  unfolding judge_in Rising
  judge_in-least g [] r z = tt
  judge_in-least g (c ∷ cs) r z = elim (Bool-cases (eligible v c)) [
    | inl is ↦
        let later = (eligible-Eligible v c is).later in
        let here : (judge_grant v g c).grant ≡ id_of c = judge_grant-grant v g c ∙ ground arith in
        let same : (judge_in v (judge_grant v g c) cs).grant ≡ id_of c =
          judge_in-kept v (judge_grant v g c) cs (λ n. absurd (omega (arith, n, here, later)))
          ∙ here in
        subst (λ z. All (λ d. Eligible v d → (1 ≤ z) × (z ≤ id_of d)) (c ∷ cs)) (sym same)
          (
            (λ e. (omega (arith, later), omega arith)),
            kept_below v (id_of c) cs (omega (arith, later)) r.0,
          )
    | inr not_one ↦
        let here : (judge_grant v g c).grant ≡ 0 = judge_grant-grant v g c ∙ ground (arith, z) in
        (
          (λ e. absurd (cc (not_one, Eligible-eligible v c e))),
          judge_in-least (judge_grant v g c) cs r.1 here,
        )
  ]

  judge_in-one :
      (g : Grants) (cs : List Copy)
      → g.grant ≡ 0
      → (judge_in v g cs).grant ≢ 0
      → Exists (λ c. Eligible v c × (id_of c ≡ (judge_in v g cs).grant)) cs
  unfolding judge_in
  judge_in-one g [] z n = absurd (n z)
  judge_in-one g (c ∷ cs) z n = elim (Bool-cases (eligible v c)) [
    | inl is ↦
        let e = eligible-Eligible v c is in
        let later = e.later in
        let here : (judge_grant v g c).grant ≡ id_of c = judge_grant-grant v g c ∙ ground arith in
        inl (
          e,
          sym here
              ∙ sym (
                  judge_in-kept v (judge_grant v g c) cs
                    (λ n. absurd (omega (arith, n, here, later)))),
        )
    | inr not_one ↦
        let here : (judge_grant v g c).grant ≡ 0 = judge_grant-grant v g c ∙ ground (arith, z) in
        inr (judge_in-one (judge_grant v g c) cs here n)
  ]

-- The grant of a task is its earliest eligible command: at most the ID of every one of them, and the ID
-- of one; and there is a grant, as a number that is not 0, exactly where there is an eligible command.
-- A command is eligible where its form, author and issue pass, it names the task, the task has come to
-- the cap by a verdict that a cycle may mend, and its comment is later than that of the cap round.
pub judge_grants-Earliest :
    (v : View) (cands : List Copy)
    → All
        (λ c.
          Eligible v c
          → (1 ≤ (judge_grants v cands).grant) × ((judge_grants v cands).grant ≤ id_of c))
        cands
      × ((judge_grants v cands).grant ≢ 0
          → Exists (λ c. Eligible v c × (id_of c ≡ (judge_grants v cands).grant)) cands)
unfolding judge_grants
judge_grants-Earliest v cands =
    let g : Grants = record { grant = 0; refused = [] } in
    (
      sort_copies-All _ cands
          (judge_in-least v g (sort_copies cands) (sort_copies-Rising cands) refl),
      (λ n. sort_copies-Exists _ cands (judge_in-one v g (sort_copies cands) refl n)),
    )
