-- ===== src/Members.antt =====
-- Membership of a text in a list of texts, as a test and as a proposition-like type.
use layup.Base.{
  ◌≡◌, ◌↔◌, ◌⊎◌, refl, Bool, true, ◌||◌, ◌&&◌, List, [], ◌∷◌, arith, any, all, All, inl, inr,
}
use layup.Text.{Text, text_eq_iff, member}

-- `t` is one of the texts.
abbrev pub In : Text → List Text → Type 0
In t [] = ⊥
In t (u ∷ us) = (t ≡ u) ⊎ In t us

pub member_iff : (t : Text) (us : List Text) → (member t us ≡ true) ↔ In t us
member_iff t [] = ((λ h. cc), (λ h. absurd h))
member_iff t (u ∷ us) = ground (arith, text_eq_iff t u, member_iff t us)

-- Some element meets the test.
abbrev pub Exists {ℓ} : {A : Type ℓ} → (A → Type 0) → List A → Type 0
Exists P [] = ⊥
Exists P (x ∷ xs) = P x ⊎ Exists P xs

and_iff : (a b : Bool) → ((a && b) ≡ true) ↔ ((a ≡ true) × (b ≡ true))
and_iff a b = ground arith

or_iff : (a b : Bool) → ((a || b) ≡ true) ↔ ((a ≡ true) ⊎ (b ≡ true))
or_iff a b = ground arith

-- A search by a test that decides `P`.
module _ {ℓ} {A : Type ℓ} (p : A → Bool) {P : A → Type 0} (h : (x : A) → (p x ≡ true) ↔ P x) where
  pub all_iff : (xs : List A) → (all p xs ≡ true) ↔ All P xs
  all_iff [] = ((λ e. tt), (λ e. refl))
  all_iff (x ∷ xs) =
      let b = and_iff (p x) (all p xs) in
      (
        (λ e. ((h x).0 (b.0 e).0, (all_iff xs).0 (b.0 e).1)),
        (λ e. b.1 ((h x).1 e.0, (all_iff xs).1 e.1)),
      )

  pub any_iff : (xs : List A) → (any p xs ≡ true) ↔ Exists P xs
  any_iff [] = ((λ e. cc), (λ e. absurd e))
  any_iff (x ∷ xs) =
      let b = or_iff (p x) (any p xs) in
      (
        (λ e. elim (b.0 e) [ inl l ↦ inl ((h x).0 l) | inr r ↦ inr ((any_iff xs).0 r) ]),
        (λ e. b.1 (elim e [ inl l ↦ inl ((h x).1 l) | inr r ↦ inr ((any_iff xs).1 r) ])),
      )
