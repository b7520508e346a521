-- ===== src/Base/Results.antt =====
-- A Go call that returns a value and an error, as a value of a result type.
use mathlib.Core.Path.{◌≡◌, refl}
use mathlib.Core.Bool.{Bool, true, false}
use mathlib.Core.Logic.{◌⊎◌, inl, inr}

pub data Result {ℓ κ} (E : Type ℓ) (A : Type κ) : Type (ℓ ⊔ κ) where
  err : E → Result E A
  ok : A → Result E A

-- `if broken { return err }`.
abbrev pub refuse_if {ℓ} : {E : Type ℓ} → Bool → E → Result E (Unit {0})
refuse_if broken e = elim broken [ true ↦ err e | false ↦ ok tt ]

module _ {ℓ κ} {E : Type ℓ} {A : Type κ} where
  abbrev pub is_ok : Result E A → Bool
  is_ok (err _) = false
  is_ok (ok _) = true

  pub Result-cases : (m : Result E A) → ((a : A) × (m ≡ ok a)) ⊎ ((e : E) × (m ≡ err e))
  Result-cases (err e) = inr (e, refl)
  Result-cases (ok a) = inl (a, refl)

  module _ {μ} {B : Type μ} where
    infixl 5 ◌>>=◌
    abbrev pub ◌>>=◌ : Result E A → (A → Result E B) → Result E B
    err e >>= next = err e
    ok value >>= next = next value

    pub >>=-eq-ok :
        (m : Result E A) (next : A → Result E B) {out : B}
        → (m >>= next) ≡ ok out
        → (value : A) × (m ≡ ok value) × (next value ≡ ok out)
    >>=-eq-ok (err e) next h = cc
    >>=-eq-ok (ok value) next h = (value, refl, h)

-- A step whose value is nothing.
infixl 5 ◌>>◌
abbrev pub ◌>>◌ {ℓ κ} : {E : Type ℓ} {A : Type κ} → Result E (Unit {0}) → Result E A → Result E A
step >> later = step >>= (λ done. later)

pub refuse_if-eq-ok {ℓ} :
    {E : Type ℓ} (b : Bool) (e : E) {u : Unit {0}} → refuse_if b e ≡ ok u → b ≡ false
refuse_if-eq-ok true e h = cc
refuse_if-eq-ok false e h = refl
