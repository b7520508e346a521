-- ===== src/Tsv/TypesFuel.antt =====
-- The recursion of `parseType` in internal/tsv/types.go ends: each call is on a shorter text.
use layup.Base.{
  ℕ, zero, suc, ◌<◌, ◌≤◌, ◌≡◌, refl, [], ◌∷◌, arith, length, some, Option-cases, inl, inr, Result,
}
use layup.Text.{Text, cut_byte, trim_suffix_byte}
use layup.Tsv.Schema.{TypeReason, FieldType}
use layup.Tsv.Types.Simple.{simple}
use layup.Tsv.Types.{parse_kind, type_parts, parse_type_from, parse_type}

cut_byte-length : (c : ℕ) (t : Text) {a b : Text} → cut_byte c t ≡ some (a, b) → length b < length t
unfolding cut_byte
cut_byte-length c [] h = cc
cut_byte-length c (x ∷ t) h = elim (Option-cases (cut_byte c t)) [
  | inl e ↦ ground arith
  | inr ((p, q), e) ↦ ground (arith, cut_byte-length c t e)
]

trim-length : (c : ℕ) (t : Text) → length (trim_suffix_byte c t) ≤ length t
unfolding trim_suffix_byte
trim-length c [] = omega arith
trim-length c (x ∷ []) = ground arith
trim-length c (x ∷ y ∷ t) = omega (arith, trim-length c (y ∷ t))

type_parts-length :
    (e : Text) {kind arg : Text} → type_parts e ≡ some (kind, arg) → length arg < length e
unfolding type_parts
type_parts-length e h = elim (Option-cases (cut_byte b'(' e)) [
  | inl n ↦ ground arith
  | inr ((kind, arg), cut) ↦ ground (arith, cut_byte-length b'(' e cut, trim-length b')' arg)
]

parse_kind-congruence :
    (f g : Text → Result TypeReason FieldType) (expr kind arg : Text)
    → f arg ≡ g arg
    → parse_kind f expr kind arg ≡ parse_kind g expr kind arg
unfolding parse_kind
parse_kind-congruence f g expr kind arg h = rw h refl

parse_type_from-enough :
    (f g : ℕ) (e : Text) → length e < f → length e < g → parse_type_from f e ≡ parse_type_from g e
unfolding parse_type_from
parse_type_from-enough zero g e h k = absurd (omega arith)
parse_type_from-enough (suc f) zero e h k = absurd (omega arith)
parse_type_from-enough (suc f) (suc g) e h k = elim (Option-cases (simple e)) [
  | inr (v, s) ↦ rw (s, parse_type_from) refl
  | inl s ↦
      rw (s, parse_type_from)
        (elim (Option-cases (type_parts e)) [
          | inl n ↦ rw n refl
          | inr ((kind, arg), p) ↦
              let shorter = type_parts-length e p in
              rw p (
                parse_kind-congruence (parse_type_from f) (parse_type_from g) e kind arg
                  (parse_type_from-enough f g arg (omega arith) (omega arith)))
        ])
]

-- Any fuel above the length of the text gives what `parse_type` gives.
pub parse_type_fuel :
    (fuel : ℕ) (e : Text) → length e < fuel → parse_type_from fuel e ≡ parse_type e
unfolding parse_type
parse_type_fuel fuel e h = parse_type_from-enough fuel (suc (length e)) e h (omega arith)
