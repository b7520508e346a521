-- ===== src/Text/Fields.antt =====
-- `strings.Fields` on UTF-8 text, `strings.Cut` at a text, `strings.HasSuffix`, and the part of a text
-- behind its last byte of a kind.
use layup.Base.{
  ℕ, zero, suc, ◌≡◌, sym, ap, Bool, true, ◌&&◌, ◌||◌, List, [], ◌∷◌, ◌++◌, Option, none, some,
  arith, leb, ◌==◌, if◌then◌else◌, is_empty, Bool-cases, Option-cases, inl, inr,
}
use layup.Text.{Text, text_eq, text_eq_iff, cut_prefix, contains_byte}

-- The bytes of the white space that a text starts with: 0 for none, else those of one character.
unfoldable pub space_length : Text → ℕ
space_length [] = 0
space_length (a ∷ []) = if (leb 9 a && leb a 13) || (a == 32) then 1 else 0
space_length (a ∷ b ∷ []) =
    if (leb 9 a && leb a 13) || (a == 32)
    then 1
    else if (a == 0xC2) && ((b == 0x85) || (b == 0xA0))
    then 2
    else 0
space_length (a ∷ b ∷ c ∷ t) =
    if (leb 9 a && leb a 13) || (a == 32)
    then 1
    else if (a == 0xC2) && ((b == 0x85) || (b == 0xA0))
    then 2
    else if ((a == 0xE1) && ((b == 0x9A) && (c == 0x80)))
        || (((a == 0xE2)
              && ((b == 0x80)
                  && ((leb 0x80 c && leb c 0x8A) || ((c == 0xA8) || ((c == 0xA9) || (c == 0xAF))))))
            || (((a == 0xE2) && ((b == 0x81) && (c == 0x9F)))
                || ((a == 0xE3) && ((b == 0x80) && (c == 0x80)))))
    then 3
    else 0

-- `word` is the word so far, `skip` the bytes of a white space that are left.
unfoldable pub fields_from : ℕ → Text → Text → List Text
fields_from skip word [] = if is_empty word then [] else word ∷ []
fields_from (suc skip) word (b ∷ t) = fields_from skip word t
fields_from zero word (b ∷ t) = elim (space_length (b ∷ t)) [
  | zero ↦ fields_from zero (word ++ (b ∷ [])) t
  | suc k ↦ let rest = fields_from k [] t in if is_empty word then rest else word ∷ rest
]

-- `strings.Fields`.
unfoldable pub text_fields : Text → List Text
text_fields = fields_from 0 []

-- `strings.Cut`.
unfoldable pub cut_text : Text → Text → Option (Text × Text)
cut_text sep [] = elim (cut_prefix sep []) [ some rest ↦ some ([], rest) | none ↦ none ]
cut_text sep (c ∷ t) =
    let later = cut_text sep t in
    elim (cut_prefix sep (c ∷ t)) [
      | some rest ↦ some ([], rest)
      | none ↦ elim later [ none ↦ none | some (before, after) ↦ some (c ∷ before, after) ]
    ]

-- `strings.HasSuffix` with its arguments swapped.
unfoldable pub has_suffix : Text → Text → Bool
has_suffix s [] = text_eq s []
has_suffix s (c ∷ t) = let rest = has_suffix s t in text_eq s (c ∷ t) || rest

-- The text behind its last byte `c`.
unfoldable pub after_last : ℕ → Text → Text
after_last c [] = []
after_last c (x ∷ t) =
    let rest = after_last c t in if contains_byte c t then rest else if x == c then t else x ∷ t

pub cut_prefix-some : (p t : Text) {rest : Text} → cut_prefix p t ≡ some rest → t ≡ p ++ rest
unfolding cut_prefix
cut_prefix-some [] t e = ground arith
cut_prefix-some (x ∷ p) [] e = cc
cut_prefix-some (x ∷ p) (y ∷ t) {rest = rest} e = elim (Bool-cases (x == y)) [
  | inl s ↦
      let tail : cut_prefix p t ≡ some rest = rw s at e in
      let same : y ≡ x = ground arith in
      let equal : t ≡ p ++ rest = cut_prefix-some p t tail in cc (same, equal)
  | inr s ↦ absurd (ground arith)
]

pub cut_text-some :
    (sep t : Text) {before after : Text}
    → cut_text sep t ≡ some (before, after)
    → t ≡ before ++ (sep ++ after)
unfolding cut_text
cut_text-some sep [] {before} {after} e = elim (Option-cases (cut_prefix sep [])) [
  | inl n ↦ absurd (ground arith)
  | inr (rest, p) ↦
      let split = cut_prefix-some sep [] p in
      let made : some ([], rest) ≡ some (before, after) = rw (p, cut_text) at e in
      let first : [] ≡ before = cc in let second : rest ≡ after = cc in rw⁻¹ (first, second) split
]
cut_text-some sep (c ∷ t) {before} {after} e = elim (Option-cases (cut_prefix sep (c ∷ t))) [
  | inr (rest, p) ↦
      let split = cut_prefix-some sep (c ∷ t) p in
      let made : some ([], rest) ≡ some (before, after) = rw (p, cut_text) at e in
      let first : [] ≡ before = cc in let second : rest ≡ after = cc in rw⁻¹ (first, second) split
  | inl n ↦ elim (Option-cases (cut_text sep t)) [
    | inl m ↦ absurd (ground arith)
    | inr ((b, a), m) ↦
        let split = cut_text-some sep t m in
        let made : some (c ∷ b, a) ≡ some (before, after) = rw (n, cut_text, m) at e in
        let first : c ∷ b ≡ before = cc in
        let second : a ≡ after = cc in rw⁻¹ (first, second) (ap (λ u. c ∷ u) split)
  ]
]

pub has_suffix-append : (s t : Text) → has_suffix s t ≡ true → (stem : Text) × (t ≡ stem ++ s)
unfolding has_suffix
has_suffix-append s [] e = ([], sym ((text_eq_iff s []).0 e))
has_suffix-append s (c ∷ t) e = elim (Bool-cases (text_eq s (c ∷ t))) [
  | inl same ↦ ([], sym ((text_eq_iff s (c ∷ t)).0 same))
  | inr other ↦
      let (stem, split) = has_suffix-append s t (ground arith) in (c ∷ stem, ap (λ u. c ∷ u) split)
]
