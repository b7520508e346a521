-- ===== src/Text.antt =====
-- Go strings as lists of bytes, and the functions of the packages `strings` and `unicode/utf8` that
-- the sources call.
pub mod Split
pub mod Lines
pub mod Numbers
pub mod Fields
pub mod Plain
use Prim.Native.Char.{code}
use Prim.Native.String.{String}
use layup.Base.{
  ℕ, zero, suc, ◌+◌, ◌-◌, ◌≡◌, ◌↔◌, refl, Bool, true, false, not, ◌&&◌, ◌||◌, List, [], ◌∷◌, ◌++◌,
  Option, none, some, arith, leb, ltb, ◌==◌, if◌then◌else◌, any,
}

abbrev pub Text : Type 0
Text = List ℕ

-- The bytes of an ASCII literal.
abbrev pub codes : String → Text
codes String.[] = []
codes (String.◌∷◌ c s) = code c ∷ codes s

-- `a == b` on strings.
unfoldable pub text_eq : Text → Text → Bool
text_eq [] [] = true
text_eq (x ∷ xs) (y ∷ ys) = x == y && text_eq xs ys
text_eq _ _ = false

pub text_eq_iff : (a b : Text) → (text_eq a b ≡ true) ↔ (a ≡ b)
unfolding text_eq
text_eq_iff (x ∷ a) (y ∷ b) = ground (arith, text_eq_iff a b)
text_eq_iff _ _ = ground arith

-- `strings.HasPrefix` with its arguments swapped.
unfoldable pub has_prefix : Text → Text → Bool
has_prefix [] t = true
has_prefix (x ∷ p) [] = false
has_prefix (x ∷ p) (y ∷ t) = x == y && has_prefix p t

-- `strings.CutPrefix`.
unfoldable pub cut_prefix : Text → Text → Option Text
cut_prefix [] t = some t
cut_prefix (x ∷ p) [] = none
cut_prefix (x ∷ p) (y ∷ t) = if x == y then cut_prefix p t else none

-- `strings.IndexByte(t, c) >= 0`, and `strings.ContainsAny`.
unfoldable pub contains_byte : ℕ → Text → Bool
contains_byte c [] = false
contains_byte c (x ∷ t) = x == c || contains_byte c t

unfoldable pub contains_any : Text → Text → Bool
unfolding contains_byte
contains_any cs [] = false
contains_any cs (x ∷ t) = contains_byte x cs || contains_any cs t

-- Whether the last byte is `c`, and `strings.TrimSuffix` by one byte.
unfoldable pub has_suffix_byte : ℕ → Text → Bool
has_suffix_byte c [] = false
has_suffix_byte c (x ∷ []) = x == c
has_suffix_byte c (x ∷ y ∷ t) = has_suffix_byte c (y ∷ t)

unfoldable pub trim_suffix_byte : ℕ → Text → Text
trim_suffix_byte c [] = []
trim_suffix_byte c (x ∷ []) = if x == c then [] else x ∷ []
trim_suffix_byte c (x ∷ y ∷ t) = x ∷ trim_suffix_byte c (y ∷ t)

-- `strings.Count` of one byte.
unfoldable pub count_byte : ℕ → Text → ℕ
count_byte c [] = 0
count_byte c (x ∷ t) = (if x == c then 1 else 0) + count_byte c t

-- The text before the first byte `c`: `t[:strings.IndexByte(t, c)]`.
unfoldable pub before_byte : ℕ → Text → Text
before_byte c [] = []
before_byte c (x ∷ t) = if x == c then [] else x ∷ before_byte c t

-- `strings.Cut` at a byte: what stands before and behind it, or `none`.
unfoldable pub cut_byte : ℕ → Text → Option (Text × Text)
cut_byte c [] = none
cut_byte c (x ∷ t) =
    if x == c
    then some ([], t)
    else elim (cut_byte c t) [ none ↦ none | some (a, b) ↦ some (x ∷ a, b) ]

-- `slices.Contains` on strings.
abbrev pub member : Text → List Text → Bool
member t = any (text_eq t)

-- The bytes that `utf8.ValidString` expects behind a first byte: how many, and the range of the
-- next one. `none` for a byte that starts no character.
pub record Lead : Type 0 where
  pub more : ℕ
  pub lo : ℕ
  pub hi : ℕ

unfoldable pub lead_of : ℕ → Option Lead
lead_of b =
    if leb b 0x7F
    then some (record { more = 0; lo = 0; hi = 0 })
    else if leb 0xC2 b && leb b 0xDF
    then some (record { more = 1; lo = 0x80; hi = 0xBF })
    else if b == 0xE0
    then some (record { more = 2; lo = 0xA0; hi = 0xBF })
    else if b == 0xED
    then some (record { more = 2; lo = 0x80; hi = 0x9F })
    else if leb 0xE1 b && leb b 0xEF
    then some (record { more = 2; lo = 0x80; hi = 0xBF })
    else if b == 0xF0
    then some (record { more = 3; lo = 0x90; hi = 0xBF })
    else if leb 0xF1 b && leb b 0xF3
    then some (record { more = 3; lo = 0x80; hi = 0xBF })
    else if b == 0xF4
    then some (record { more = 3; lo = 0x80; hi = 0x8F })
    else none

-- Reads `t` where `k` more bytes of a character are due, the next from `lo` to `hi`.
utf8_from : ℕ → ℕ → ℕ → Text → Bool
utf8_from k lo hi [] = k == 0
utf8_from (suc k) lo hi (b ∷ t) = (leb lo b && leb b hi) && utf8_from k 0x80 0xBF t
utf8_from zero lo hi (b ∷ t) = elim (lead_of b) [
  | none ↦ false
  | some l ↦ utf8_from l.more l.lo l.hi t
]

-- `utf8.ValidString`.
unfoldable pub valid_utf8 : Text → Bool
unfolding utf8_from lead_of
valid_utf8 = utf8_from 0 0 0
