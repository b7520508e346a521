-- ===== src/Text/Numbers.antt =====
-- `fmt` and `strconv` on natural numbers: decimal digits, and hexadecimal digits of a fixed width;
-- and the count of the characters of a text.
use layup.Base.{
  ℕ, zero, suc, ◌+◌, ◌-◌, ◌*◌, ◌/◌, ◌%◌, ◌<◌, ◌≡◌, ◌∙◌, ap, Bool, true, false, ◌&&◌, [], ◌∷◌, none,
  some, arith, leb, ltb, if◌then◌else◌, is_empty, not, any, ◌||◌, Bool-cases, inl, inr,
}
use layup.Text.{Text, lead_of}

decimal_from : ℕ → ℕ → Text → Text
decimal_from zero n acc = acc
decimal_from (suc fuel) n acc =
    let more = decimal_from fuel (n / 10) ((b'0' + n % 10) ∷ acc) in
    if ltb n 10 then (b'0' + n) ∷ acc else more

-- `strconv.Itoa`.
unfoldable pub decimal_text : ℕ → Text
unfolding decimal_from
decimal_text n = decimal_from (suc n) n []

-- `strconv.Atoi` on digits; `acc` stands before them.
unfoldable pub number_from : ℕ → Text → ℕ
number_from acc [] = acc
number_from acc (c ∷ t) = number_from (acc * 10 + (c - b'0')) t

-- `n, _ := strconv.Atoi(t)`, with 0 for a negative number: 0 without digits, and the largest int above it.
unfoldable pub atoi : Text → ℕ
unfolding number_from
atoi t =
    if is_empty t || any (λ c. not (leb b'0' c && leb c b'9')) t
    then 0
    else if leb (number_from 0 t) 9223372036854775807
    then number_from 0 t
    else 9223372036854775807

number_from-decimal_from :
    (fuel n : ℕ) (acc : Text)
    → n < fuel
    → number_from 0 (decimal_from fuel n acc) ≡ number_from n acc
unfolding decimal_from number_from
number_from-decimal_from zero n acc h = absurd (omega arith)
number_from-decimal_from (suc fuel) n acc h = elim (Bool-cases (ltb n 10)) [
  | inl e ↦ rw e (ap (λ (m : ℕ). number_from m acc) (omega arith))
  | inr e ↦ rw e (
      number_from-decimal_from fuel (n / 10) ((b'0' + n % 10) ∷ acc) (ground arith)
      ∙ ap (λ (m : ℕ). number_from m acc) (omega arith))
]

pub number-decimal_text : (n : ℕ) → number_from 0 (decimal_text n) ≡ n
unfolding decimal_text number_from
number-decimal_text n = number_from-decimal_from (suc n) n [] (omega arith)

hex_digit : ℕ → ℕ
hex_digit d = if ltb d 10 then b'0' + d else b'a' + (d - 10)

-- The `width` low hexadecimal digits of a number, before `acc`: `%0<width>x`, where it fits.
unfoldable pub hex_text : ℕ → ℕ → Text → Text
unfolding hex_digit
hex_text zero n acc = acc
hex_text (suc width) n acc = hex_text width (n / 16) (hex_digit (n % 16) ∷ acc)

-- Whether `k` more bytes of a character follow, the next from `lo` to `hi`.
unfoldable pub follows : ℕ → ℕ → ℕ → Text → Bool
follows zero lo hi t = true
follows (suc k) lo hi [] = false
follows (suc k) lo hi (b ∷ t) = (leb lo b && leb b hi) && follows k 0x80 0xBF t

-- How many bytes behind the first belong to its character; a byte that starts none stands alone.
unfoldable pub rune_tail : ℕ → Text → ℕ
rune_tail b t = elim (lead_of b) [
  | none ↦ 0
  | some l ↦ if follows l.more l.lo l.hi t then l.more else 0
]

unfoldable pub rune_count_from : ℕ → Text → ℕ
rune_count_from skip [] = 0
rune_count_from (suc skip) (b ∷ t) = rune_count_from skip t
rune_count_from zero (b ∷ t) = suc (rune_count_from (rune_tail b t) t)

-- `utf8.RuneCountInString`.
unfoldable pub rune_count : Text → ℕ
unfolding follows rune_tail rune_count_from lead_of
rune_count = rune_count_from 0
