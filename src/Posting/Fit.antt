-- ===== src/Posting/Fit.antt =====
-- internal/run/statuses.go: `fit`, the description of a status as one line of at most 140 characters.
use layup.Base.{ℕ, zero, suc, [], ◌∷◌, ◌++◌, Option, none, some, ltb, ◌==◌, if◌then◌else◌, map}
use layup.Text.{Text, lead_of}
use layup.Text.Numbers.{follows, rune_count}

-- How many bytes behind the first belong to the character that starts here; `none` for no character.
unfoldable pub rune_at : ℕ → Text → Option ℕ
rune_at b t = elim (lead_of b) [
  | none ↦ none
  | some l ↦ if follows l.more l.lo l.hi t then some l.more else none
]

-- U+FFFD, which `[]rune` makes of a byte that starts no character; and the ellipsis.
abbrev pub replacement : Text
replacement = 0xEF ∷ 0xBF ∷ 0xBD ∷ []

abbrev pub ellipsis : Text
ellipsis = 0xE2 ∷ 0x80 ∷ 0xA6 ∷ []

-- string([]rune(t)[:k]); `skip` bytes of a character are left.
unfoldable pub take_runes : ℕ → ℕ → Text → Text
take_runes k skip [] = []
take_runes k (suc skip) (b ∷ t) = b ∷ take_runes k skip t
take_runes zero zero (b ∷ t) = []
take_runes (suc k) zero (b ∷ t) = elim (rune_at b t) [
  | none ↦ replacement ++ take_runes k zero t
  | some more ↦ b ∷ take_runes k more t
]

abbrev pub one_line_byte : ℕ → ℕ
one_line_byte c = if c == b'\r' then b' ' else if c == b'\n' then b' ' else c

unfoldable pub fit : Text → Text
fit s =
    let t = map one_line_byte s in
    if ltb 140 (rune_count t) then take_runes 139 0 t ++ ellipsis else t
