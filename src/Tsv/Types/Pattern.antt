-- ===== src/Tsv/Types/Pattern.antt =====
-- internal/tsv/types.go: `idPattern`, and the regular expression that it makes, as a list of atoms.
use layup.Base.{
  ℕ, zero, suc, ◌+◌, Bool, false, ◌&&◌, ◌||◌, List, [], ◌∷◌, ◌++◌, Option, none, some, leb, ltb,
  ◌==◌, if◌then◌else◌, any, is_empty, Result, ok, err, ◌>>=◌,
}
use layup.Text.{Text, codes, has_prefix, contains_byte}
use layup.Tsv.Schema.{PatternReason, pattern_empty, pattern_byte, repeat_too_large}
use layup.Tsv.Types.Simple.{is_digit}

-- `word` is [a-z-]+, `digits k` is ([0-9]{k}|[1-9][0-9]{k,}), `alnum` is [a-z0-9].
pub data Atom : Type 0 where
  word : Atom
  digits : ℕ → Atom
  alnum : Atom
  lit : ℕ → Atom

-- How many bytes N start the text.
run_of_N : Text → ℕ
run_of_N [] = 0
run_of_N (c ∷ t) = let rest = run_of_N t in if c == b'N' then rest + 1 else 0

-- One round of the loop at the text from `i` on: the atom, and how many more bytes it takes.
pattern_step : ℕ → Text → Result PatternReason (Atom × ℕ)
pattern_step c t =
    if has_prefix (codes "<word>") (c ∷ t)
    then ok (word, 5)
    else if c == b'N'
    then ok (digits (run_of_N (c ∷ t)), run_of_N t)
    else if c == b'x'
    then ok (alnum, 0)
    else if leb c b' ' || leb 0x80 c || contains_byte c (codes "<>()|")
    then err (pattern_byte c)
    else ok (lit c, 0)

-- The loop; `skip` bytes belong to the last atom.
pattern_from : ℕ → Text → Result PatternReason (List Atom)
pattern_from skip [] = ok []
pattern_from (suc skip) (c ∷ t) = pattern_from skip t
pattern_from zero (c ∷ t) = elim (pattern_step c t) [
  | err e ↦ err e
  | ok (a, n) ↦ do rest ← pattern_from n t; ok (a ∷ rest)
]

-- `regexp.Compile` takes no repeat count over 1000.
over_repeat : Atom → Bool
over_repeat (digits k) = ltb 1000 k
over_repeat _ = false

unfoldable pub id_pattern : Text → Result PatternReason (List Atom)
unfolding run_of_N pattern_step pattern_from over_repeat has_prefix contains_byte
id_pattern [] = err pattern_empty
id_pattern (c ∷ t) = do
  atoms ← pattern_from 0 (c ∷ t)
  if any over_repeat atoms then err repeat_too_large else ok atoms

is_lower : ℕ → Bool
is_lower c = leb b'a' c && leb c b'z'

-- What can stand behind one or more letters or dashes.
word_rests : Text → List Text
word_rests [] = []
word_rests (c ∷ t) = let rest = word_rests t in if is_lower c || c == b'-' then t ∷ rest else []

-- What stands behind exactly `k` digits.
after_digits : ℕ → Text → Option Text
after_digits zero t = some t
after_digits (suc k) [] = none
after_digits (suc k) (c ∷ t) = let rest = after_digits k t in if is_digit c then rest else none

-- What can stand behind any number of digits.
digit_rests : Text → List Text
digit_rests [] = [] ∷ []
digit_rests (c ∷ t) = let rest = digit_rests t in (c ∷ t) ∷ (if is_digit c then rest else [])

option_rests : Option Text → List Text
option_rests none = []
option_rests (some t) = t ∷ []

long_rests : ℕ → Text → List Text
long_rests k [] = []
long_rests k (c ∷ t) =
    if leb b'1' c && leb c b'9'
    then elim (after_digits k t) [ none ↦ [] | some r ↦ digit_rests r ]
    else []

-- What can stand behind a match of one atom.
rests : Atom → Text → List Text
rests word t = word_rests t
rests (digits k) t = option_rests (after_digits k t) ++ long_rests k t
rests alnum [] = []
rests alnum (c ∷ t) = if is_lower c || is_digit c then t ∷ [] else []
rests (lit d) [] = []
rests (lit d) (c ∷ t) = if c == d then t ∷ [] else []

-- `MatchString` of the expression, which is anchored at both ends.
unfoldable pub match_atoms : List Atom → Text → Bool
unfolding is_lower word_rests after_digits digit_rests option_rests long_rests rests
match_atoms [] t = is_empty t
match_atoms (a ∷ atoms) t = any (match_atoms atoms) (rests a t)
