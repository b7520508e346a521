-- ===== src/Tsv/Types/Simple.antt =====
-- internal/tsv/types.go: the types that take no argument, and the time form.
use layup.Base.{
  ℕ, zero, suc, ◌+◌, ◌-◌, ◌*◌, ◌%◌, Bool, false, not, ◌&&◌, ◌||◌, [], ◌∷◌, Option, none, some, leb,
  ltb, ◌==◌, if◌then◌else◌, length, all, is_empty,
}
use layup.Text.{Text, codes, text_eq, contains_any, valid_utf8, cut_byte}
use layup.Text.Split.{split}

abbrev pub is_digit : ℕ → Bool
is_digit c = leb b'0' c && leb c b'9'

abbrev pub is_lower_hex : ℕ → Bool
is_lower_hex c = is_digit c || (leb b'a' c && leb c b'f')

-- `oneLine`.
unfoldable pub one_line : Text → Bool
unfolding contains_any
one_line v = not (is_empty v) && (valid_utf8 v && not (contains_any (codes "\t\n\r") v))

-- ^(0|[1-9][0-9]*)$
unfoldable pub is_int : Text → Bool
is_int [] = false
is_int (c ∷ t) = (c == b'0') && is_empty t || (leb b'1' c && leb c b'9') && all is_digit t

-- ^(0|[1-9][0-9]*)\.[0-9]+$
unfoldable pub is_decimal : Text → Bool
unfolding is_int cut_byte
is_decimal v = elim (cut_byte b'.' v) [
  | none ↦ false
  | some (whole, part) ↦ is_int whole && (not (is_empty part) && all is_digit part)
]

unfoldable pub is_hash : ℕ → Text → Bool
is_hash n v = (length v == n) && all is_lower_hex v

is_bool : Text → Bool
unfolding text_eq
is_bool v = text_eq v (codes "yes") || text_eq v (codes "no")

-- A digit where the form has 0, and the form's own byte elsewhere.
time_form : Text → Text → Bool
time_form [] t = is_empty t
time_form (f ∷ fs) [] = false
time_form (f ∷ fs) (c ∷ t) = (if f == b'0' then is_digit c else c == f) && time_form fs t

-- The number of the `k` digits behind the first `i` bytes.
digits_at : ℕ → ℕ → ℕ → Text → ℕ
digits_at i k acc [] = acc
digits_at (suc i) k acc (c ∷ t) = digits_at i k acc t
digits_at zero zero acc (c ∷ t) = acc
digits_at zero (suc k) acc (c ∷ t) = digits_at zero k (acc * 10 + (c - b'0')) t

is_leap : ℕ → Bool
is_leap y = (y % 4 == 0) && (not (y % 100 == 0) || (y % 400 == 0))

days_in : ℕ → ℕ → ℕ
days_in m y =
    if m == 2
    then (if is_leap y then 29 else 28)
    else if (m == 4 || m == 6) || (m == 9 || m == 11)
    then 30
    else 31

-- The ranges that `time.Parse` checks.
in_calendar : Text → Bool
in_calendar v =
    let year = digits_at 0 4 0 v in
    let month = digits_at 5 2 0 v in
    let day = digits_at 8 2 0 v in
    (leb 1 month && leb month 12)
    && ((leb 1 day && leb day (days_in month year))
        && (ltb (digits_at 11 2 0 v) 24
            && (ltb (digits_at 14 2 0 v) 60 && ltb (digits_at 17 2 0 v) 60)))

is_time : Text → Bool
unfolding time_form digits_at is_leap days_in in_calendar
is_time v = time_form (codes "0000-00-00T00:00:00Z") v && in_calendar v

-- `fs.ValidPath`.
valid_part : Text → Bool
unfolding text_eq
valid_part p = not (is_empty p) && (not (text_eq p (codes ".")) && not (text_eq p (codes "..")))

unfoldable pub valid_path : Text → Bool
unfolding valid_part split
valid_path v = valid_utf8 v && (text_eq v (codes ".") || all valid_part (split b'/' v))

unfoldable pub is_path : Text → Bool
unfolding one_line
is_path v = not (text_eq v (codes ".")) && (valid_path v && one_line v)

-- The map `simple`.
unfoldable pub simple : Text → Option (Text → Bool)
unfolding is_bool is_time
simple e =
    if text_eq e (codes "text")
    then some one_line
    else if text_eq e (codes "int")
    then some is_int
    else if text_eq e (codes "decimal")
    then some is_decimal
    else if text_eq e (codes "bool")
    then some is_bool
    else if text_eq e (codes "sha1")
    then some (is_hash 40)
    else if text_eq e (codes "sha256")
    then some (is_hash 64)
    else if text_eq e (codes "time")
    then some is_time
    else if text_eq e (codes "path")
    then some is_path
    else none
