-- ===== src/Tsv/Fields.antt =====
-- What the field rule of internal/tsv makes of a value, and what `Read` makes of a field.
use layup.Base.{
  ℕ, ◌≡◌, refl, sym, ap, true, false, ◌||◌, List, [], ◌∷◌, map, arith, ◌==◌, All, Bool-cases, inl,
  inr, is_empty,
}
use layup.Text.Split.{Lacks, join, join-Lacks}
use layup.Text.{Text, text_eq, text_eq_iff}
use layup.Tsv.Codec.{field_rule, field_of, value_of}
use layup.Tsv.Row.{empty_mark}

field_rule-Lacks :
    (d : ℕ) (v : Text) → (d == b'\t' || d == b'\n' || d == b'\r') ≡ true → Lacks d (field_rule v)
unfolding field_rule
field_rule-Lacks d [] h = tt
field_rule-Lacks d (c ∷ v) h = (ground arith, field_rule-Lacks d v h)

mark-Lacks : (d : ℕ) → (d == b'\t' || d == b'\n' || d == b'\r') ≡ true → Lacks d empty_mark
mark-Lacks d h = (ground arith, (ground arith, (ground arith, tt)))

-- A field holds no tab, line feed or carriage return.
pub field_of-Lacks :
    (d : ℕ) (v : Text) → (d == b'\t' || d == b'\n' || d == b'\r') ≡ true → Lacks d (field_of v)
unfolding field_of
field_of-Lacks d v h = elim (Bool-cases (is_empty (field_rule v))) [
  | inl e ↦ rw e (mark-Lacks d h)
  | inr e ↦ rw e (field_rule-Lacks d v h)
]

pub map-field_of-Lacks :
    (d : ℕ) (row : List Text)
    → (d == b'\t' || d == b'\n' || d == b'\r') ≡ true
    → All (Lacks d) (map field_of row)
map-field_of-Lacks d [] h = tt
map-field_of-Lacks d (v ∷ row) h = (field_of-Lacks d v h, map-field_of-Lacks d row h)

-- The line of a row, as `Write` joins it.
abbrev pub line_of : List Text → Text
line_of row = join b'\t' (map field_of row)

pub line_of-Lacks :
    (d : ℕ) (row : List Text) → (d == b'\n' || d == b'\r') ≡ true → Lacks d (line_of row)
line_of-Lacks d row h =
    join-Lacks b'\t' d (map field_of row) (ground arith) (map-field_of-Lacks d row (ground arith))

pub lines-Lacks :
    (d : ℕ) (rows : List (List Text))
    → (d == b'\n' || d == b'\r') ≡ true
    → All (Lacks d) (map line_of rows)
lines-Lacks d [] h = tt
lines-Lacks d (row ∷ rows) h = (line_of-Lacks d row h, lines-Lacks d rows h)

pub field_of_not_empty : (v : Text) → is_empty (field_of v) ≡ false
unfolding field_of
field_of_not_empty v = ground arith

pub line_of_not_empty : (v : Text) (row : List Text) → is_empty (line_of (v ∷ row)) ≡ false
unfolding join
line_of_not_empty v [] = field_of_not_empty v
line_of_not_empty v (w ∷ row) = ground (arith, field_of_not_empty v)

field_rule_id : (f : Text) → Lacks b'\t' f → Lacks b'\n' f → Lacks b'\r' f → field_rule f ≡ f
unfolding field_rule
field_rule_id [] h k m = refl
field_rule_id (c ∷ f) h k m = rw (h.0, k.0, m.0) (ap (◌∷◌ c) (field_rule_id f h.1 k.1 m.1))

-- A field that is not empty and holds no separator is written as it was read.
pub field-value :
    (f : Text)
    → is_empty f ≡ false
    → Lacks b'\t' f
    → Lacks b'\n' f
    → Lacks b'\r' f
    → field_of (value_of f) ≡ f
unfolding field_of value_of
field-value f e h k m = elim (Bool-cases (text_eq f empty_mark)) [
  | inl q ↦ rw q (unfold field_rule in sym ((text_eq_iff f empty_mark).0 q))
  | inr q ↦ rw q (rw (field_rule_id f h k m) (rw e refl))
]
