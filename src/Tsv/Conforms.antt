-- ===== src/Tsv/Conforms.antt =====
-- What `checkRow` and `Read` of internal/tsv promise of the rows that they let through.
use layup.Base.{
  ℕ, ◌+◌, ◌≡◌, ◌⊎◌, true, false, ◌||◌, not, List, [], ◌∷◌, arith, if◌then◌else◌, All, Option-cases,
  inl, inr, is_empty, length, ok, err, ◌>>=◌, >>=-eq-ok, Result-cases, refuse_if, none,
}
use layup.Text.{Text, text_eq, text_eq_iff, valid_utf8, member}
use layup.Tsv.Schema.{Column, Schema, bad_column, bad_type, FieldType}
use layup.Tsv.Types.Simple.{one_line}
use layup.Tsv.Types.{parse_type}
use layup.Tsv.Row.{
  empty_mark, column_types, schema_types, field_reason, check_fields, Keys, check_row,
}

pub column_types-length :
    (j : ℕ) (seen : List Text) (cols : List Column) {ts : List FieldType}
    → column_types j seen cols ≡ ok ts
    → length ts ≡ length cols
unfolding column_types
column_types-length j seen [] h = ground arith
column_types-length j seen (c ∷ cs) h =
    let (u, fine, h₁) =
      >>=-eq-ok (refuse_if (not (one_line c.name) || member c.name seen) (bad_column j c.name)) _
        h in
    let (t, _, h₂) =
      >>=-eq-ok (elim (parse_type c.type_expr) [ ok t ↦ ok t | err e ↦ err (bad_type c.name e) ]) _
        h₁ in
    let (ts, later, last) = >>=-eq-ok (column_types (j + 1) (c.name ∷ seen) cs) _ h₂ in
    ground (arith, column_types-length (j + 1) (c.name ∷ seen) cs later)

pub schema_types-length :
    (s : Schema) {ts : List FieldType} → schema_types s ≡ ok ts → length ts ≡ length s.columns
unfolding schema_types
schema_types-length s {ts} h = column_types-length 1 [] s.columns {ts = ts} (ground arith)

-- A field of a record that a column allows: valid text, not empty, the mark of the empty value
-- only where the column is no key, and else a value of the column's type.
pub record Allowed (c : Column) (t : FieldType) (f : Text) : Type 0 where
  pub utf8 : valid_utf8 f ≡ true
  pub filled : is_empty f ≡ false
  pub key_filled : c.key ≡ true → text_eq f empty_mark ≡ false
  pub typed : (f ≡ empty_mark) ⊎ (t.valid f ≡ true)

-- Each field is allowed by its column and its type, and each column has one.
abbrev pub RowAllowed : List Column → List FieldType → List Text → Type 0
RowAllowed [] [] [] = Unit
RowAllowed (c ∷ cs) (t ∷ ts) (f ∷ fs) = Allowed c t f × RowAllowed cs ts fs
RowAllowed _ _ _ = ⊥

field_reason-Allowed :
    (c : Column) (t : FieldType) (f : Text) → field_reason c t f ≡ none → Allowed c t f
unfolding field_reason
field_reason-Allowed c t f h = ground (arith, text_eq_iff f empty_mark)

check_fields-RowAllowed :
    (n : ℕ) (fs : List Text) (cs : List Column) (ts : List FieldType) {key : List Text}
    → length fs ≡ length cs
    → length ts ≡ length cs
    → check_fields n fs cs ts ≡ ok key
    → RowAllowed cs ts fs
unfolding check_fields
check_fields-RowAllowed n [] [] [] p q h = tt
check_fields-RowAllowed n [] [] (t ∷ ts) p q h = absurd (omega arith)
check_fields-RowAllowed n [] (c ∷ cs) ts p q h = absurd (omega arith)
check_fields-RowAllowed n (f ∷ fs) [] ts p q h = absurd (omega arith)
check_fields-RowAllowed n (f ∷ fs) (c ∷ cs) [] p q h = absurd (omega arith)
check_fields-RowAllowed n (f ∷ fs) (c ∷ cs) (t ∷ ts) p q h =
    elim (Option-cases (field_reason c t f)) [
      | inl e ↦
          let h' : (check_fields n fs cs ts >>= λ (key : List Text).
          ok (if c.key then f ∷ key else key))
              ≡ ok _ =
            rw (e, check_fields) at h in
          let (key, later, _) = >>=-eq-ok (check_fields n fs cs ts) _ h' in
          (
            field_reason-Allowed c t f e,
            check_fields-RowAllowed n fs cs ts (omega arith) (omega arith) later,
          )
      | inr (reason, e) ↦ ground arith
    ]

pub check_row-RowAllowed :
    (n : ℕ) (fields : List Text) (cols : List Column) (types : List FieldType) (keys : Keys)
    {keys' : Keys}
    → length types ≡ length cols
    → check_row n fields cols types keys ≡ ok keys'
    → RowAllowed cols types fields
unfolding check_row
check_row-RowAllowed n fields cols types keys q h =
    elim (Result-cases (check_fields n fields cols types)) [
      | inl (key, e) ↦ check_fields-RowAllowed n fields cols types (ground arith) q e
      | inr (e, bad) ↦ absurd (ground arith)
    ]

-- The fields of a row that is let through are not empty.
pub RowAllowed-filled :
    (cs : List Column) (ts : List FieldType) (fs : List Text)
    → RowAllowed cs ts fs
    → All (λ (f : Text). is_empty f ≡ false) fs
RowAllowed-filled [] [] [] h = tt
RowAllowed-filled [] [] (f ∷ fs) h = absurd h
RowAllowed-filled [] (t ∷ ts) fs h = absurd h
RowAllowed-filled (c ∷ cs) [] fs h = absurd h
RowAllowed-filled (c ∷ cs) (t ∷ ts) [] h = tt
RowAllowed-filled (c ∷ cs) (t ∷ ts) (f ∷ fs) h = (h.0.filled, RowAllowed-filled cs ts fs h.1)
