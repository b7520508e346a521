-- ===== src/Tsv/Rows.antt =====
-- Facts of internal/tsv about the schema's names, the header row and one row of a record.
use layup.Base.{
  ℕ, ◌+◌, ◌≡◌, refl, true, false, ◌||◌, ◌&&◌, not, List, [], ◌∷◌, ◌++◌, map, arith, ◌==◌, All,
  is_empty, length, ok, err, is_ok, >>=-eq-ok, refuse_if-eq-ok, refuse_if,
}
use layup.Text.Split.{Lacks, split}
use layup.Text.{Text, codes, text_eq_iff, contains_byte, has_prefix, member}
use layup.Text.Lines.{contains_any-Lacks}
use layup.Tsv.Schema.{Column, Schema, bad_column, bad_type, FieldType}
use layup.Tsv.Codec.{read_line, value_of}
use layup.Tsv.Types.Simple.{one_line}
use layup.Tsv.Types.{parse_type}
use layup.Tsv.Row.{column_types, schema_types, check_header, Keys, check_row}

abbrev pub names : List Column → List Text
names = map (λ (c : Column). c.name)

-- A column's name is one line.
abbrev pub HasName : Column → Type 0
HasName c = one_line c.name ≡ true

column_types-HasName :
    (j : ℕ) (seen : List Text) (cols : List Column) {ts : List FieldType}
    → column_types j seen cols ≡ ok ts
    → All HasName cols
unfolding column_types
column_types-HasName j seen [] h = tt
column_types-HasName j seen (c ∷ cs) h =
    let (u, fine, h₁) =
      >>=-eq-ok (refuse_if (not (one_line c.name) || member c.name seen) (bad_column j c.name)) _
        h in
    let (t, _, h₂) =
      >>=-eq-ok (elim (parse_type c.type_expr) [ ok t ↦ ok t | err e ↦ err (bad_type c.name e) ]) _
        h₁ in
    let (ts, later, _) = >>=-eq-ok (column_types (j + 1) (c.name ∷ seen) cs) _ h₂ in
    (
      ground (arith, refuse_if-eq-ok _ _ fine),
      column_types-HasName (j + 1) (c.name ∷ seen) cs later,
    )

pub schema_types-HasName :
    (s : Schema) {ts : List FieldType} → schema_types s ≡ ok ts → All HasName s.columns
unfolding schema_types
schema_types-HasName s {ts} h = column_types-HasName 1 [] s.columns {ts = ts} (ground arith)

pub schema_types_not_empty :
    (s : Schema) {ts : List FieldType} → schema_types s ≡ ok ts → is_empty s.columns ≡ false
unfolding schema_types
schema_types_not_empty s h = ground arith

one_line-Lacks :
    (d : ℕ) (v : Text) → contains_byte d (codes "\t\n\r") ≡ true → one_line v ≡ true → Lacks d v
unfolding one_line
one_line-Lacks d v m h = contains_any-Lacks d (codes "\t\n\r") v m (ground arith)

pub names-Lacks :
    (d : ℕ) (cols : List Column)
    → contains_byte d (codes "\t\n\r") ≡ true
    → All HasName cols
    → All (Lacks d) (names cols)
names-Lacks d [] m h = tt
names-Lacks d (c ∷ cols) m h = (one_line-Lacks d c.name m h.0, names-Lacks d cols m h.1)

pub check_header-names : (cols : List Column) → check_header (names cols) cols ≡ ok tt
unfolding check_header
check_header-names [] = refl
check_header-names (c ∷ cols) = rw ((text_eq_iff c.name c.name).1 refl) (check_header-names cols)

pub names_of_check_header :
    (fs : List Text) (cols : List Column) → is_ok (check_header fs cols) ≡ true → fs ≡ names cols
unfolding check_header
names_of_check_header [] [] h = refl
names_of_check_header (f ∷ fs) [] h = cc
names_of_check_header [] (c ∷ cs) h = cc
names_of_check_header (f ∷ fs) (c ∷ cs) h =
    ground (arith, text_eq_iff f c.name, names_of_check_header fs cs)

pub has_prefix-append : (p t : Text) → has_prefix p (p ++ t) ≡ true
unfolding has_prefix
has_prefix-append [] t = refl
has_prefix-append (x ∷ p) t = ground (arith, has_prefix-append p t)

-- Two first lines, one of them a prefix with its line feed, are one.
pub line_of_prefix :
    (c : ℕ) (a b r : Text)
    → Lacks c a
    → Lacks c b
    → has_prefix (a ++ (c ∷ [])) (b ++ (c ∷ r)) ≡ true
    → a ≡ b
unfolding has_prefix
line_of_prefix c [] [] r h k p = refl
line_of_prefix c [] (y ∷ b) r h k p = ground arith
line_of_prefix c (x ∷ a) [] r h k p = ground arith
line_of_prefix c (x ∷ a) (y ∷ b) r h k p = ground (arith, line_of_prefix c a b r h.1 k.1)

pub check_row-length :
    (n : ℕ) (fields : List Text) (cols : List Column) (types : List FieldType) (keys : Keys)
    {keys' : Keys}
    → check_row n fields cols types keys ≡ ok keys'
    → length fields ≡ length cols
unfolding check_row
check_row-length n fields cols types keys h = ground arith

module _ (s : Schema) (types : List FieldType) (n : ℕ) (keys : Keys) (l : Text) where
  -- Line `l` is not read as a header row, and is not refused as one.
  abbrev pub IsRowLine : Type 0
  IsRowLine =
      ((n == 1 && not s.no_header) ≡ false)
      × ((n == 1 && is_ok (check_header (split b'\t' l) s.columns)) ≡ false)

  pub read_line-row :
      {keys' : Keys}
      → IsRowLine
      → contains_byte b'\r' l ≡ false
      → is_empty l ≡ false
      → check_row n (split b'\t' l) s.columns types keys ≡ ok keys'
      → read_line s types n keys l ≡ ok (map value_of (split b'\t' l) ∷ [], keys')
  unfolding read_line
  read_line-row i c e h = rw (c, e, i.0, i.1, h) refl

  pub read_line-eq-ok :
      {rows : List (List Text)} {keys' : Keys}
      → IsRowLine
      → read_line s types n keys l ≡ ok (rows, keys')
      → (contains_byte b'\r' l ≡ false)
        × (is_empty l ≡ false)
        × (check_row n (split b'\t' l) s.columns types keys ≡ ok keys')
        × (rows ≡ map value_of (split b'\t' l) ∷ [])
  unfolding read_line
  read_line-eq-ok i h = ground arith
