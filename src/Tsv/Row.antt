-- ===== src/Tsv/Row.antt =====
-- internal/tsv/tsv.go: `Schema.types`, `checkHeader` and `checkRow`.
use layup.Base.{
  ℕ, ◌+◌, not, ◌&&◌, ◌||◌, List, [], ◌∷◌, Option, none, some, ltb, if◌then◌else◌, get_elem?,
  is_empty, length, Result, ok, err, ◌>>=◌, refuse_if, ◌>>◌,
}
use layup.Text.{Text, text_eq, valid_utf8, member}
use layup.Text.Split.{join}
use layup.Tsv.Schema.{
  Column, Schema, Reason, missing_field, extra_field, invalid_utf8, empty_field, mark_in_key,
  repeated_key, header_missing, header_other, header_extra, Error, at, no_column, bad_column,
  bad_type, FieldType,
}
use layup.Tsv.Types.Simple.{one_line}
use layup.Tsv.Types.{parse_type, check_type}

-- `emptyMark` and `bom`.
abbrev pub empty_mark : Text
empty_mark = 0xE2 ∷ 0x80 ∷ 0x94 ∷ []

abbrev pub bom : Text
bom = 0xEF ∷ 0xBB ∷ 0xBF ∷ []

-- The loop of `Schema.types`: `seen` are the names before, `j` counts from 1.
unfoldable pub column_types : ℕ → List Text → List Column → Result Error (List FieldType)
column_types j seen [] = ok []
column_types j seen (c ∷ cs) = do
  refuse_if (not (one_line c.name) || member c.name seen) (bad_column j c.name)
  t ← elim (parse_type c.type_expr) [ ok t ↦ ok t | err e ↦ err (bad_type c.name e) ]
  ts ← column_types (j + 1) (c.name ∷ seen) cs
  ok (t ∷ ts)

unfoldable pub schema_types : Schema → Result Error (List FieldType)
unfolding column_types
schema_types s = if is_empty s.columns then err no_column else column_types 1 [] s.columns

-- `checkHeader`, which walks the columns.
unfoldable pub check_header : List Text → List Column → Result Error (Unit {0})
check_header [] [] = ok tt
check_header (f ∷ fs) [] = err (at 1 [] header_extra)
check_header [] (c ∷ cs) = err (at 1 c.name header_missing)
check_header (f ∷ fs) (c ∷ cs) =
    let rest = check_header fs cs in
    if text_eq f c.name then rest else err (at 1 c.name (header_other f))

-- The `switch` of `checkRow` on one field; `none` is an empty reason.
unfoldable pub field_reason : Column → FieldType → Text → Option Reason
unfolding check_type
field_reason c t f =
    if not (valid_utf8 f)
    then some invalid_utf8
    else if is_empty f
    then some empty_field
    else if text_eq f empty_mark && c.key
    then some mark_in_key
    else if not (text_eq f empty_mark)
    then elim (check_type t f) [ ok _ ↦ none | err e ↦ some e ]
    else none

-- The loop of `checkRow` over the fields; it gives the fields of the key columns.
unfoldable pub check_fields :
    ℕ → List Text → List Column → List FieldType → Result Error (List Text)
check_fields n (f ∷ fs) (c ∷ cs) (t ∷ ts) = elim (field_reason c t f) [
  | some reason ↦ err (at n c.name reason)
  | none ↦ do key ← check_fields n fs cs ts; ok (if c.key then f ∷ key else key)
]
check_fields n _ _ _ = ok []

-- The map `keys`, from each joined key to its line; the newest entry comes first.
abbrev pub Keys : Type 0
Keys = List (Text × ℕ)

unfoldable pub lookup_key : Text → Keys → Option ℕ
lookup_key k [] = none
lookup_key k ((j, m) ∷ keys) = if text_eq j k then some m else lookup_key k keys

-- The name of the column behind the last field.
pub column_name : List Column → ℕ → Text
column_name cols i = elim (get_elem? cols i) [ none ↦ [] | some c ↦ c.name ]

-- The last part of `checkRow`: the key must be new, unless the schema has no key column.
unfoldable pub add_key : ℕ → List Text → Keys → Result Error Keys
unfolding lookup_key
add_key n key keys =
    let k = join b'\t' key in
    elim (lookup_key k keys) [
      | none ↦ ok ((k, n) ∷ keys)
      | some m ↦ if not (is_empty key) then err (at n [] (repeated_key m)) else ok ((k, n) ∷ keys)
    ]

-- `checkRow`; it gives the new map of the keys.
unfoldable pub check_row : ℕ → List Text → List Column → List FieldType → Keys → Result Error Keys
unfolding column_name
check_row n fields cols types keys =
    if ltb (length fields) (length cols)
    then err (at n (column_name cols (length fields)) missing_field)
    else if ltb (length cols) (length fields)
    then err (at n [] extra_field)
    else (do key ← check_fields n fields cols types; add_key n key keys)
