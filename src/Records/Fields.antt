-- ===== src/Records/Fields.antt =====
-- internal/records/records.go: the values of a row by the names of its columns, and the reading of a
-- record by its schema and a check of each row.
use layup.Base.{
  ℕ, suc, Bool, false, ◌&&◌, ◌||◌, List, [], ◌∷◌, Option, none, some, leb, ◌==◌, if◌then◌else◌,
  is_empty, all, length, Result, ok, err,
}
use layup.Text.{Text, codes, text_eq, cut_prefix}
use layup.Tsv.Schema.{Schema, Column}

-- The value of a column in a row; "" where the row or the schema lacks it.
unfoldable pub value_in : List Column → List Text → Text → Text
value_in [] row name = []
value_in (c ∷ cols) [] name = []
value_in (c ∷ cols) (v ∷ row) name =
    let rest = value_in cols row name in if text_eq c.name name then v else rest

-- `fields`, as a function.
abbrev pub fields : Schema → List Text → Text → Text
fields s row = value_in s.columns row

-- `missing`: the first column of the names that holds the empty value, `none` for "".
unfoldable pub missing : (Text → Text) → List Text → Option Text
missing f [] = none
missing f (n ∷ names) = let rest = missing f names in if is_empty (f n) then some n else rest

abbrev is_hex : ℕ → Bool
is_hex c = (leb b'0' c && leb c b'9') || (leb b'a' c && leb c b'f')

-- `sessionForm`.
unfoldable pub session_form : Text → Bool
session_form t = elim (cut_prefix (codes "S-") t) [
  | none ↦ false
  | some rest ↦ (length rest == 8) && all is_hex rest
]

-- `RowError`, with the reason as a value.
pub record RowError (R : Type 0) : Type 0 where
  pub column : Text
  pub reason : R

-- The error of a record: of its codec, or of a rule at a line.
pub data RecordError (E R : Type 0) : Type 0 where
  of_codec : E → RecordError E R
  of_rule : ℕ → RowError R → RecordError E R

module _ {R : Type 0} (check : List Text → Result (RowError R) (Unit {0})) where
  -- The loop of `read`; the first row is at line 2.
  unfoldable pub check_each :
      {E : Type 0} → ℕ → List (List Text) → Result (RecordError E R) (Unit {0})
  check_each line [] = ok tt
  check_each line (r ∷ rows) =
      let rest = check_each (suc line) rows in
      elim (check r) [ err e ↦ err (of_rule line e) | ok _ ↦ rest ]
