-- ===== src/Handoff/Stored.antt =====
-- internal/handoff/table.go: `WriteTable` and `ReadTable` over the codec of records.
use layup.Base.{ℕ, ◌+◌, true, false, List, [], ◌∷◌, Result, ok, err, ◌>>=◌}
use layup.Text.{Text, codes}
use layup.Text.Fields.{text_fields}
use layup.Tsv.Schema.{Schema, Error}
use layup.Tsv.Codec.{write, read, join_list}
use layup.Handoff.Table.{Row, RowReason, check_row}

abbrev pub transitions : Schema
transitions = record {
  name = codes "transitions";
  location = codes "records:transitions.tsv";
  no_header = false;
  columns =
      record { name = codes "from"; type_expr = codes "text"; key = true; rule = [] }
      ∷ record { name = codes "to"; type_expr = codes "text"; key = true; rule = [] }
      ∷ record { name = codes "artifacts"; type_expr = codes "list(text)"; key = false; rule = [] }
      ∷ record { name = codes "items"; type_expr = codes "list(text)"; key = false; rule = [] }
      ∷ [];
}

-- The errors: the codec's, a list of a row at its place from 1, or a row that is read at its line.
pub data TableError : Type 0 where
  of_codec : Error → TableError
  bad_artifacts bad_items : ℕ → ℕ → TableError
  at_line : ℕ → RowReason → TableError

-- The fields of a row, number `i` from 1.
unfoldable pub fields_of : ℕ → Row → Result TableError (List Text)
fields_of i r = elim (join_list r.artifacts) [
  | err j ↦ err (bad_artifacts i j)
  | ok a ↦ elim (join_list r.items) [
    | err j ↦ err (bad_items i j)
    | ok it ↦ ok (r.from ∷ r.to ∷ a ∷ it ∷ [])
  ]
]

unfoldable pub all_fields : ℕ → List Row → Result TableError (List (List Text))
all_fields i [] = ok []
all_fields i (r ∷ rows) = fields_of i r >>= λ f. all_fields (i + 1) rows >>= λ fs. ok (f ∷ fs)

-- An error of the codec as one of the table.
abbrev pub from_codec {ℓ} : {A : Type ℓ} → Result Error A → Result TableError A
from_codec (err e) = err (of_codec e)
from_codec (ok a) = ok a

unfoldable pub write_table : List Row → Result TableError Text
write_table rows = all_fields 1 rows >>= λ out. from_codec (write transitions out)

-- The row of the fields of a line; the codec gives four.
unfoldable pub row_of : List Text → Row
row_of (from ∷ to ∷ a ∷ it ∷ rest) = record {
  from = from;
  to = to;
  artifacts = text_fields a;
  items = text_fields it;
}
row_of f = record { from = []; to = []; artifacts = []; items = [] }

-- The loop of `ReadTable`.
unfoldable pub read_rows : ℕ → List (List Text) → Result TableError (List Row)
read_rows line [] = ok []
read_rows line (f ∷ fs) = elim (check_row (row_of f)) [
  | err why ↦ err (at_line line why)
  | ok u ↦ read_rows (line + 1) fs >>= λ rows. ok (row_of f ∷ rows)
]

unfoldable pub read_table : Text → Result TableError (List Row)
read_table text = from_codec (read text transitions) >>= read_rows 2
