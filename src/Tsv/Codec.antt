-- ===== src/Tsv/Codec.antt =====
-- internal/tsv/tsv.go: `Write`, `Read` and `JoinList`. `write` gives the text that `Write` hands to
-- `io.WriteString`; what that writer does with it is not the package's.
use layup.Base.{
  ℕ, ◌+◌, not, ◌&&◌, ◌||◌, List, [], ◌∷◌, ◌++◌, map, ◌==◌, if◌then◌else◌, is_empty, length, Result,
  ok, err, ◌>>=◌, refuse_if, ◌>>◌, is_ok,
}
use layup.Text.{
  Text, codes, text_eq, has_prefix, contains_byte, contains_any, has_suffix_byte, trim_suffix_byte,
  count_byte, before_byte,
}
use layup.Text.Split.{split, join}
use layup.Tsv.Schema.{
  Column, Schema, byte_order_mark, no_header_row, carriage_return, empty_line, header_in_headerless,
  no_line_feed, starts_with_mark, starts_with_header, Error, at, FieldType,
}
use layup.Tsv.Row.{empty_mark, bom, schema_types, check_header, Keys, check_row, column_name}

-- `fieldRule`: each tab, line feed and carriage return is one space.
unfoldable pub field_rule : Text → Text
field_rule [] = []
field_rule (c ∷ t) = (if c == b'\t' || c == b'\n' || c == b'\r' then b' ' else c) ∷ field_rule t

-- The field of a value in `Write`, and the value of a field in `Read`.
unfoldable pub field_of : Text → Text
field_of v = let f = field_rule v in if is_empty f then empty_mark else f

unfoldable pub value_of : Text → Text
value_of f = if text_eq f empty_mark then [] else f

-- The loop of `Write`; `n` is the line of the first row.
unfoldable pub write_rows :
    ℕ → List Column → List FieldType → Keys → List (List Text) → Result Error Text
write_rows n cols types keys [] = ok []
write_rows n cols types keys (row ∷ rows) = do
  let fields = map field_of row
  keys' ← check_row n fields cols types keys
  rest ← write_rows (n + 1) cols types keys' rows
  ok (join b'\t' fields ++ (b'\n' ∷ rest))

abbrev pub header_line : List Column → Text
header_line cols = join b'\t' (map (λ (c : Column). c.name) cols) ++ (b'\n' ∷ [])

-- The name of the first column.
first_name : List Column → Text
first_name [] = []
first_name (c ∷ cs) = c.name

-- The `switch` of `Write` on the whole record.
unfoldable pub finish_write : Schema → Text → Result Error Text
unfolding first_name
finish_write s out =
    if has_prefix bom out
    then err (at 1 (first_name s.columns) starts_with_mark)
    else if s.no_header && has_prefix (header_line s.columns) out
    then err (at 1 [] starts_with_header)
    else ok out

unfoldable pub write : Schema → List (List Text) → Result Error Text
write s rows = do
  types ← schema_types s
  body ← write_rows (if s.no_header then 1 else 2) s.columns types [] rows
  finish_write s (if s.no_header then body else header_line s.columns ++ body)

-- The column of the field that holds the carriage return, or none.
carriage_column : List Column → Text → Text
carriage_column cols l = column_name cols (count_byte b'\t' (before_byte b'\r' l))

-- The `switch` of `Read` on line `n`: what it adds to the rows, and the keys.
unfoldable pub read_line :
    Schema → List FieldType → ℕ → Keys → Text → Result Error (List (List Text) × Keys)
unfolding carriage_column
read_line s types n keys l =
    let fields = split b'\t' l in
    if contains_byte b'\r' l
    then err (at n (carriage_column s.columns l) carriage_return)
    else if is_empty l
    then err (at n [] empty_line)
    else if (n == 1) && not s.no_header
    then (do check_header fields s.columns; ok ([], keys))
    else if (n == 1) && is_ok (check_header fields s.columns)
    then err (at 1 [] header_in_headerless)
    else (do keys' ← check_row n fields s.columns types keys; ok (map value_of fields ∷ [], keys'))

-- The loop of `Read`.
unfoldable pub read_lines :
    Schema → List FieldType → ℕ → Keys → List Text → Result Error (List (List Text))
read_lines s types n keys [] = ok []
read_lines s types n keys (l ∷ ls) = do
  (rows, keys') ← read_line s types n keys l
  rest ← read_lines s types (n + 1) keys' ls
  ok (rows ++ rest)

unfoldable pub read : Text → Schema → Result Error (List (List Text))
read text s = do
  types ← schema_types s
  let lines = split b'\n' (trim_suffix_byte b'\n' text)
  if has_prefix bom text
      then err (at 1 [] byte_order_mark)
      else if is_empty text
      then (if s.no_header then ok [] else err (at 1 [] no_header_row))
      else (do
        rows ← read_lines s types 1 [] lines
        refuse_if (not (has_suffix_byte b'\n' text)) (at (length lines) [] no_line_feed)
        ok rows)

-- `JoinList`; the error names the place of the value, from 1.
unfoldable pub list_values : ℕ → List Text → Result ℕ (Unit {0})
list_values i [] = ok tt
list_values i (v ∷ vs) = do
  refuse_if (is_empty v || contains_any (codes " \t\n\r") v) (i + 1)
  list_values (i + 1) vs

unfoldable pub join_list : List Text → Result ℕ Text
unfolding list_values
join_list values = do list_values 0 values; ok (join b' ' values)
