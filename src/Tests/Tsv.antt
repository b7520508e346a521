-- ===== src/Tests/Tsv.antt =====
-- Runs of internal/tsv on a small record, and the theorems about it at that record.
use layup.Base.{◌≡◌, refl, List, [], ◌∷◌, true, false, ◌++◌, arith, Result, ok, err, map, All, any}
use layup.Text.{
  Text, codes, text_eq, has_prefix, valid_utf8, contains_byte, contains_any, cut_byte,
  has_suffix_byte, trim_suffix_byte, count_byte, before_byte,
}
use layup.Text.Split.{split, join}
use layup.Tsv.Schema.{
  Schema, Column, Error, at, repeated_key, bad_value, carriage_return, missing_field, FieldType,
}
use layup.Tsv.Types.Simple.{simple, one_line, is_int, is_decimal, is_hash, valid_path, is_path}
use layup.Tsv.Types.Pattern.{id_pattern, match_atoms}
use layup.Tsv.Types.{parse_type, check_type, parse_type_from, parse_kind, type_parts, enum_words}
use layup.Tsv.Row.{
  column_types, schema_types, check_header, field_reason, check_fields, lookup_key, add_key,
  check_row,
}
use layup.Tsv.Codec.{
  field_rule, field_of, value_of, write_rows, finish_write, write, read_line, read_lines, read,
}
use layup.Tsv.ReadLines.{read_back}
use layup.Tsv.RoundTrip.{read-write}
use layup.Tsv.WriteBack.{write-read}
use layup.Tsv.Conforms.{RowAllowed}
use layup.Tsv.Sound.{Distinct, keys_of, write-Sound, read-Sound}
use layup.Tsv.TypesFuel.{parse_type_fuel}

abbrev gaps : Schema
gaps = record {
  name = codes "gaps";
  location = codes "stdout";
  no_header = false;
  columns =
      record { name = codes "gap"; type_expr = codes "id(G-NN)"; key = true; rule = [] }
      ∷ record {
        name = codes "state";
        type_expr = codes "enum(open|closed)";
        key = false;
        rule = [];
      }
      ∷ record { name = codes "note"; type_expr = codes "text"; key = false; rule = [] }
      ∷ [];
}

abbrev gap_rows : List (List Text)
gap_rows =
    (codes "G-01" ∷ codes "open" ∷ codes "a\tb" ∷ [])
    ∷ (codes "G-02" ∷ codes "closed" ∷ [] ∷ [])
    ∷ []

abbrev gap_text : Text
gap_text =
    codes "gap\tstate\tnote\nG-01\topen\ta b\nG-02\tclosed\t" ++ (0xE2 ∷ 0x80 ∷ 0x94 ∷ b'\n' ∷ [])

-- Opens all that a run of the codec computes with.
unfoldable pub codec_run : Schema → List (List Text) → Result Error Text
unfolding write schema_types column_types one_line valid_utf8 parse_type parse_type_from type_parts
    parse_kind enum_words simple cut_byte has_suffix_byte id_pattern trim_suffix_byte split
    write_rows check_row check_fields field_reason field_of field_rule match_atoms join contains_any
    contains_byte has_prefix text_eq finish_write add_key lookup_key is_decimal is_hash is_int
    is_path valid_path check_type read read_lines read_line value_of check_header count_byte
    before_byte
codec_run = write

write-gaps : write gaps gap_rows ≡ ok gap_text
unfolding codec_run
write-gaps = refl

read-gaps : read gap_text gaps ≡ ok (map (map read_back) gap_rows)
unfolding codec_run
read-gaps = refl

-- A repeated key names the line of the first; a carriage return names its column.
gap_errors :
    (read (codes "gap\tstate\tnote\nG-01\topen\tx\nG-01\topen\ty\n") gaps
      ≡ err (at 3 [] (repeated_key 2)))
    × (read (codes "gap\tstate\tnote\nG-01\tlost\tx\n") gaps
        ≡ err (at 2 (codes "state") (bad_value (codes "lost") (codes "enum(open|closed)"))))
    × (read (codes "gap\tstate\tnote\nG-1\topen\tx\r\n") gaps
        ≡ err (at 2 (codes "note") carriage_return))
    × (read (codes "gap\tstate\tnote\nG-100\topen\n") gaps
        ≡ err (at 2 (codes "note") missing_field))
unfolding codec_run
gap_errors = (refl, refl, refl, refl)

read-write_example : read gap_text gaps ≡ ok (map (map read_back) gap_rows)
read-write_example = read-write gaps gap_rows write-gaps

write-read_example : write gaps (map (map read_back) gap_rows) ≡ ok gap_text
write-read_example = write-read gaps gap_text read-gaps

parse_type_fuel_example : parse_type_from 20 (codes "list(int)") ≡ parse_type (codes "list(int)")
parse_type_fuel_example = parse_type_fuel 20 (codes "list(int)") (omega arith)

write-Sound_example :
    (types : List FieldType) × (schema_types gaps ≡ ok types)
    × All (λ row. RowAllowed gaps.columns types (map field_of row)) gap_rows
    × (any (λ (c : Column). c.key) gaps.columns ≡ true → Distinct (keys_of gaps.columns gap_rows))
write-Sound_example = write-Sound gaps gap_rows write-gaps

read-Sound_example :
    (types : List FieldType) × (schema_types gaps ≡ ok types)
    × All (λ row. RowAllowed gaps.columns types (map field_of row)) (map (map read_back) gap_rows)
    × (any (λ (c : Column). c.key) gaps.columns ≡ true
        → Distinct (keys_of gaps.columns (map (map read_back) gap_rows)))
read-Sound_example = read-Sound gaps gap_text read-gaps
