-- ===== src/Tests/Reread.antt =====
-- A run of internal/handoff's WriteTable, and the theorem about it there.
use layup.Base.{◌≡◌, refl, List, [], ◌∷◌, map, ok, All}
use layup.Text.{
  Text, codes, text_eq, has_prefix, valid_utf8, contains_byte, contains_any, cut_byte,
  has_suffix_byte, trim_suffix_byte,
}
use layup.Text.Split.{split, join}
use layup.Tsv.Types.Simple.{simple, one_line}
use layup.Tsv.Types.{parse_type, check_type, parse_type_from, parse_kind, type_parts}
use layup.Tsv.Row.{
  column_types, schema_types, field_reason, check_fields, lookup_key, add_key, check_row,
}
use layup.Tsv.Codec.{field_rule, field_of, write_rows, finish_write, write, join_list, list_values}
use layup.Handoff.Table.{Row, check_words}
use layup.Handoff.Table
use layup.Handoff.Stored.{fields_of, all_fields, write_table, read_table}
use layup.Handoff.Reread.{row_back, read_table-write_table}

-- The step that it leaves holds a tab.
abbrev odd_rows : List Row
odd_rows =
    record {
      from = codes "a\tb";
      to = codes "verifier";
      artifacts = codes "commits" ∷ codes "task-file" ∷ [];
      items = codes "schema" ∷ [];
    }
    ∷ []

abbrev odd_text : Text
odd_text = codes "from\tto\tartifacts\titems\na b\tverifier\tcommits task-file\tschema\n"

odd_written : write_table odd_rows ≡ ok odd_text
unfolding write_table all_fields fields_of join_list list_values write schema_types column_types
    one_line valid_utf8 parse_type parse_type_from type_parts parse_kind simple cut_byte
    has_suffix_byte trim_suffix_byte split write_rows check_row check_fields field_reason field_of
    field_rule check_type join contains_any contains_byte has_prefix text_eq finish_write add_key
    lookup_key
odd_written = refl

odd_fits : All (λ r. Table.check_row r ≡ ok tt) odd_rows
unfolding Table.check_row text_eq check_words
odd_fits = (refl, tt)

read_table-write_table_example : read_table odd_text ≡ ok (map row_back odd_rows)
read_table-write_table_example = read_table-write_table odd_rows odd_fits odd_written
