-- ===== src/Tests/Blocks.antt =====
-- Runs of internal/tsv's blocks on a small Markdown text, and the theorems about them there.
use layup.Base.{ℕ, ◌≡◌, ◌≢◌, ◌↔◌, refl, List, [], ◌∷◌, true, false, Result, ok, err, All}
use layup.Text.{
  Text, codes, text_eq, valid_utf8, contains_byte, cut_byte, has_suffix_byte, trim_suffix_byte,
}
use layup.Text.Split.{split}
use layup.Text.Fields.{text_fields, has_suffix, space_length, fields_from}
use layup.Tsv.Schema.{Schema}
use layup.Tsv.Types.Simple.{simple, valid_path}
use layup.Tsv.Types.Pattern.{id_pattern}
use layup.Tsv.Types.{parse_type, parse_type_from, parse_kind, type_parts, enum_words}
use layup.Tsv.Blocks.{
  trim_left, trim_right, blank, is_schema, count_run, fence_at, fence, misplaced, misplaced_fence,
  BlockReason, Block, check_location, head_of, head_words, block_head, next_word, column_of,
  check_column, column_line, open_fence, close_fence, text_line, closes_fence, outside_line,
  inside_line, scan_line, scan_lines, end_scan, parse_blocks,
}
use layup.Tsv.BlocksGrowing.{IsBlock}
use layup.Tsv.BlocksSound.{parse_blocks-IsBlock}
use layup.Tsv.Compare.{
  Entry, Found, compare_schemas, has_name, add_blocks, read_entry, read_entries, read_blocks,
}
use layup.Tsv.Comparing.{no_rules, compare_iff}
use layup.Tsv.BlockFiles.{AreBlocks, NamesDiffer, read_blocks-NamesDiffer}

abbrev block_text : Text
block_text =
    codes
      "# Stops\n```tsv-schema stops target:a/b no-header\nstop id(S-NN) key the stop\nnote  text -  what  \n```\n"

abbrev stops : Schema
stops = record {
  name = codes "stops";
  location = codes "target:a/b";
  no_header = true;
  columns =
      record {
        name = codes "stop";
        type_expr = codes "id(S-NN)";
        key = true;
        rule = codes "the stop";
      }
      ∷ record { name = codes "note"; type_expr = codes "text"; key = false; rule = codes "what" }
      ∷ [];
}

abbrev one_block : List Block
one_block = record { schema = stops; line = 2 } ∷ []

-- Opens all that a read of blocks computes with.
unfoldable pub block_run : Text → Result (ℕ × BlockReason) (List Block)
unfolding parse_blocks scan_lines scan_line outside_line inside_line closes_fence text_line
    close_fence open_fence column_line check_column column_of next_word block_head head_words
    head_of check_location misplaced fence fence_at count_run is_schema blank trim_right trim_left
    end_scan text_fields fields_from space_length split trim_suffix_byte cut_byte contains_byte
    text_eq parse_type parse_type_from type_parts parse_kind enum_words simple has_suffix_byte
    id_pattern valid_path valid_utf8
block_run = parse_blocks

blocks_read : parse_blocks block_text ≡ ok one_block
unfolding block_run
blocks_read = refl

misplaced_read : parse_blocks (codes "- ```tsv-schema a stdout\n") ≡ err (1, misplaced_fence)
unfolding block_run
misplaced_read = refl

parse_blocks-IsBlock_example : All IsBlock one_block
parse_blocks-IsBlock_example = parse_blocks-IsBlock block_text blocks_read

abbrev stops_in_code : Schema
stops_in_code = record {
  name = codes "stops";
  location = codes "target:a/b";
  no_header = false;
  columns =
      record { name = codes "stop"; type_expr = codes "id(S-NN)"; key = true; rule = [] }
      ∷ record { name = codes "note"; type_expr = codes "text"; key = false; rule = [] }
      ∷ [];
}

compare_iff_example :
    (compare_schemas stops stops_in_code ≡ []) ↔ (no_rules stops ≡ no_rules stops_in_code)
compare_iff_example = compare_iff stops stops_in_code

abbrev one_file : List Entry
one_file =
    record { name = codes "a.md"; is_dir = false; content = ok block_text }
    ∷ record { name = codes "b.txt"; is_dir = false; content = ok block_text }
    ∷ []

abbrev one_found : List Found
one_found = record { file = codes "a.md"; block = record { schema = stops; line = 2 } } ∷ []

files_read : read_blocks (ok one_file) ≡ ok one_found
unfolding read_blocks read_entries read_entry add_blocks has_name has_suffix block_run
files_read = refl

read_blocks-NamesDiffer_example : (one_found ≢ []) × AreBlocks one_found × NamesDiffer one_found
read_blocks-NamesDiffer_example = read_blocks-NamesDiffer (ok one_file) files_read
