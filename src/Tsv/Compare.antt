-- ===== src/Tsv/Compare.antt =====
-- internal/tsv/block.go: `Compare` and `ReadBlocks`.
use layup.Base.{
  ℕ, ◌+◌, Bool, true, false, not, ◌==◌, List, [], ◌∷◌, ◌++◌, if◌then◌else◌, is_empty, length,
  Result, ok, err, ◌>>=◌,
}
use layup.Text.{Text, codes, text_eq}
use layup.Text.Fields.{has_suffix}
use layup.Tsv.Schema.{Schema, Column}
use layup.Tsv.Blocks.{BlockReason, Block, parse_blocks}

-- What differs; a column is named by its place, from 1.
pub data Difference : Type 0 where
  of_name of_location of_header of_number : Difference
  column_name column_type column_key : ℕ → Difference

-- `if p[1] != p[2]` of one pair; `fmt.Sprint` of two truth values or numbers differs where they do.
abbrev pub differ : Bool → Difference → List Difference
differ equal d = if equal then [] else d ∷ []

abbrev pub same_bool : Bool → Bool → Bool
same_bool a b = if a then b else not b

-- The pairs of the columns, as far as both schemas have some.
unfoldable pub compare_columns : ℕ → List Column → List Column → List Difference
compare_columns j [] gs = []
compare_columns j (b ∷ bs) [] = []
compare_columns j (b ∷ bs) (g ∷ gs) =
    differ (text_eq b.name g.name) (column_name j)
    ++ (differ (text_eq b.type_expr g.type_expr) (column_type j)
        ++ (differ (same_bool b.key g.key) (column_key j) ++ compare_columns (j + 1) bs gs))

-- `Compare`; no difference is the error nil.
unfoldable pub compare_schemas : Schema → Schema → List Difference
compare_schemas b s =
    differ (text_eq b.name s.name) of_name
    ++ (differ (text_eq b.location s.location) of_location
        ++ (differ (same_bool b.no_header s.no_header) of_header
            ++ (differ (length b.columns == length s.columns) of_number
                ++ compare_columns 1 b.columns s.columns)))

-- An entry of the directory: its name, whether it is a directory, and what a read of it gives.
pub record Entry : Type 0 where
  pub name : Text
  pub is_dir : Bool
  pub content : Result Text Text

pub data FilesError : Type 0 where
  of_read : Text → FilesError
  of_line : Text → ℕ → BlockReason → FilesError
  same_name : Text → ℕ → Text → FilesError
  no_block : FilesError

-- The block of a name, with its file and its line.
pub record Found : Type 0 where
  pub file : Text
  pub block : Block

abbrev pub name_of : Found → Text
name_of f = f.block.schema.name

unfoldable pub has_name : Text → List Found → Bool
has_name name [] = false
has_name name (f ∷ fs) =
    let rest = has_name name fs in if text_eq (name_of f) name then true else rest

-- The loop over the blocks of a file.
unfoldable pub add_blocks : Text → List Block → List Found → Result FilesError (List Found)
add_blocks file [] found = ok found
add_blocks file (b ∷ bs) found =
    let rest = add_blocks file bs (found ++ (record { file = file; block = b } ∷ [])) in
    if has_name b.schema.name found then err (same_name file b.line b.schema.name) else rest

unfoldable pub read_entry : Entry → List Found → Result FilesError (List Found)
read_entry e found = elim e.content [
  | err why ↦ err (of_read why)
  | ok text ↦ elim (parse_blocks text) [
    | err (n, why) ↦ err (of_line e.name n why)
    | ok bs ↦ add_blocks e.name bs found
  ]
]

-- The loop over the entries.
unfoldable pub read_entries : List Entry → List Found → Result FilesError (List Found)
read_entries [] found = ok found
read_entries (e ∷ es) found =
    (if e.is_dir
      then ok found
      else if has_suffix (codes ".md") e.name
      then read_entry e found
      else ok found)
    >>= read_entries es

-- `ReadBlocks`, from what the read of the directory gives.
unfoldable pub read_blocks : Result Text (List Entry) → Result FilesError (List Found)
read_blocks (err why) = err (of_read why)
read_blocks (ok entries) =
    read_entries entries [] >>= λ found. if is_empty found then err no_block else ok found
