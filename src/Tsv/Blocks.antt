-- ===== src/Tsv/Blocks.antt =====
-- internal/tsv/block.go: the tsv-schema blocks of Markdown files.
use layup.Base.{
  ℕ, suc, ◌+◌, Bool, true, false, not, ◌&&◌, ◌||◌, List, [], ◌∷◌, ◌++◌, Option, none, some, leb,
  ltb, ◌==◌, if◌then◌else◌, any, is_empty, length, Result, ok, err, ◌>>=◌, ◌>>◌, refuse_if,
}
use layup.Text.{Text, codes, text_eq, member, contains_byte, cut_byte, trim_suffix_byte}
use layup.Text.Split.{split}
use layup.Text.Fields.{text_fields}
use layup.Tsv.Schema.{Schema, Column, TypeReason}
use layup.Tsv.Types.{parse_type}
use layup.Tsv.Types.Simple.{valid_path}

-- `strings.TrimLeft` by a set of bytes, and `strings.TrimRight` by one byte.
unfoldable pub trim_left : Text → Text → Text
trim_left cs [] = []
trim_left cs (x ∷ t) = let rest = trim_left cs t in if contains_byte x cs then rest else x ∷ t

unfoldable pub trim_right : ℕ → Text → Text
trim_right c [] = []
trim_right c (x ∷ t) =
    let rest = trim_right c t in if (x == c) && is_empty rest then [] else x ∷ rest

-- `strings.TrimSpace(t) == ""`.
unfoldable pub blank : Text → Bool
blank t = is_empty (text_fields t)

-- Whether the words start with tsv-schema.
unfoldable pub is_schema : List Text → Bool
is_schema [] = false
is_schema (w ∷ ws) = text_eq w (codes "tsv-schema")

-- The run of a fence, `size` times its mark, and the rest of its line.
pub record Fence : Type 0 where
  pub mark : ℕ
  pub size : ℕ
  pub rest : Text

-- The bytes of a mark that a text starts with, counted, and the text behind them.
unfoldable pub count_run : ℕ → Text → ℕ
count_run c [] = 0
count_run c (x ∷ t) = let n = count_run c t in if x == c then suc n else 0

unfoldable pub fence_at : Text → Option Fence
fence_at [] = none
fence_at (c ∷ t) =
    let n = count_run c (c ∷ t) in
    if not (c == b'`') && not (c == b'~')
    then none
    else if ltb n 3
    then none
    else some (record { mark = c; size = n; rest = trim_left (c ∷ []) (c ∷ t) })

unfoldable pub fence : Text → Option Fence
fence l =
    let t = trim_left (codes " ") l in if ltb (length t + 3) (length l) then none else fence_at t

unfoldable pub misplaced : Text → Bool
misplaced l = elim (fence (trim_left (codes " \t>*+-.)0123456789") l)) [
  | none ↦ false
  | some f ↦ is_schema (text_fields f.rest)
]

-- Why a block is refused.
pub data BlockReason : Type 0 where
  misplaced_fence has_tab no_column no_closing_fence : BlockReason
  head_form : List Text → BlockReason
  location_form location_path : Text → BlockReason
  empty_column_line column_form key_mark column_repeats : BlockReason
  column_type : Text → TypeReason → BlockReason

pub record Block : Type 0 where
  pub schema : Schema
  pub line : ℕ

-- The `switch` of `blockHead` on the location.
unfoldable pub check_location : Text → Result BlockReason (Unit {0})
check_location l = if text_eq l (codes "stdout") then ok tt else elim (cut_byte b':' l) [
  | none ↦ err (location_form l)
  | some (prefix, path) ↦
      if not (member prefix (codes "records" ∷ codes "target" ∷ codes "layup" ∷ codes "host" ∷ []))
      then err (location_form l)
      else refuse_if (text_eq path (codes ".") || not (valid_path path)) (location_path l)
]

unfoldable pub head_of : Text → Text → Bool → Result BlockReason Schema
head_of name location headless =
    check_location location
    >> ok (record { name = name; location = location; no_header = headless; columns = [] })

-- The words of an opening line: tsv-schema, the name, the location, and no-header or nothing.
unfoldable pub head_words : List Text → Result BlockReason Schema
head_words (w ∷ name ∷ location ∷ []) = head_of name location false
head_words (w ∷ name ∷ location ∷ mark ∷ []) =
    if text_eq mark (codes "no-header")
    then head_of name location true
    else err (head_form (w ∷ name ∷ location ∷ mark ∷ []))
head_words w = err (head_form w)

unfoldable pub block_head : List Text → Text → Result BlockReason Schema
block_head w l = if contains_byte b'\t' l then err has_tab else head_words w

-- `strings.Cut(t, " ")` with the rest trimmed.
unfoldable pub next_word : Text → Text × Text
next_word t = elim (cut_byte b' ' t) [
  | none ↦ (t, [])
  | some (word, rest) ↦ (word, trim_left (codes " ") rest)
]

-- The column of a line, and its third word.
unfoldable pub column_of : Text → Column × Text
column_of l =
    let (name, r1) = next_word (trim_left (codes " ") l) in
    let (type_expr, r2) = next_word r1 in
    let (key, r3) = next_word r2 in
    (
      record {
        name = name;
        type_expr = type_expr;
        key = text_eq key (codes "key");
        rule = trim_right b' ' r3;
      },
      key,
    )

-- The `switch` of `columnLine`.
unfoldable pub check_column : Schema → Text → Column → Text → Result BlockReason (Unit {0})
check_column s l c key =
    if contains_byte b'\t' l
    then err has_tab
    else if blank l
    then err empty_column_line
    else if is_empty c.rule
    then err column_form
    else elim (parse_type c.type_expr) [
      | err why ↦ err (column_type c.name why)
      | ok _ ↦
          if not (text_eq key (codes "key")) && not (text_eq key (codes "-"))
          then err key_mark
          else refuse_if (any (λ d. text_eq d.name c.name) s.columns) column_repeats
    ]

unfoldable pub column_line : Schema → Text → Result BlockReason Schema
column_line s l =
    let (c, key) = column_of l in
    check_column s l c key >> ok (record s { columns = s.columns ++ (c ∷ []) })

-- The variables of the loop of `parseBlocks`.
pub record Scan : Type 0 where
  pub blocks : List Block
  pub opened : Option Fence
  pub current : Option Block

-- An opening fence.
unfoldable pub open_fence : ℕ → Text → Fence → Scan → Result BlockReason Scan
open_fence n l f s =
    let words = text_fields f.rest in
    if is_schema words
    then (block_head words l >>= λ h.
        ok (record s { opened = some f; current = some (record { schema = h; line = n }) }))
    else ok (record s { opened = some f })

-- A closing fence.
unfoldable pub close_fence : Text → Scan → Result BlockReason Scan
close_fence l s = elim s.current [
  | none ↦ ok (record s { opened = none })
  | some b ↦
      if contains_byte b'\t' l
      then err has_tab
      else if is_empty b.schema.columns
      then err no_column
      else ok (record { blocks = s.blocks ++ (b ∷ []); opened = none; current = none })
]

-- A line that is no fence.
unfoldable pub text_line : Text → Scan → Result BlockReason Scan
text_line l s = elim s.current [
  | none ↦ ok s
  | some b ↦
      column_line b.schema l >>= λ h. ok (record s { current = some (record b { schema = h }) })
]

unfoldable pub closes_fence : Fence → Fence → Bool
closes_fence f g = (g.mark == f.mark) && (leb f.size g.size && blank g.rest)

-- The `switch` of the loop, with no open fence and with one.
unfoldable pub outside_line : ℕ → Text → Option Fence → Scan → Result BlockReason Scan
outside_line n l none s = if misplaced l then err misplaced_fence else text_line l s
outside_line n l (some f) s =
    if not ((f.mark == b'`') && contains_byte b'`' f.rest)
    then open_fence n l f s
    else if misplaced l
    then err misplaced_fence
    else text_line l s

unfoldable pub inside_line : Text → Fence → Option Fence → Scan → Result BlockReason Scan
inside_line l f none s = text_line l s
inside_line l f (some g) s = if closes_fence f g then close_fence l s else text_line l s

unfoldable pub scan_line : ℕ → Text → Scan → Result BlockReason Scan
scan_line n l s = elim s.opened [
  | none ↦ outside_line n l (fence l) s
  | some f ↦ inside_line l f (fence l) s
]

-- The error of a line.
abbrev pub at_line {ℓ} : {A : Type ℓ} → ℕ → Result BlockReason A → Result (ℕ × BlockReason) A
at_line n (err why) = err (n, why)
at_line n (ok a) = ok a

unfoldable pub scan_lines : ℕ → List Text → Scan → Result (ℕ × BlockReason) Scan
scan_lines n [] s = ok s
scan_lines n (l ∷ ls) s = at_line n (scan_line n l s) >>= λ s'. scan_lines (n + 1) ls s'

unfoldable pub end_scan : Scan → Result (ℕ × BlockReason) (List Block)
end_scan s = elim s.current [ none ↦ ok s.blocks | some b ↦ err (b.line, no_closing_fence) ]

unfoldable pub parse_blocks : Text → Result (ℕ × BlockReason) (List Block)
parse_blocks text =
    scan_lines 1 (split b'\n' (trim_suffix_byte b'\n' text))
      (record { blocks = []; opened = none; current = none })
    >>= end_scan
