-- ===== src/Tsv/BlocksSound.antt =====
-- internal/tsv/block.go: what a block that is read holds.
use mathlib.Core.Path.{subst}
use layup.Base.{
  ℕ, ◌+◌, ◌≡◌, inl, inr, not, ◌&&◌, ◌==◌, List, [], ◌∷◌, ◌++◌, Option, none, some, arith, is_empty,
  All, Result, ok, err, >>=-eq-ok, Bool-cases, Option-cases,
}
use layup.Text.Split.{split}
use layup.Text.Fields.{text_fields}
use layup.Text.{trim_suffix_byte, Text, contains_byte}
use layup.Tsv.Blocks.{
  Fence, fence, misplaced, BlockReason, Block, block_head, column_line, Scan, open_fence,
  close_fence, text_line, closes_fence, outside_line, inside_line, scan_line, at_line, scan_lines,
  end_scan, parse_blocks, is_schema,
}
use layup.Tsv.BlocksGrowing.{Growing, IsBlock, block_head-Growing, column_line-Growing, All-append}

-- The schema that is being read.
abbrev CurrentGrowing : Option Block → Type 0
CurrentGrowing none = Unit
CurrentGrowing (some b) = Growing b.schema

record IsScan (s : Scan) : Type 0 where
  whole : All IsBlock s.blocks
  growing : CurrentGrowing s.current

open_fence-IsScan :
    (n : ℕ) (l : Text) (f : Fence) (s : Scan) {s' : Scan}
    → IsScan s
    → open_fence n l f s ≡ ok s'
    → IsScan s'
unfolding open_fence
open_fence-IsScan n l f s {s'} i e = elim (Bool-cases (is_schema (text_fields f.rest))) [
  | inr other ↦
      let same : record s { opened = some f } ≡ s' = ground arith in
      subst IsScan same (record { whole = i.whole; growing = i.growing })
  | inl block ↦
      let (h, head, made) =
        >>=-eq-ok (block_head (text_fields f.rest) l) _ (rw (open_fence, block) at e) in
      let same : record s { opened = some f; current = some (record { schema = h; line = n }) }
          ≡ s' =
        cc in
      subst IsScan same
        (record { whole = i.whole; growing = block_head-Growing (text_fields f.rest) l head })
]

close_fence-IsScan :
    (l : Text) (s : Scan) {s' : Scan} → IsScan s → close_fence l s ≡ ok s' → IsScan s'
unfolding close_fence
close_fence-IsScan l s {s'} i e = elim (Option-cases s.current) [
  | inl none_open ↦
      let same : record s { opened = none } ≡ s' = ground arith in
      subst IsScan same (record { whole = i.whole; growing = i.growing })
  | inr (b, now) ↦ elim (Bool-cases (contains_byte b'\t' l)) [
    | inl tab ↦ absurd (ground arith)
    | inr no_tab ↦ elim (Bool-cases (is_empty b.schema.columns)) [
      | inl empty ↦ absurd (ground arith)
      | inr full ↦
          let same : record { blocks = s.blocks ++ (b ∷ []); opened = none; current = none } ≡ s' =
            ground arith in
          let g : Growing b.schema = subst CurrentGrowing now i.growing in
          subst IsScan same (record {
            whole =
                All-append IsBlock s.blocks b i.whole
                  (record { schema = g; not_empty = λ none_there. absurd (ground arith) });
            growing = tt;
          })
    ]
  ]
]

text_line-IsScan : (l : Text) (s : Scan) {s' : Scan} → IsScan s → text_line l s ≡ ok s' → IsScan s'
unfolding text_line
text_line-IsScan l s {s'} i e = elim (Option-cases s.current) [
  | inl none_open ↦ let same : s ≡ s' = ground arith in subst IsScan same i
  | inr (b, now) ↦
      let (h, column, made) = >>=-eq-ok (column_line b.schema l) _ (rw (text_line, now) at e) in
      let same : record s { current = some (record b { schema = h }) } ≡ s' = cc in
      let g : Growing b.schema = subst CurrentGrowing now i.growing in
      subst IsScan same
        (record { whole = i.whole; growing = column_line-Growing b.schema l g column })
]

outside_line-IsScan :
    (n : ℕ) (l : Text) (f : Option Fence) (s : Scan) {s' : Scan}
    → IsScan s
    → outside_line n l f s ≡ ok s'
    → IsScan s'
unfolding outside_line
outside_line-IsScan n l none s i e = elim (Bool-cases (misplaced l)) [
  | inl bad ↦ absurd (ground arith)
  | inr fine ↦ text_line-IsScan l s i (rw (outside_line, fine) at e)
]
outside_line-IsScan n l (some f) s i e =
    elim (Bool-cases (not ((f.mark == b'`') && contains_byte b'`' f.rest))) [
      | inl opens ↦ open_fence-IsScan n l f s i (rw (outside_line, opens) at e)
      | inr info ↦ elim (Bool-cases (misplaced l)) [
        | inl bad ↦ absurd (ground arith)
        | inr fine ↦ text_line-IsScan l s i (rw (outside_line, info, fine) at e)
      ]
    ]

inside_line-IsScan :
    (l : Text) (f : Fence) (g : Option Fence) (s : Scan) {s' : Scan}
    → IsScan s
    → inside_line l f g s ≡ ok s'
    → IsScan s'
unfolding inside_line
inside_line-IsScan l f none s i e = text_line-IsScan l s i e
inside_line-IsScan l f (some g) s i e = elim (Bool-cases (closes_fence f g)) [
  | inl shut ↦ close_fence-IsScan l s i (rw (inside_line, shut) at e)
  | inr other ↦ text_line-IsScan l s i (rw (inside_line, other) at e)
]

scan_line-IsScan :
    (n : ℕ) (l : Text) (s : Scan) {s' : Scan} → IsScan s → scan_line n l s ≡ ok s' → IsScan s'
unfolding scan_line
scan_line-IsScan n l s i e = elim (Option-cases s.opened) [
  | inl shut ↦ outside_line-IsScan n l (fence l) s i (rw (scan_line, shut) at e)
  | inr (f, inside) ↦ inside_line-IsScan l f (fence l) s i (rw (scan_line, inside) at e)
]

at_line-ok : {A : Type 0} (n : ℕ) (r : Result BlockReason A) {a : A} → at_line n r ≡ ok a → r ≡ ok a
at_line-ok n (err why) e = cc
at_line-ok n (ok a) e = cc

scan_lines-IsScan :
    (n : ℕ) (ls : List Text) (s : Scan) {s' : Scan}
    → IsScan s
    → scan_lines n ls s ≡ ok s'
    → IsScan s'
unfolding scan_lines
scan_lines-IsScan n [] s {s'} i e = let same : s ≡ s' = cc in subst IsScan same i
scan_lines-IsScan n (l ∷ ls) s i e =
    let (mid, one, rest) = >>=-eq-ok (at_line n (scan_line n l s)) _ e in
    scan_lines-IsScan (n + 1) ls mid (scan_line-IsScan n l s i (at_line-ok n (scan_line n l s) one))
      rest

-- Each block that is read from a text has a location that is stdout or a prefix before a path below
-- a root, at least one column, no column name twice, and for each column a rule and a type of the
-- closed list.
pub parse_blocks-IsBlock :
    (text : Text) {blocks : List Block} → parse_blocks text ≡ ok blocks → All IsBlock blocks
unfolding parse_blocks end_scan
parse_blocks-IsBlock text {blocks} e =
    let (s, scanned, closed) =
      >>=-eq-ok
        (scan_lines 1 (split b'\n' (trim_suffix_byte b'\n' text))
          (record { blocks = []; opened = none; current = none }))
        _ e in
    let i =
      scan_lines-IsScan 1 _ (record { blocks = []; opened = none; current = none })
        (record { whole = tt; growing = tt }) scanned in
    elim (Option-cases s.current) [
      | inr (b, left_open) ↦ absurd (ground arith)
      | inl none_open ↦
          let same : s.blocks ≡ blocks = ground arith in subst (All IsBlock) same i.whole
    ]
