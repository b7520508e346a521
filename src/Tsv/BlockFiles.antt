-- ===== src/Tsv/BlockFiles.antt =====
-- internal/tsv/block.go: what `ReadBlocks` gives.
use mathlib.Core.Path.{subst}
use layup.Base.{
  ◌≡◌, ◌≢◌, inl, inr, false, List, [], ◌∷◌, ◌++◌, arith, if◌then◌else◌, is_empty, All, Result, ok,
  err, >>=-eq-ok, Bool-cases, Result-cases,
}
use layup.Text.{Text, codes, text_eq_iff}
use layup.Text.Fields.{has_suffix}
use layup.Tsv.Blocks.{Block, parse_blocks}
use layup.Tsv.BlocksGrowing.{IsBlock, All-append}
use layup.Tsv.BlocksSound.{parse_blocks-IsBlock}
use layup.Tsv.Compare.{
  Entry, FilesError, Found, name_of, has_name, add_blocks, read_entry, read_entries, read_blocks,
}

-- No two blocks have one name.
abbrev pub NamesDiffer : List Found → Type 0
NamesDiffer [] = Unit
NamesDiffer (f ∷ fs) = All (λ g. name_of f ≢ name_of g) fs × NamesDiffer fs

abbrev pub AreBlocks : List Found → Type 0
AreBlocks = All (λ f. IsBlock f.block)

NamesDiffer-append :
    (fs : List Found) (g : Found)
    → NamesDiffer fs
    → has_name (name_of g) fs ≡ false
    → NamesDiffer (fs ++ (g ∷ []))
unfolding has_name
NamesDiffer-append [] g d h = (tt, tt)
NamesDiffer-append (f ∷ fs) g d h = (
  All-append (λ x. name_of f ≢ name_of x) fs g d.0
      (λ same. absurd (ground (arith, text_eq_iff (name_of f) (name_of g)))),
  NamesDiffer-append fs g d.1 (ground arith),
)

abbrev Kept : List Found → Type 0
Kept fs = AreBlocks fs × NamesDiffer fs

add_blocks-Kept :
    (file : Text) (bs : List Block) (fs : List Found) {fs' : List Found}
    → All IsBlock bs
    → Kept fs
    → add_blocks file bs fs ≡ ok fs'
    → Kept fs'
unfolding add_blocks
add_blocks-Kept file [] fs all k e = subst Kept (cc) k
add_blocks-Kept file (b ∷ bs) fs all k e = elim (Bool-cases (has_name b.schema.name fs)) [
  | inl there ↦ absurd (ground arith)
  | inr fresh ↦
      let g : Found = record { file = file; block = b } in
      add_blocks-Kept file bs (fs ++ (g ∷ [])) all.1
        (All-append (λ f. IsBlock f.block) fs g k.0 all.0, NamesDiffer-append fs g k.1 fresh)
        (rw (add_blocks, fresh) at e)
]

read_entry-Kept :
    (x : Entry) (fs : List Found) {fs' : List Found} → Kept fs → read_entry x fs ≡ ok fs' → Kept fs'
unfolding read_entry
read_entry-Kept x fs k e = elim (Result-cases x.content) [
  | inr (why, bad) ↦ absurd (ground arith)
  | inl (text, read) ↦ elim (Result-cases (parse_blocks text)) [
    | inr ((n, why), bad) ↦ absurd (ground arith)
    | inl (bs, parsed) ↦
        add_blocks-Kept x.name bs fs (parse_blocks-IsBlock text parsed) k
          (rw (read_entry, read, parsed) at e)
  ]
]

abbrev read_one : Entry → List Found → Result FilesError (List Found)
read_one x fs =
    if x.is_dir then ok fs else if has_suffix (codes ".md") x.name then read_entry x fs else ok fs

read_one-Kept :
    (x : Entry) (fs : List Found) {fs' : List Found} → Kept fs → read_one x fs ≡ ok fs' → Kept fs'
read_one-Kept x fs k e = elim (Bool-cases x.is_dir) [
  | inl dir ↦ subst Kept (ground arith) k
  | inr file ↦ elim (Bool-cases (has_suffix (codes ".md") x.name)) [
    | inr other ↦ subst Kept (ground arith) k
    | inl markdown ↦ read_entry-Kept x fs k (ground arith)
  ]
]

read_entries-Kept :
    (xs : List Entry) (fs : List Found) {fs' : List Found}
    → Kept fs
    → read_entries xs fs ≡ ok fs'
    → Kept fs'
unfolding read_entries
read_entries-Kept [] fs k e = subst Kept (cc) k
read_entries-Kept (x ∷ xs) fs k e =
    let (mid, one, rest) = >>=-eq-ok (read_one x fs) _ e in
    read_entries-Kept xs mid (read_one-Kept x fs k one) rest

-- What `ReadBlocks` gives is not empty, holds blocks as `parseBlocks` reads them, and no two of one
-- name.
pub read_blocks-NamesDiffer :
    (dir : Result Text (List Entry)) {found : List Found}
    → read_blocks dir ≡ ok found
    → (found ≢ []) × AreBlocks found × NamesDiffer found
unfolding read_blocks
read_blocks-NamesDiffer (err why) e = cc
read_blocks-NamesDiffer (ok entries) {found} e =
    let (all, read, full) = >>=-eq-ok (read_entries entries []) _ e in
    elim (Bool-cases (is_empty all)) [
      | inl empty ↦ absurd (ground arith)
      | inr some_there ↦
          let same : all ≡ found = ground arith in
          subst (λ z. (z ≢ []) × AreBlocks z × NamesDiffer z) same
            (
              (λ none_there. absurd (ground arith)),
              (read_entries-Kept entries [] (tt, tt) read).0,
              (read_entries-Kept entries [] (tt, tt) read).1,
            )
    ]
