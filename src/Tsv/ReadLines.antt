-- ===== src/Tsv/ReadLines.antt =====
-- The lines that `Write` makes, as the loop of `Read` in internal/tsv meets them.
use mathlib.Core.List.{append_assoc}
use mathlib.Core.Path.{ap₂}
use layup.Base.{
  ℕ, ◌+◌, ◌≡◌, ◌≢◌, ◌<◌, refl, sym, ap, ◌∙◌, true, false, List, [], ◌∷◌, ◌++◌, map, arith, All,
  Bool-cases, inl, inr, is_empty, if◌then◌else◌, ◌==◌, ◌||◌, Result, ok, is_ok, >>=-eq-ok,
}
use layup.Text.Split.{Lacks, join, join-Lacks, split, split-join, join-split}
use layup.Text.{Text, text_eq, contains_byte, has_prefix}
use layup.Text.Lines.{unlines, split-trim-unlines, has_suffix-unlines, Lacks-contains}
use layup.Tsv.Schema.{Column, Schema, Error, FieldType}
use layup.Tsv.Codec.{
  field_rule, header_line, read_line, read_lines, read, write_rows, value_of, field_of,
}
use layup.Tsv.Row.{empty_mark, bom, schema_types, check_header, Keys, check_row}
use layup.Tsv.Types.Simple.{one_line}
use layup.Tsv.Rows.{
  names, HasName, names-Lacks, check_header-names, names_of_check_header, has_prefix-append,
  check_row-length, IsRowLine, read_line-row,
}
use layup.Tsv.Fields.{line_of, line_of-Lacks, line_of_not_empty, map-field_of-Lacks}

abbrev pub spaced : ℕ → ℕ
spaced c = if c == b'\t' || c == b'\n' || c == b'\r' then b' ' else c

-- What a value reads back as: its tabs, line feeds and carriage returns are spaces, and the mark of the
-- empty value is the empty value.
abbrev pub read_back : Text → Text
read_back v = if text_eq (map spaced v) empty_mark then [] else map spaced v

field_rule-map : (v : Text) → field_rule v ≡ map spaced v
unfolding field_rule
field_rule-map [] = refl
field_rule-map (c ∷ v) = ap (◌∷◌ (spaced c)) (field_rule-map v)

empty_mark_back :
    (f : Text)
    → value_of (if is_empty f then empty_mark else f) ≡ (if text_eq f empty_mark then [] else f)
unfolding value_of text_eq
empty_mark_back [] = refl
empty_mark_back (c ∷ f) = refl

value_of-field_of : (v : Text) → value_of (field_of v) ≡ read_back v
unfolding field_of
value_of-field_of v =
    empty_mark_back (field_rule v)
    ∙ ap (λ f. if text_eq f empty_mark then [] else f) (field_rule-map v)

map-read_back : (row : List Text) → map value_of (map field_of row) ≡ map read_back row
map-read_back [] = refl
map-read_back (v ∷ row) = ap₂ ◌∷◌ (value_of-field_of v) (map-read_back row)

pub names_ne_nil : (cols : List Column) → is_empty cols ≡ false → names cols ≢ []
names_ne_nil [] e = cc
names_ne_nil (c ∷ cols) e = λ h. cc

pub ok_injective : {a b : Text} → ◌≡◌ {A = Result Error Text} (ok a) (ok b) → a ≡ b
ok_injective h = cc

module _ (s : Schema) (types : List FieldType) where
  pub write_rows-unlines :
      (n : ℕ) (keys : Keys) (rows : List (List Text)) {t : Text}
      → write_rows n s.columns types keys rows ≡ ok t
      → t ≡ unlines b'\n' (map line_of rows)
  unfolding write_rows unlines
  write_rows-unlines n keys [] h = ground arith
  write_rows-unlines n keys (row ∷ rows) h =
      let (keys', _, h₁) = >>=-eq-ok (check_row n (map field_of row) s.columns types keys) _ h in
      let (rest, h₂, h₃) = >>=-eq-ok (write_rows (n + 1) s.columns types keys' rows) _ h₁ in
      ground (arith, write_rows-unlines (n + 1) keys' rows h₂)

  -- One line of a record, written and read.
  read_line-line_of :
      (n : ℕ) (keys : Keys) (row : List Text) {keys' : Keys}
      → is_empty s.columns ≡ false
      → IsRowLine s types n keys (line_of row)
      → check_row n (map field_of row) s.columns types keys ≡ ok keys'
      → read_line s types n keys (line_of row) ≡ ok (map value_of (map field_of row) ∷ [], keys')
  read_line-line_of n keys [] ne i h =
      let wide = check_row-length n [] s.columns types keys h in ground arith
  read_line-line_of n keys (v ∷ row) {keys'} ne i h =
      let back =
        split-join b'\t' (map field_of (v ∷ row)) (λ e. cc)
          (map-field_of-Lacks b'\t' (v ∷ row) refl) in
      read_line-row s types n keys (line_of (v ∷ row)) {keys' = keys'} i
        (Lacks-contains b'\r' (line_of (v ∷ row)) (line_of-Lacks b'\r' (v ∷ row) refl))
        (line_of_not_empty v row) (rw back h)
      ∙ rw back

  pub read_lines-cons :
      (n : ℕ) (keys keys' : Keys) (row : List Text) (ls : List Text) {rest : List (List Text)}
      → is_empty s.columns ≡ false
      → IsRowLine s types n keys (line_of row)
      → check_row n (map field_of row) s.columns types keys ≡ ok keys'
      → read_lines s types (n + 1) keys' ls ≡ ok rest
      → read_lines s types n keys (line_of row ∷ ls) ≡ ok (map read_back row ∷ rest)
  unfolding read_lines
  read_lines-cons n keys keys' row ls ne i h later =
      rw (read_line-line_of n keys row ne i h, later, map-read_back row) refl

  pub read_lines-map :
      (n : ℕ) (keys : Keys) (rows : List (List Text)) {t : Text}
      → is_empty s.columns ≡ false
      → 1 < n
      → write_rows n s.columns types keys rows ≡ ok t
      → read_lines s types n keys (map line_of rows) ≡ ok (map (map read_back) rows)
  unfolding write_rows
  read_lines-map n keys [] ne p h = unfold read_lines in refl
  read_lines-map n keys (row ∷ rows) ne p h =
      let (keys', h₀, h₁) = >>=-eq-ok (check_row n (map field_of row) s.columns types keys) _ h in
      let (rest, h₂, _) = >>=-eq-ok (write_rows (n + 1) s.columns types keys' rows) _ h₁ in
      read_lines-cons n keys keys' row (map line_of rows) ne (ground arith, ground arith) h₀
        (read_lines-map (n + 1) keys' rows ne (omega arith) h₂)

  -- The first line of a record with no header row is read as a row.
  pub first_line-IsRowLine :
      (l r : Text)
      → All HasName s.columns
      → s.no_header ≡ true
      → has_prefix (header_line s.columns) (l ++ (b'\n' ∷ r)) ≡ false
      → IsRowLine s types 1 [] l
  first_line-IsRowLine l r names_fine b p = (
    ground arith,
    elim (Bool-cases (is_ok (check_header (split b'\t' l) s.columns))) [
      | inl e ↦
          let l_is : join b'\t' (names s.columns) ≡ l =
            ap (join b'\t') (sym (names_of_check_header _ _ e)) ∙ join-split b'\t' l in
          let same : (join b'\t' (names s.columns) ++ (b'\n' ∷ [])) ++ r ≡ l ++ (b'\n' ∷ r) =
            rw l_is (append_assoc l (b'\n' ∷ []) r) in
          cc (has_prefix-append (header_line s.columns) r, same)
      | inr e ↦ e
    ],
  )

  header_not_empty :
      (cols : List Column)
      → All HasName cols
      → is_empty cols ≡ false
      → is_empty (join b'\t' (names cols)) ≡ false
  unfolding join one_line
  header_not_empty [] h e = cc
  header_not_empty (c ∷ []) h e = ground arith
  header_not_empty (c ∷ d ∷ cols) h e = ground arith

  pub read_line_header :
      All HasName s.columns
      → is_empty s.columns ≡ false
      → s.no_header ≡ false
      → read_line s types 1 [] (join b'\t' (names s.columns)) ≡ ok ([], [])
  unfolding read_line contains_byte
  read_line_header fine ne b =
      rw
        (
          Lacks-contains b'\r' _ (
              join-Lacks b'\t' b'\r' (names s.columns) refl
                (names-Lacks b'\r' s.columns refl fine)),
          header_not_empty s.columns fine ne,
          b,
          split-join b'\t' (names s.columns) (names_ne_nil s.columns ne)
              (names-Lacks b'\t' s.columns refl fine),
          check_header-names s.columns,
        )
        refl

  pub unlines_not_empty : (l : Text) (ls : List Text) → is_empty (unlines b'\n' (l ∷ ls)) ≡ false
  unfolding unlines
  unlines_not_empty [] ls = refl
  unlines_not_empty (x ∷ l) ls = refl

  -- The lines of a record are read one by one.
  pub read-unlines :
      (l : Text) (ls : List Text) {rows : List (List Text)}
      → schema_types s ≡ ok types
      → has_prefix bom (unlines b'\n' (l ∷ ls)) ≡ false
      → All (Lacks b'\n') (l ∷ ls)
      → read_lines s types 1 [] (l ∷ ls) ≡ ok rows
      → read (unlines b'\n' (l ∷ ls)) s ≡ ok rows
  unfolding read
  read-unlines l ls t b a h =
      rw
        (
          t,
          b,
          unlines_not_empty l ls,
          split-trim-unlines b'\n' l ls a,
          h,
          has_suffix-unlines b'\n' l ls,
        )
        refl
