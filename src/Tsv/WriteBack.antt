-- ===== src/Tsv/WriteBack.antt =====
-- `Write` after `Read` of internal/tsv, on the whole record.
use mathlib.Core.List.{append_assoc}
use layup.Base.{
  ℕ, ◌+◌, ◌≡◌, ◌≢◌, ◌⊎◌, refl, sym, ap, ◌∙◌, true, false, not, List, [], ◌∷◌, ◌++◌, arith, All,
  Bool-cases, inl, inr, is_empty, length, ok, ◌>>=◌, is_ok, >>=-eq-ok, ◌>>◌, refuse_if,
}
use layup.Text.Split.{
  Lacks, join, join-Lacks, split, split-join, join-split, split-Lacks, split-ne-nil,
}
use layup.Text.{Text, contains_byte, has_prefix, has_suffix_byte, trim_suffix_byte}
use layup.Text.Lines.{unlines, unlines-join, append-trim}
use layup.Tsv.Schema.{Schema, FieldType, at, no_line_feed}
use layup.Tsv.Codec.{header_line, read_line, read_lines, read, write_rows, finish_write, write}
use layup.Tsv.Row.{bom, schema_types, check_header, Keys}
use layup.Tsv.Rows.{
  names, schema_types-HasName, schema_types_not_empty, names-Lacks, check_header-names,
  names_of_check_header, line_of_prefix, IsRowLine,
}
use layup.Tsv.Conforms.{schema_types-length}
use layup.Tsv.ReadLines.{names_ne_nil}
use layup.Tsv.Canonical.{write_rows-cons, write_rows-read, ok_injective}

-- What `Read` checked of a text that it took.
pub record WasRead (s : Schema) (text : Text) (rows : List (List Text)) : Type 0 where
  pub types : List FieldType
  pub typed : schema_types s ≡ ok types
  pub no_mark : has_prefix bom text ≡ false
  pub lines_read :
      ((text ≡ []) × (s.no_header ≡ true) × (rows ≡ []))
      ⊎ ((read_lines s types 1 [] (split b'\n' (trim_suffix_byte b'\n' text)) ≡ ok rows)
          × (has_suffix_byte b'\n' text ≡ true))

is_empty_iff : (t : Text) → is_empty t ≡ true → t ≡ []
is_empty_iff [] h = refl
is_empty_iff (x ∷ t) h = cc

pub read-WasRead :
    (s : Schema) (text : Text) {rows : List (List Text)}
    → read text s ≡ ok rows
    → WasRead s text rows
unfolding read
read-WasRead s text {rows} h =
    let (types, t, h₁) = >>=-eq-ok (schema_types s) _ h in
    elim (Bool-cases (is_empty text)) [
      | inl e ↦ record {
        types = types;
        typed = t;
        no_mark = ground arith;
        lines_read = inl (is_empty_iff text e, ground arith, ground arith);
      }
      | inr e ↦
          let no_mark : has_prefix bom text ≡ false = ground arith in
          let h₂ : (do
            rows ← read_lines s types 1 [] (split b'\n' (trim_suffix_byte b'\n' text))
            refuse_if (not (has_suffix_byte b'\n' text))
                (at (length (split b'\n' (trim_suffix_byte b'\n' text))) [] no_line_feed)
            ok rows)
              ≡ ok rows =
            rw (no_mark, e) at h₁ in
          let (rs, h₃, h₄) =
            >>=-eq-ok (read_lines s types 1 [] (split b'\n' (trim_suffix_byte b'\n' text))) _ h₂ in
          record {
            types = types;
            typed = t;
            no_mark = no_mark;
            lines_read = inr (ground arith, ground arith);
          }
    ]

has_prefix_nothing : (a : Text) (x : ℕ) → has_prefix (a ++ (x ∷ [])) [] ≡ false
unfolding has_prefix
has_prefix_nothing [] x = refl
has_prefix_nothing (y ∷ a) x = refl

module _ (s : Schema) (types : List FieldType) (t : schema_types s ≡ ok types) where
  first_line_headed :
      (l : Text) {rows : List (List Text)} {keys' : Keys}
      → s.no_header ≡ false
      → read_line s types 1 [] l ≡ ok (rows, keys')
      → (rows ≡ []) × (keys' ≡ []) × (split b'\t' l ≡ names s.columns)
  unfolding read_line
  first_line_headed l b h =
      (ground arith, ground arith, names_of_check_header (split b'\t' l) s.columns (ground arith))

  first_line_headless :
      (l : Text) {rows : List (List Text)} {keys' : Keys}
      → s.no_header ≡ true
      → read_line s types 1 [] l ≡ ok (rows, keys')
      → is_ok (check_header (split b'\t' l) s.columns) ≡ false
  unfolding read_line
  first_line_headless l b h = ground arith

  -- The header line does not start the record where its first line is no header row.
  header-prefix :
      (l r : Text)
      → Lacks b'\n' l
      → is_ok (check_header (split b'\t' l) s.columns) ≡ false
      → has_prefix (header_line s.columns) (l ++ (b'\n' ∷ r)) ≡ false
  unfolding contains_byte
  header-prefix l r a h =
      elim (Bool-cases (has_prefix (header_line s.columns) (l ++ (b'\n' ∷ r)))) [
        | inl e ↦
            let fine = schema_types-HasName s t in
            let lacks =
              join-Lacks b'\t' b'\n' (names s.columns) refl
                (names-Lacks b'\n' s.columns refl fine) in
            let l_is : join b'\t' (names s.columns) ≡ l =
              line_of_prefix b'\n' (join b'\t' (names s.columns)) l r lacks a e in
            let cut : split b'\t' l ≡ names s.columns = rw (← l_is) (
              split-join b'\t' (names s.columns)
                (names_ne_nil s.columns (schema_types_not_empty s t))
                (names-Lacks b'\t' s.columns refl fine)) in
            let taken : is_ok (check_header (split b'\t' l) s.columns) ≡ true =
              rw (cut, check_header-names s.columns) refl in
            cc (taken, h)
        | inr e ↦ e
      ]

  write_headed :
      (l : Text) (ls : List Text) {rows : List (List Text)}
      → s.no_header ≡ false
      → All (Lacks b'\n') (l ∷ ls)
      → has_prefix bom (unlines b'\n' (l ∷ ls)) ≡ false
      → read_lines s types 1 [] (l ∷ ls) ≡ ok rows
      → write s rows ≡ ok (unlines b'\n' (l ∷ ls))
  unfolding read_lines unlines
  write_headed l ls b a m h =
      let ((first, keys'), h₀, h₁) = >>=-eq-ok (read_line s types 1 [] l) _ h in
      let (rest, h₂, h₃) = >>=-eq-ok (read_lines s types (1 + 1) keys' ls) _ h₁ in
      let (none_yet, no_keys, cut) = first_line_headed l b h₀ in
      let rows_are : rest ≡ _ = rw none_yet at (ok_injective h₃) in
      let body =
        write_rows-read s types (schema_types-length s t) 2 [] ls (omega arith) a.1
          (rw no_keys at h₂) in
      let l_is : join b'\t' (names s.columns) ≡ l =
        ap (join b'\t') (sym cut) ∙ join-split b'\t' l in
      let text_is : header_line s.columns ++ unlines b'\n' ls ≡ l ++ (b'\n' ∷ unlines b'\n' ls) =
        rw l_is (append_assoc l (b'\n' ∷ []) (unlines b'\n' ls)) in
      rw (← rows_are) (unfold write finish_write in rw (t, b, body, text_is, m) refl)

  write_headless :
      (l : Text) (ls : List Text) {rows : List (List Text)}
      → s.no_header ≡ true
      → All (Lacks b'\n') (l ∷ ls)
      → has_prefix bom (unlines b'\n' (l ∷ ls)) ≡ false
      → read_lines s types 1 [] (l ∷ ls) ≡ ok rows
      → write s rows ≡ ok (unlines b'\n' (l ∷ ls))
  unfolding read_lines unlines
  write_headless l ls b a m h =
      let ((first, keys'), h₀, h₁) = >>=-eq-ok (read_line s types 1 [] l) _ h in
      let (rest, h₂, h₃) = >>=-eq-ok (read_lines s types (1 + 1) keys' ls) _ h₁ in
      let no_row = first_line_headless l b h₀ in
      let i : IsRowLine s types 1 [] l = (rw b refl, no_row) in
      let body =
        write_rows-read s types (schema_types-length s t) 2 keys' ls (omega arith) a.1 h₂ in
      let whole = write_rows-cons s types (schema_types-length s t) 1 [] l rest i a.0 h₀ body in
      rw (← (ok_injective h₃)) (
        unfold write finish_write in
        rw (t, b, whole, m, header-prefix l (unlines b'\n' ls) a.0 no_row) refl)

  write_lines :
      (ls : List Text) {rows : List (List Text)}
      → ls ≢ []
      → All (Lacks b'\n') ls
      → has_prefix bom (unlines b'\n' ls) ≡ false
      → read_lines s types 1 [] ls ≡ ok rows
      → write s rows ≡ ok (unlines b'\n' ls)
  write_lines [] e a m h = absurd (e refl)
  write_lines (l ∷ ls) e a m h = elim (Bool-cases s.no_header) [
    | inl b ↦ write_headless l ls b a m h
    | inr b ↦ write_headed l ls b a m h
  ]

  write_nothing : s.no_header ≡ true → write s [] ≡ ok []
  unfolding write finish_write write_rows
  write_nothing b =
      rw (t, b, has_prefix_nothing (join b'\t' (names s.columns)) b'\n') (unfold has_prefix in refl)

unlines-split-trim :
    (c : ℕ) (text : Text)
    → has_suffix_byte c text ≡ true
    → unlines c (split c (trim_suffix_byte c text)) ≡ text
unlines-split-trim c text h = go (split c (trim_suffix_byte c text)) refl
  where
    go : (ls : List Text) → split c (trim_suffix_byte c text) ≡ ls → unlines c ls ≡ text
    go [] e = absurd (split-ne-nil c (trim_suffix_byte c text) e)
    go (l ∷ ls) e =
        unlines-join c l ls
        ∙ ap (λ (t : Text). t ++ (c ∷ []))
            (ap (join c) (sym e) ∙ join-split c (trim_suffix_byte c text))
        ∙ append-trim c text h

-- A text that `Read` takes is the one that `Write` makes of its rows.
pub write-read :
    (s : Schema) (text : Text) {rows : List (List Text)}
    → read text s ≡ ok rows
    → write s rows ≡ ok text
write-read s text {rows} h =
    let w = read-WasRead s text h in
    elim w.lines_read [
      | inl (nothing, b, no_rows) ↦ rw (nothing, no_rows) (write_nothing s w.types w.typed b)
      | inr (lines, ends) ↦
          let whole = unlines-split-trim b'\n' text ends in
          write_lines s w.types w.typed (split b'\n' (trim_suffix_byte b'\n' text))
            (split-ne-nil b'\n' _) (split-Lacks b'\n' _) (rw whole w.no_mark) lines
          ∙ ap ok whole
    ]
