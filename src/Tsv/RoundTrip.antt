-- ===== src/Tsv/RoundTrip.antt =====
-- `Write` and `Read` of internal/tsv against each other.
use mathlib.Core.List.{append_assoc}
use layup.Base.{
  ◌+◌, ◌≡◌, refl, true, false, ◌&&◌, List, [], ◌∷◌, ◌++◌, map, arith, if◌then◌else◌, Bool-cases,
  inl, inr, ok, >>=-eq-ok,
}
use layup.Text.Split.{join, join-Lacks}
use layup.Text.{Text, contains_byte, has_prefix}
use layup.Text.Lines.{unlines}
use layup.Tsv.Schema.{Schema, FieldType}
use layup.Tsv.Codec.{header_line, read_lines, read, write_rows, finish_write, write, field_of}
use layup.Tsv.Row.{bom, schema_types, check_row}
use layup.Tsv.Rows.{names, schema_types-HasName, schema_types_not_empty, names-Lacks}
use layup.Tsv.Fields.{line_of, lines-Lacks}
use layup.Tsv.ReadLines.{
  read_back, ok_injective, write_rows-unlines, read_lines-cons, read_lines-map,
  first_line-IsRowLine, read_line_header, read-unlines,
}

module _ (s : Schema) (types : List FieldType) where
  read_headless :
      (rows : List (List Text)) {body : Text}
      → schema_types s ≡ ok types
      → s.no_header ≡ true
      → write_rows 1 s.columns types [] rows ≡ ok body
      → has_prefix bom body ≡ false
      → has_prefix (header_line s.columns) body ≡ false
      → read body s ≡ ok (map (map read_back) rows)
  unfolding write_rows has_prefix join unlines
  read_headless [] t b h m p = rw (← (ok_injective h)) (unfold read in rw (t, b) refl)
  read_headless (row ∷ rows) {body} t b h m p =
      let body_is = write_rows-unlines s types 1 [] (row ∷ rows) h in
      let (keys', h₀, h₁) = >>=-eq-ok (check_row 1 (map field_of row) s.columns types []) _ h in
      let (rest, h₂, _) = >>=-eq-ok (write_rows (1 + 1) s.columns types keys' rows) _ h₁ in
      let first =
        first_line-IsRowLine s types (line_of row) (unlines b'\n' (map line_of rows))
          (schema_types-HasName s t) b (rw body_is at p) in
      rw body_is (
        read-unlines s types (line_of row) (map line_of rows) t (rw body_is at m)
          (lines-Lacks b'\n' (row ∷ rows) refl)
          (read_lines-cons s types 1 [] keys' row (map line_of rows) (schema_types_not_empty s t)
            first h₀
            (read_lines-map s types 2 keys' rows (schema_types_not_empty s t) (omega arith) h₂)))

  read_headed :
      (rows : List (List Text)) {body : Text}
      → schema_types s ≡ ok types
      → s.no_header ≡ false
      → write_rows 2 s.columns types [] rows ≡ ok body
      → has_prefix bom (header_line s.columns ++ body) ≡ false
      → read (header_line s.columns ++ body) s ≡ ok (map (map read_back) rows)
  unfolding join unlines contains_byte read_lines
  read_headed rows {body} t b h m =
      let fine = schema_types-HasName s t in
      let text_is : header_line s.columns ++ body
          ≡ unlines b'\n' (join b'\t' (names s.columns) ∷ map line_of rows) =
        rw (write_rows-unlines s types 2 [] rows h) (append_assoc _ (b'\n' ∷ []) _) in
      rw text_is (
        read-unlines s types (join b'\t' (names s.columns)) (map line_of rows) t (rw text_is at m)
          (
            join-Lacks b'\t' b'\n' (names s.columns) refl (names-Lacks b'\n' s.columns refl fine),
            lines-Lacks b'\n' rows refl,
          )
          (rw
            (
              read_line_header s types fine (schema_types_not_empty s t) b,
              read_lines-map s types 2 [] rows (schema_types_not_empty s t) (omega arith) h,
            )
            refl))

pub write-eq-ok :
    (s : Schema) (rows : List (List Text)) {text : Text}
    → write s rows ≡ ok text
    → (types : List FieldType) × (body : Text) × (schema_types s ≡ ok types)
      × (write_rows (if s.no_header then 1 else 2) s.columns types [] rows ≡ ok body)
      × (text ≡ (if s.no_header then body else header_line s.columns ++ body))
      × (has_prefix bom text ≡ false)
      × ((s.no_header && has_prefix (header_line s.columns) text) ≡ false)
unfolding write
write-eq-ok s rows h =
    let (types, t, h₁) = >>=-eq-ok (schema_types s) _ h in
    let (body, w, h₂) =
      >>=-eq-ok (write_rows (if s.no_header then 1 else 2) s.columns types [] rows) _ h₁ in
    (
      types,
      body,
      t,
      w,
      unfold finish_write in ground arith,
      unfold finish_write in ground arith,
      unfold finish_write in ground arith,
    )

-- What `Write` writes, `Read` reads: the rows come back, each value with its tabs, line feeds and
-- carriage returns as spaces, and the mark of the empty value as the empty value.
pub read-write :
    (s : Schema) (rows : List (List Text)) {text : Text}
    → write s rows ≡ ok text
    → read text s ≡ ok (map (map read_back) rows)
read-write s rows {text} h =
    let (types, body, t, w, text_is, m, p) = write-eq-ok s rows h in
    elim (Bool-cases s.no_header) [
      | inl b ↦
          let e : text ≡ body = rw b at text_is in
          rw e (read_headless s types rows t b (rw b at w) (rw e at m) (rw e at (rw b at p)))
      | inr b ↦
          let e : text ≡ header_line s.columns ++ body = rw b at text_is in
          rw e (read_headed s types rows t b (rw b at w) (rw e at m))
    ]
