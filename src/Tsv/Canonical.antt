-- ===== src/Tsv/Canonical.antt =====
-- A record that `Read` of internal/tsv takes has one form: `Write` writes it back byte for byte.
use mathlib.Core.Path.{ap₂}
use layup.Base.{
  ℕ, ◌+◌, ◌≡◌, ◌<◌, refl, false, List, [], ◌∷◌, ◌++◌, map, arith, All, is_empty, length, Result, ok,
  >>=-eq-ok,
}
use layup.Text.Split.{Lacks, split, join-split, split-Lacks, split-Lacks_of}
use layup.Text.{Text}
use layup.Text.Lines.{unlines, contains-Lacks}
use layup.Tsv.Schema.{Schema, Error, FieldType}
use layup.Tsv.Codec.{read_line, read_lines, write_rows, value_of, field_of}
use layup.Tsv.Row.{Keys, check_row}
use layup.Tsv.Rows.{IsRowLine, read_line-eq-ok}
use layup.Tsv.Conforms.{check_row-RowAllowed, RowAllowed-filled}
use layup.Tsv.Fields.{field-value}

map-field-value :
    (fs : List Text)
    → All (λ (f : Text). is_empty f ≡ false) fs
    → All (Lacks b'\t') fs
    → All (Lacks b'\n') fs
    → All (Lacks b'\r') fs
    → map field_of (map value_of fs) ≡ fs
map-field-value [] e h k m = refl
map-field-value (f ∷ fs) e h k m =
    ap₂ ◌∷◌ (field-value f e.0 h.0 k.0 m.0) (map-field-value fs e.1 h.1 k.1 m.1)

pub ok_injective {ℓ} : {A : Type ℓ} {a b : A} → ◌≡◌ {A = Result Error A} (ok a) (ok b) → a ≡ b
ok_injective h = cc

module _ (s : Schema) (types : List FieldType) (wide : length types ≡ length s.columns) where
  -- A row that was read gives its line back.
  map-field_of-read :
      (n : ℕ) (keys : Keys) (l : Text) {rows : List (List Text)} {keys' : Keys}
      → IsRowLine s types n keys l
      → Lacks b'\n' l
      → read_line s types n keys l ≡ ok (rows, keys')
      → (check_row n (split b'\t' l) s.columns types keys ≡ ok keys')
        × (rows ≡ map value_of (split b'\t' l) ∷ [])
        × (map field_of (map value_of (split b'\t' l)) ≡ split b'\t' l)
  map-field_of-read n keys l i lf h =
      let (cr, filled, checked, row_is) = read_line-eq-ok s types n keys l i h in
      (
        checked,
        row_is,
        map-field-value (split b'\t' l)
            (RowAllowed-filled s.columns types (split b'\t' l)
              (check_row-RowAllowed n (split b'\t' l) s.columns types keys wide checked))
            (split-Lacks b'\t' l) (split-Lacks_of b'\t' b'\n' l lf)
            (split-Lacks_of b'\t' b'\r' l (contains-Lacks b'\r' l cr)),
      )

  pub write_rows-cons :
      (n : ℕ) (keys : Keys) (l : Text) {rows : List (List Text)} {keys' : Keys}
      (later : List (List Text)) {t : Text}
      → IsRowLine s types n keys l
      → Lacks b'\n' l
      → read_line s types n keys l ≡ ok (rows, keys')
      → write_rows (n + 1) s.columns types keys' later ≡ ok t
      → write_rows n s.columns types keys (rows ++ later) ≡ ok (l ++ (b'\n' ∷ t))
  unfolding write_rows
  write_rows-cons n keys l later i lf h w =
      let (checked, row_is, back) = map-field_of-read n keys l i lf h in
      rw row_is (rw (back, checked, w, join-split b'\t' l) refl)

  pub write_rows-read :
      (n : ℕ) (keys : Keys) (ls : List Text) {rows : List (List Text)}
      → 1 < n
      → All (Lacks b'\n') ls
      → read_lines s types n keys ls ≡ ok rows
      → write_rows n s.columns types keys rows ≡ ok (unlines b'\n' ls)
  unfolding read_lines unlines
  write_rows-read n keys [] p a h = rw (← (ok_injective h)) (unfold write_rows in refl)
  write_rows-read n keys (l ∷ ls) p a h =
      let ((rows, keys'), h₀, h₁) = >>=-eq-ok (read_line s types n keys l) _ h in
      let (rest, h₂, h₃) = >>=-eq-ok (read_lines s types (n + 1) keys' ls) _ h₁ in
      rw (← (ok_injective h₃)) (
        write_rows-cons n keys l rest (ground arith, ground arith) a.0 h₀
          (write_rows-read (n + 1) keys' ls (omega arith) a.1 h₂))
