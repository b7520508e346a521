-- ===== src/Handoff/Tables.antt =====
-- The checks of a transition table in internal/handoff/table.go.
use layup.Base.{
  ℕ, ◌+◌, true, false, not, ◌&&◌, ◌≡◌, ◌↔◌, refl, List, [], ◌∷◌, any, All, arith, inl, inr,
  Bool-cases, ok, refuse_if, >>=-eq-ok, refuse_if-eq-ok,
}
use layup.Members.{In, member_iff, Exists, any_iff}
use layup.Text.{Text, codes, text_eq, text_eq_iff, member}
use layup.Handoff.Table.{
  Row, default_rows, is_pair, check_row, rendered_from, row_error, check_rows, check_defaults,
  check_table, twice, rendered_schema, missing_pair,
}

-- The table has a row of the pair.
abbrev pub HasPair : List Row → Text → Text → Type 0
HasPair rows f t = Exists (λ (r : Row). (r.from ≡ f) × (r.to ≡ t)) rows

is_pair_iff : (f t : Text) (r : Row) → (is_pair f t r ≡ true) ↔ ((r.from ≡ f) × (r.to ≡ t))
unfolding is_pair
is_pair_iff f t r = ground (arith, text_eq_iff r.from f, text_eq_iff r.to t)

pub HasPair-iff :
    (f t : Text) (rows : List Row) → (any (is_pair f t) rows ≡ true) ↔ HasPair rows f t
HasPair-iff f t = any_iff (is_pair f t) (is_pair_iff f t)

-- The rows differ in their pairs, in those of `seen` too.
abbrev pub Apart : List Row → List Row → Type 0
Apart seen [] = Unit
Apart seen (r ∷ rows) = (HasPair seen r.from r.to → ⊥) × Apart (r ∷ seen) rows

-- A row that `checkRow` takes, and that does not ask code's own handoff for a typed result.
abbrev pub RowFits : Row → Type 0
RowFits r = (check_row r ≡ ok tt) × ((r.from ≡ rendered_from) → In (codes "schema") r.items → ⊥)

pub check_rows_sound :
    (i : ℕ) (seen rows : List Row)
    → check_rows i seen rows ≡ ok tt
    → All RowFits rows × Apart seen rows
unfolding check_rows row_error
check_rows_sound i seen [] h = (tt, tt)
check_rows_sound i seen (r ∷ rows) h =
    let (a, h₀, h₁) = >>=-eq-ok (row_error i (check_row r)) _ h in
    let (b, h₂, h₃) =
      >>=-eq-ok
        (refuse_if (text_eq r.from rendered_from && member (codes "schema") r.items)
          (rendered_schema i))
        _ h₁ in
    let (c, h₄, h₅) = >>=-eq-ok (refuse_if (any (is_pair r.from r.to) seen) (twice i)) _ h₃ in
    let (fits, apart) = check_rows_sound (i + 1) (r ∷ seen) rows h₅ in
    let no_schema = refuse_if-eq-ok _ _ h₂ in
    let new = refuse_if-eq-ok _ _ h₄ in
    (
      (
        (
          ground arith,
          λ e m.
              let e' = (text_eq_iff r.from rendered_from).1 e in
              let m' = (member_iff (codes "schema") r.items).1 m in ground arith,
        ),
        fits,
      ),
      ((λ p. let p' = (HasPair-iff r.from r.to seen).1 p in cc), apart),
    )

check_rows_complete :
    (i : ℕ) (seen rows : List Row)
    → All RowFits rows
    → Apart seen rows
    → check_rows i seen rows ≡ ok tt
unfolding check_rows row_error
check_rows_complete i seen [] f a = refl
check_rows_complete i seen (r ∷ rows) f a =
    let no_schema : (text_eq r.from rendered_from && member (codes "schema") r.items) ≡ false =
      elim (Bool-cases (text_eq r.from rendered_from && member (codes "schema") r.items)) [
        | inl e ↦ absurd (
            f.0.1 ((text_eq_iff r.from rendered_from).0 (ground arith))
              ((member_iff (codes "schema") r.items).0 (ground arith)))
        | inr e ↦ e
      ] in
    let new : any (is_pair r.from r.to) seen ≡ false =
      elim (Bool-cases (any (is_pair r.from r.to) seen)) [
        | inl e ↦ absurd (a.0 ((HasPair-iff r.from r.to seen).0 e))
        | inr e ↦ e
      ] in
    rw (f.0.0, no_schema, new) (check_rows_complete (i + 1) (r ∷ seen) rows f.1 a.1)

check_defaults_iff :
    (rows ds : List Row)
    → (check_defaults rows ds ≡ ok tt) ↔ All (λ (d : Row). HasPair rows d.from d.to) ds
unfolding check_defaults
check_defaults_iff rows [] = ((λ h. tt), (λ h. refl))
check_defaults_iff rows (d ∷ ds) =
    let p = HasPair-iff d.from d.to rows in
    (
      (λ h.
          let (u, h₀, h₁) =
            >>=-eq-ok (refuse_if (not (any (is_pair d.from d.to) rows)) (missing_pair d.from d.to))
              _ h in
          let has = refuse_if-eq-ok _ _ h₀ in
          (p.0 (ground arith), (check_defaults_iff rows ds).0 h₁)),
      (λ a. rw (p.1 a.0) ((check_defaults_iff rows ds).1 a.1)),
    )

-- `CheckTable` takes a table exactly when each row has known words, and no schema where code itself
-- writes the handoff, no pair is listed twice, and each default pair has its row.
pub check_table_iff :
    (rows : List Row)
    → (check_table rows ≡ ok tt) ↔ (
        All RowFits rows × Apart [] rows × All (λ (d : Row). HasPair rows d.from d.to) default_rows)
unfolding check_table
check_table_iff rows = (
  (λ h.
      let (u, h₀, h₁) = >>=-eq-ok (check_rows 1 [] rows) _ h in
      let (fits, apart) = check_rows_sound 1 [] rows h₀ in
      (fits, apart, (check_defaults_iff rows default_rows).0 h₁)),
  (λ t. rw (check_rows_complete 1 [] rows t.0 t.1) ((check_defaults_iff rows default_rows).1 t.2)),
)
