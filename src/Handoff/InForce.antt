-- ===== src/Handoff/InForce.antt =====
-- The rows in force of a transition table, by internal/handoff/table.go.
use layup.Base.{
  true, false, ◌≡◌, ◌⊎◌, refl, List, [], ◌∷◌, ◌++◌, some, any, All, inl, inr, Bool-cases, ok,
}
use layup.Text.{Text, codes, text_eq}
use layup.Handoff.Table.{
  Row, default_rows, is_pair, find_row, in_force, add_later, check_row, check_table,
}
use layup.Handoff.Tables.{HasPair, HasPair-iff, Apart, RowFits, check_table_iff}

-- The default row of the one later pair.
abbrev reject_row : Row
reject_row = record {
  from = codes "plan review";
  to = codes "task plan";
  artifacts = codes "plan-review" ∷ [];
  items = codes "schema" ∷ codes "artifacts" ∷ codes "reject-reasons" ∷ [];
}

find_reject : find_row reject_row.from reject_row.to default_rows ≡ some reject_row
unfolding find_row default_rows is_pair text_eq
find_reject = refl

add_later_kept :
    (rows : List Row)
    → any (is_pair reject_row.from reject_row.to) rows ≡ true
    → add_later rows rows (reject_row.from, reject_row.to) ≡ rows
unfolding add_later
add_later_kept rows e = rw e refl

add_later_new :
    (rows : List Row)
    → any (is_pair reject_row.from reject_row.to) rows ≡ false
    → add_later rows rows (reject_row.from, reject_row.to) ≡ rows ++ (reject_row ∷ [])
unfolding add_later
add_later_new rows e = rw (e, find_reject) refl

in_force_cases :
    (rows : List Row)
    → ((HasPair rows reject_row.from reject_row.to) × (in_force rows ≡ rows))
      ⊎ ((HasPair rows reject_row.from reject_row.to → ⊥)
          × (in_force rows ≡ rows ++ (reject_row ∷ [])))
in_force_cases rows =
    let p = HasPair-iff reject_row.from reject_row.to rows in
    elim (Bool-cases (any (is_pair reject_row.from reject_row.to) rows)) [
      | inl e ↦ inl (p.0 e, (unfold in_force in rw (add_later_kept rows e) refl))
      | inr e ↦ inr ((λ h. cc (p.1 h, e)), (unfold in_force in rw (add_later_new rows e) refl))
    ]

HasPair-append : (rows more : List Row) (f t : Text) → HasPair rows f t → HasPair (rows ++ more) f t
HasPair-append (r ∷ rows) more f t (inl e) = inl e
HasPair-append (r ∷ rows) more f t (inr h) = inr (HasPair-append rows more f t h)
HasPair-append [] more f t h = absurd h

HasPair-last : (rows : List Row) (d : Row) → HasPair (rows ++ (d ∷ [])) d.from d.to
HasPair-last [] d = inl (refl, refl)
HasPair-last (r ∷ rows) d = inr (HasPair-last rows d)

All-concat {ℓ} :
    {A : Type ℓ} (P : A → Type 0) (xs : List A) (d : A) → All P xs → P d → All P (xs ++ (d ∷ []))
All-concat P [] d a h = (h, tt)
All-concat P (x ∷ xs) d a h = (a.0, All-concat P xs d a.1 h)

Apart-concat :
    (seen rows : List Row) (d : Row)
    → Apart seen rows
    → (HasPair seen d.from d.to → ⊥)
    → (HasPair rows d.from d.to → ⊥)
    → Apart seen (rows ++ (d ∷ []))
Apart-concat seen [] d a n m = (n, tt)
Apart-concat seen (r ∷ rows) d a n m = (
  a.0,
  Apart-concat (r ∷ seen) rows d a.1 (λ h. elim h [ inl e ↦ m (inl e) | inr h' ↦ n h' ])
      (λ h. m (inr h)),
)

reject_row-RowFits : RowFits reject_row
unfolding check_row text_eq
reject_row-RowFits = (refl, (λ e m. cc))

abbrev pub IsLater : Row → Type 0
IsLater d = (d.from ≡ reject_row.from) × (d.to ≡ reject_row.to)

has_defaults :
    (rows ds : List Row)
    → All (λ (d : Row). IsLater d ⊎ HasPair rows d.from d.to) ds
    → HasPair rows reject_row.from reject_row.to
    → All (λ (d : Row). HasPair rows d.from d.to) ds
has_defaults rows [] a h = tt
has_defaults rows (d ∷ ds) a h =
    (elim a.0 [ inl l ↦ rw (l.0, l.1) h | inr p ↦ p ], has_defaults rows ds a.1 h)

weaken :
    (rows ds : List Row)
    → All (λ (d : Row). IsLater d ⊎ HasPair rows d.from d.to) ds
    → All (λ (d : Row). IsLater d ⊎ HasPair (rows ++ (reject_row ∷ [])) d.from d.to) ds
weaken rows [] a = tt
weaken rows (d ∷ ds) a = (
  elim a.0 [ inl l ↦ inl l | inr p ↦ inr (HasPair-append rows (reject_row ∷ []) d.from d.to p) ],
  weaken rows ds a.1,
)

-- A table that has each default pair but the one that came later, whose rows `checkRow` takes and
-- that lists no pair twice: the rows in force are a table that `CheckTable` takes.
pub in_force-check_table :
    (rows : List Row)
    → All RowFits rows
    → Apart [] rows
    → All (λ (d : Row). IsLater d ⊎ HasPair rows d.from d.to) default_rows
    → check_table (in_force rows) ≡ ok tt
in_force-check_table rows fits apart has = elim (in_force_cases rows) [
  | inl (p, e) ↦ rw e ((check_table_iff rows).1 (fits, apart, has_defaults rows default_rows has p))
  | inr (n, e) ↦
      let more = rows ++ (reject_row ∷ []) in
      rw e (
        (check_table_iff more).1 (
          All-concat RowFits rows reject_row fits reject_row-RowFits,
          Apart-concat [] rows reject_row apart (λ h. h) n,
          has_defaults more default_rows (weaken rows default_rows has)
              (HasPair-last rows reject_row),
        ))
]

-- `InForce` adds nothing to the rows in force.
pub in_force_idem : (rows : List Row) → in_force (in_force rows) ≡ in_force rows
in_force_idem rows = elim (in_force_cases rows) [
  | inl (p, e) ↦ rw (e, e) refl
  | inr (n, e) ↦ rw e (elim (in_force_cases (rows ++ (reject_row ∷ []))) [
    | inl (p, e') ↦ e'
    | inr (n', e') ↦ absurd (n' (HasPair-last rows reject_row))
  ])
]
