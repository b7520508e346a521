-- ===== src/Tsv/Comparing.antt =====
-- internal/tsv/block.go: `Compare` finds no difference exactly when the schemas are the same but for
-- their rules.
use layup.Base.{
  ℕ, suc, ◌+◌, ◌≡◌, ◌↔◌, refl, ap, Bool, true, false, List, [], ◌∷◌, ◌++◌, arith, ◌==◌, ==_iff,
  length, map,
}
use layup.Text.{text_eq, text_eq_iff}
use layup.Tsv.Schema.{Schema, Column}
use layup.Tsv.Compare.{Difference, differ, same_bool, compare_columns, compare_schemas}

-- A column and a schema without the rules in words.
abbrev pub no_rule : Column → Column
no_rule c = record c { rule = [] }

abbrev pub no_rules : Schema → Schema
no_rules s = record s { columns = map no_rule s.columns }

differ-nil :
    (b : Bool) (d : Difference) (rest : List Difference)
    → differ b d ++ rest ≡ []
    → (b ≡ true) × (rest ≡ [])
differ-nil true d rest e = (refl, e)
differ-nil false d rest e = cc

same_bool_iff : (a b : Bool) → (same_bool a b ≡ true) ↔ (a ≡ b)
same_bool_iff true b = ground arith
same_bool_iff false b = ground arith

compare_columns-same :
    (j : ℕ) (bs gs : List Column)
    → length bs ≡ length gs
    → compare_columns j bs gs ≡ []
    → map no_rule bs ≡ map no_rule gs
unfolding compare_columns
compare_columns-same j [] [] n e = refl
compare_columns-same j [] (g ∷ gs) n e = absurd (omega arith)
compare_columns-same j (b ∷ bs) [] n e = absurd (omega arith)
compare_columns-same j (b ∷ bs) (g ∷ gs) n e =
    let (names, e₁) = differ-nil (text_eq b.name g.name) _ _ e in
    let (types, e₂) = differ-nil (text_eq b.type_expr g.type_expr) _ _ e₁ in
    let (keys, e₃) = differ-nil (same_bool b.key g.key) _ _ e₂ in
    ground (
      arith,
      (text_eq_iff b.name g.name).0 names,
      (text_eq_iff b.type_expr g.type_expr).0 types,
      (same_bool_iff b.key g.key).0 keys,
      compare_columns-same (j + 1) bs gs (omega arith) e₃,
    )

same-compare_columns :
    (j : ℕ) (bs gs : List Column) → map no_rule bs ≡ map no_rule gs → compare_columns j bs gs ≡ []
unfolding compare_columns
same-compare_columns j [] gs e = refl
same-compare_columns j (b ∷ bs) [] e = refl
same-compare_columns j (b ∷ bs) (g ∷ gs) e =
    let heads : no_rule b ≡ no_rule g = cc in
    let rests : map no_rule bs ≡ map no_rule gs = cc in
    rw
      (
        (text_eq_iff b.name g.name).1 (ap (λ c. c.name) heads),
        (text_eq_iff b.type_expr g.type_expr).1 (ap (λ c. c.type_expr) heads),
        (same_bool_iff b.key g.key).1 (ap (λ c. c.key) heads),
      )
      (same-compare_columns (j + 1) bs gs rests)

length-same : (bs gs : List Column) → map no_rule bs ≡ map no_rule gs → length bs ≡ length gs
length-same [] [] e = refl
length-same [] (g ∷ gs) e = cc
length-same (b ∷ bs) [] e = cc
length-same (b ∷ bs) (g ∷ gs) e = ap suc (length-same bs gs (cc))

compare-same : (b s : Schema) → compare_schemas b s ≡ [] → no_rules b ≡ no_rules s
unfolding compare_schemas
compare-same b s e =
    let (names, e₁) = differ-nil (text_eq b.name s.name) _ _ e in
    let (locations, e₂) = differ-nil (text_eq b.location s.location) _ _ e₁ in
    let (headers, e₃) = differ-nil (same_bool b.no_header s.no_header) _ _ e₂ in
    let (numbers, e₄) = differ-nil (length b.columns == length s.columns) _ _ e₃ in
    ground (
      arith,
      (text_eq_iff b.name s.name).0 names,
      (text_eq_iff b.location s.location).0 locations,
      (same_bool_iff b.no_header s.no_header).0 headers,
      compare_columns-same 1 b.columns s.columns
          ((==_iff (length b.columns) (length s.columns)).0 numbers) e₄,
    )

same-compare : (b s : Schema) → no_rules b ≡ no_rules s → compare_schemas b s ≡ []
unfolding compare_schemas
same-compare b s e =
    let columns : map no_rule b.columns ≡ map no_rule s.columns = ap (λ z. z.columns) e in
    rw
      (
        (text_eq_iff b.name s.name).1 (ap (λ z. z.name) e),
        (text_eq_iff b.location s.location).1 (ap (λ z. z.location) e),
        (same_bool_iff b.no_header s.no_header).1 (ap (λ z. z.no_header) e),
        (==_iff (length b.columns) (length s.columns)).1 (length-same b.columns s.columns columns),
      )
      (same-compare_columns 1 b.columns s.columns columns)

-- `Compare` finds no difference between a block and a schema exactly when the two are equal but for
-- the rules of their columns.
pub compare_iff : (b s : Schema) → (compare_schemas b s ≡ []) ↔ (no_rules b ≡ no_rules s)
compare_iff b s = (compare-same b s, same-compare b s)
