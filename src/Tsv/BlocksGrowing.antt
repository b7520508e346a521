-- ===== src/Tsv/BlocksGrowing.antt =====
-- internal/tsv/block.go: what the lines of a block leave in its schema.
use mathlib.Core.Path.{subst}
use layup.Base.{
  ℕ, ◌≡◌, ◌≢◌, ◌⊎◌, inl, inr, Bool, true, false, List, [], ◌∷◌, ◌++◌, some, arith, any, is_empty,
  All, ok, >>=-eq-ok, Bool-cases, Option-cases, Result-cases,
}
use layup.Text.{Text, codes, text_eq, text_eq_iff, contains_byte, cut_byte, member}
use layup.Members.{In, member_iff}
use layup.Tsv.Schema.{Schema, Column, FieldType}
use layup.Tsv.Types.{parse_type}
use layup.Tsv.Types.Simple.{valid_path}
use layup.Tsv.Blocks.{
  blank, Block, check_location, head_of, head_words, block_head, column_of, check_column,
  column_line,
}

abbrev pub prefixes : List Text
prefixes = codes "records" ∷ codes "target" ∷ codes "layup" ∷ codes "host" ∷ []

-- A location is stdout, or a prefix before a path below a root.
abbrev pub IsLocation : Text → Type 0
IsLocation l =
    (l ≡ codes "stdout")
    ⊎ ((prefix : Text) × (path : Text) × (l ≡ prefix ++ (b':' ∷ path))
        × In prefix prefixes
        × (path ≢ codes ".")
        × (valid_path path ≡ true))

-- A column has a rule and a type of the closed list.
abbrev pub IsColumn : Column → Type 0
IsColumn c = (c.rule ≢ []) × ((t : FieldType) × (parse_type c.type_expr ≡ ok t))

abbrev pub Distinct : List Column → Type 0
Distinct [] = Unit
Distinct (c ∷ cs) = All (λ d. c.name ≢ d.name) cs × Distinct cs

pub record Growing (s : Schema) : Type 0 where
  pub location : IsLocation s.location
  pub columns : All IsColumn s.columns
  pub distinct : Distinct s.columns

-- What a block that is read holds: it has a column too.
pub record IsBlock (b : Block) : Type 0 where
  pub schema : Growing b.schema
  pub not_empty : b.schema.columns ≢ []

pub cut_byte-some : (c : ℕ) (t : Text) {a b : Text} → cut_byte c t ≡ some (a, b) → t ≡ a ++ (c ∷ b)
unfolding cut_byte
cut_byte-some c [] e = cc
cut_byte-some c (x ∷ t) e = elim (Option-cases (cut_byte c t)) [
  | inl absent ↦ ground arith
  | inr ((a', b'), found) ↦ ground (arith, cut_byte-some c t found)
]

check_location-IsLocation : (l : Text) → check_location l ≡ ok tt → IsLocation l
unfolding check_location
check_location-IsLocation l e = elim (Bool-cases (text_eq l (codes "stdout"))) [
  | inl out ↦ inl ((text_eq_iff l (codes "stdout")).0 out)
  | inr other ↦ elim (Option-cases (cut_byte b':' l)) [
    | inl absent ↦ absurd (ground arith)
    | inr ((prefix, path), found) ↦ elim (Bool-cases (member prefix prefixes)) [
      | inr strange ↦ absurd (ground arith)
      | inl known ↦ elim (Bool-cases (text_eq path (codes "."))) [
        | inl dot ↦ absurd (ground arith)
        | inr no_dot ↦ inr (
          prefix,
          path,
          cut_byte-some b':' l found,
          (member_iff prefix prefixes).0 known,
          (λ same. absurd (cc (no_dot, (text_eq_iff path (codes ".")).1 same))),
          ground arith,
        )
      ]
    ]
  ]
]

head_of-Growing :
    (name location : Text) (headless : Bool) {s : Schema}
    → head_of name location headless ≡ ok s
    → Growing s
unfolding head_of
head_of-Growing name location headless {s} e =
    let (u, fine, made) = >>=-eq-ok (check_location location) _ e in
    let same : record { name = name; location = location; no_header = headless; columns = [] } ≡ s =
      cc in
    subst Growing same
      (record { location = check_location-IsLocation location fine; columns = tt; distinct = tt })

head_words-Growing : (w : List Text) {s : Schema} → head_words w ≡ ok s → Growing s
unfolding head_words
head_words-Growing [] e = cc
head_words-Growing (a ∷ []) e = cc
head_words-Growing (a ∷ b ∷ []) e = cc
head_words-Growing (a ∷ b ∷ c ∷ []) e = head_of-Growing b c false e
head_words-Growing (a ∷ b ∷ c ∷ d ∷ []) e = elim (Bool-cases (text_eq d (codes "no-header"))) [
  | inl marked ↦ head_of-Growing b c true (rw marked at e)
  | inr other ↦ absurd (ground arith)
]
head_words-Growing (a ∷ b ∷ c ∷ d ∷ f ∷ w) e = cc

pub block_head-Growing : (w : List Text) (l : Text) {s : Schema} → block_head w l ≡ ok s → Growing s
unfolding block_head
block_head-Growing w l e = elim (Bool-cases (contains_byte b'\t' l)) [
  | inl tab ↦ absurd (ground arith)
  | inr plain ↦ head_words-Growing w (rw (block_head, plain) at e)
]

-- What the checks of a column line leave.
check_column-ok :
    (s : Schema) (l : Text) (c : Column) (key : Text)
    → check_column s l c key ≡ ok tt
    → IsColumn c × (any (λ d. text_eq d.name c.name) s.columns ≡ false)
unfolding check_column
check_column-ok s l c key e = elim (Bool-cases (contains_byte b'\t' l)) [
  | inl tab ↦ absurd (ground arith)
  | inr no_tab ↦ elim (Bool-cases (blank l)) [
    | inl empty ↦ absurd (ground arith)
    | inr full ↦ elim (Bool-cases (is_empty c.rule)) [
      | inl no_rule ↦ absurd (ground arith)
      | inr rule ↦ elim (Result-cases (parse_type c.type_expr)) [
        | inr (why, bad) ↦ absurd (ground arith)
        | inl (t, listed) ↦ (((λ none_there. absurd (ground arith)), (t, listed)), ground arith)
      ]
    ]
  ]
]

pub All-append {ℓ κ} :
    {A : Type ℓ} (P : A → Type κ) (xs : List A) (y : A) → All P xs → P y → All P (xs ++ (y ∷ []))
All-append P [] y h p = (p, tt)
All-append P (x ∷ xs) y h p = (h.0, All-append P xs y h.1 p)

Distinct-append :
    (cs : List Column) (c : Column)
    → Distinct cs
    → any (λ d. text_eq d.name c.name) cs ≡ false
    → Distinct (cs ++ (c ∷ []))
Distinct-append [] c h n = (tt, tt)
Distinct-append (d ∷ cs) c h n = (
  All-append (λ x. d.name ≢ x.name) cs c h.0
      (λ same. absurd (ground (arith, text_eq_iff d.name c.name))),
  Distinct-append cs c h.1 (ground arith),
)

pub column_line-Growing :
    (s : Schema) (l : Text) {s' : Schema} → Growing s → column_line s l ≡ ok s' → Growing s'
unfolding column_line
column_line-Growing s l {s'} g e =
    let c = (column_of l).0 in
    let key = (column_of l).1 in
    let (u, fine, made) = >>=-eq-ok (check_column s l c key) _ e in
    let (is_column, fresh) = check_column-ok s l c key fine in
    let same : record s { columns = s.columns ++ (c ∷ []) } ≡ s' = cc in
    subst Growing same (record {
      location = g.location;
      columns = All-append IsColumn s.columns c g.columns is_column;
      distinct = Distinct-append s.columns c g.distinct fresh;
    })
