-- ===== src/Handoff/Table.antt =====
-- internal/handoff/table.go: the transition table of the task loop.
use layup.Base.{
  ℕ, ◌+◌, Bool, not, ◌&&◌, List, [], ◌∷◌, ◌++◌, Option, none, some, if◌then◌else◌, any, is_empty,
  Result, ok, err, ◌>>◌, refuse_if,
}
use layup.Text.{Text, codes, text_eq, member}

pub record Row : Type 0 where
  pub from : Text
  pub to : Text
  pub artifacts : List Text
  pub items : List Text

-- The variables `kinds` and `items`.
abbrev pub kinds : List Text
kinds =
    codes "plan"
    ∷ codes "plan-review"
    ∷ codes "review-record"
    ∷ codes "task-file"
    ∷ codes "commits"
    ∷ codes "rows"
    ∷ codes "patch"
    ∷ codes "rendering"
    ∷ codes "question"
    ∷ codes "answer"
    ∷ []

abbrev pub item_names : List Text
item_names =
    codes "schema"
    ∷ codes "artifacts"
    ∷ codes "plan-fields"
    ∷ codes "verdict-field"
    ∷ codes "tests-red-green"
    ∷ codes "spec-sections"
    ∷ codes "patch-per-kind"
    ∷ codes "register-rows"
    ∷ codes "rendering-equal"
    ∷ codes "nothing-material"
    ∷ codes "findings-located"
    ∷ codes "heading-ids"
    ∷ codes "question-row"
    ∷ codes "answer-row"
    ∷ codes "reject-reasons"
    ∷ []

abbrev schema_and_artifacts : List Text → List Text
schema_and_artifacts rest = codes "schema" ∷ codes "artifacts" ∷ rest

abbrev row : Text → Text → List Text → List Text → Row
row f t a i = record { from = f; to = t; artifacts = a; items = i }

-- `Default`.
unfoldable pub default_rows : List Row
default_rows =
    row (codes "task plan") (codes "plan review") (codes "plan" ∷ [])
      (schema_and_artifacts (codes "plan-fields" ∷ []))
    ∷ row (codes "plan review") (codes "developer") (codes "plan-review" ∷ [])
        (schema_and_artifacts (codes "verdict-field" ∷ []))
    ∷ row (codes "developer (build task)") (codes "verifier")
        (codes "commits" ∷ codes "task-file" ∷ [])
        (schema_and_artifacts (codes "tests-red-green" ∷ []))
    ∷ row (codes "developer (specification)") (codes "verifier")
        (codes "commits" ∷ codes "task-file" ∷ [])
        (schema_and_artifacts (codes "spec-sections" ∷ []))
    ∷ row (codes "developer (architecture)") (codes "verifier")
        (codes "commits" ∷ codes "task-file" ∷ []) (schema_and_artifacts [])
    ∷ row (codes "developer (rule batch)") (codes "verifier")
        (codes "commits" ∷ codes "task-file" ∷ codes "patch" ∷ [])
        (schema_and_artifacts (codes "patch-per-kind" ∷ []))
    ∷ row (codes "developer (milestone plan)") (codes "verifier") (codes "rows" ∷ [])
        (schema_and_artifacts (codes "register-rows" ∷ []))
    ∷ row (codes "code (rendered task)") (codes "verifier") (codes "rendering" ∷ [])
        (codes "artifacts" ∷ codes "rendering-equal" ∷ [])
    ∷ row (codes "verifier") (codes "close-out") (codes "review-record" ∷ [])
        (schema_and_artifacts (codes "nothing-material" ∷ []))
    ∷ row (codes "verifier") (codes "developer") (codes "review-record" ∷ [])
        (schema_and_artifacts (codes "findings-located" ∷ []))
    ∷ row (codes "specification") (codes "milestone plan") (codes "task-file" ∷ [])
        (codes "artifacts" ∷ codes "heading-ids" ∷ [])
    ∷ row (codes "asking role") (codes "owner role") (codes "question" ∷ [])
        (codes "schema" ∷ codes "question-row" ∷ [])
    ∷ row (codes "owner role") (codes "asking role") (codes "answer" ∷ [])
        (codes "schema" ∷ codes "answer-row" ∷ [])
    ∷ row (codes "plan review") (codes "task plan") (codes "plan-review" ∷ [])
        (schema_and_artifacts (codes "reject-reasons" ∷ []))
    ∷ []

-- Whether a row is of the pair, and the first such row of a table.
unfoldable pub is_pair : Text → Text → Row → Bool
is_pair f t r = text_eq r.from f && text_eq r.to t

unfoldable pub find_row : Text → Text → List Row → Option Row
find_row f t [] = none
find_row f t (r ∷ rows) = if is_pair f t r then some r else find_row f t rows

abbrev pub later_pairs : List (Text × Text)
later_pairs = (codes "plan review", codes "task plan") ∷ []

-- One round of `InForce`, and its loop.
unfoldable pub add_later : List Row → List Row → Text × Text → List Row
add_later rows out (f, t) =
    if any (is_pair f t) rows
    then out
    else elim (find_row f t default_rows) [ none ↦ out | some r ↦ out ++ (r ∷ []) ]

unfoldable pub add_laters : List Row → List Row → List (Text × Text) → List Row
add_laters rows out [] = out
add_laters rows out (p ∷ ps) = add_laters rows (add_later rows out p) ps

unfoldable pub in_force : List Row → List Row
unfolding add_later add_laters
in_force rows = add_laters rows rows later_pairs

-- Why `checkRow` refuses a row, and why `CheckTable` refuses a table.
pub data RowReason : Type 0 where
  no_artifacts : RowReason
  no_items : RowReason
  unknown_kind : Text → RowReason
  unknown_item : Text → RowReason

pub data TableReason : Type 0 where
  bad_row : ℕ → RowReason → TableReason
  rendered_schema : ℕ → TableReason
  twice : ℕ → TableReason
  missing_pair : Text → Text → TableReason

unfoldable pub check_words :
    List Text → (Text → RowReason) → List Text → Result RowReason (Unit {0})
check_words known reason [] = ok tt
check_words known reason (w ∷ ws) = do
  refuse_if (not (member w known)) (reason w)
  check_words known reason ws

-- `checkRow`.
unfoldable pub check_row : Row → Result RowReason (Unit {0})
unfolding check_words
check_row r = do
  refuse_if (is_empty r.artifacts) no_artifacts
  refuse_if (is_empty r.items) no_items
  check_words kinds unknown_kind r.artifacts
  check_words item_names unknown_item r.items

abbrev pub rendered_from : Text
rendered_from = codes "code (rendered task)"

-- The error of a row, with its place.
unfoldable pub row_error : ℕ → Result RowReason (Unit {0}) → Result TableReason (Unit {0})
row_error i (ok u) = ok tt
row_error i (err e) = err (bad_row i e)

-- The first loop of `CheckTable`: row `i` from 1, and the rows seen before it.
unfoldable pub check_rows : ℕ → List Row → List Row → Result TableReason (Unit {0})
check_rows i seen [] = ok tt
check_rows i seen (r ∷ rows) = do
  row_error i (check_row r)
  refuse_if (text_eq r.from rendered_from && member (codes "schema") r.items) (rendered_schema i)
  refuse_if (any (is_pair r.from r.to) seen) (twice i)
  check_rows (i + 1) (r ∷ seen) rows

-- The second loop of `CheckTable`.
unfoldable pub check_defaults : List Row → List Row → Result TableReason (Unit {0})
check_defaults rows [] = ok tt
check_defaults rows (d ∷ ds) = do
  refuse_if (not (any (is_pair d.from d.to) rows)) (missing_pair d.from d.to)
  check_defaults rows ds

unfoldable pub check_table : List Row → Result TableReason (Unit {0})
check_table rows = do check_rows 1 [] rows; check_defaults rows default_rows
