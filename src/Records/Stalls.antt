-- ===== src/Records/Stalls.antt =====
-- internal/records/records.go: the record of stalls, its rules of a row and of the order of rows.
use layup.Base.{
  ℕ, suc, Bool, true, false, not, ◌&&◌, ◌||◌, List, [], ◌∷◌, ◌++◌, Option, none, some, ltb, ◌==◌,
  if◌then◌else◌, is_empty, Result, ok, err, ◌>>◌,
}
use layup.Text.{Text, codes, text_eq, member}
use layup.Text.Numbers.{decimal_text}
use layup.Tsv.Schema.{Schema, Column, Error}
use layup.Tsv.Codec.{read}
use layup.Records.Fields.{
  fields, missing, session_form, RowError, RecordError, of_codec, of_rule, check_each,
}

abbrev column : Text → Text → Bool → Column
column name type_expr key = record { name = name; type_expr = type_expr; key = key; rule = [] }

abbrev pub stalls_schema : Schema
stalls_schema = record {
  name = codes "stalls";
  location = codes "records:stalls.tsv";
  no_header = false;
  columns =
      column (codes "stall") (codes "id(ST-NNN)") true
      ∷ column (codes "kind") (codes "enum(stall|diagnosis|diagnosis-failed|outcome)") true
      ∷ column (codes "time") (codes "time") false
      ∷ column (codes "task") (codes "text") false
      ∷ column (codes "trigger")
          (codes "enum(no-progress|too-many-rounds|hang|no-report|orchestrator)") false
      ∷ column (codes "evidence") (codes "sha256") false
      ∷ column (codes "cause")
          (codes
            "enum(disagreement|missing-information|wrong-gate|harness-failure|task-too-large|other)")
          false
      ∷ column (codes "rung") (codes "enum(retry|panel|operator)") false
      ∷ column (codes "examiner") (codes "text") false
      ∷ column (codes "outcome")
          (codes "enum(closed-without-human|closed-by-operator|task-stopped)") false
      ∷ column (codes "note") (codes "text") false
      ∷ [];
}

-- `stallKinds`: the columns of a kind; the map gives none for another kind.
unfoldable pub stall_kinds : Text → List Text
stall_kinds kind =
    if text_eq kind (codes "stall")
    then codes "trigger" ∷ codes "evidence" ∷ []
    else if text_eq kind (codes "diagnosis")
    then codes "evidence" ∷ codes "cause" ∷ codes "rung" ∷ codes "examiner" ∷ []
    else if text_eq kind (codes "diagnosis-failed")
    then codes "note" ∷ []
    else if text_eq kind (codes "outcome")
    then codes "outcome" ∷ codes "note" ∷ []
    else []

abbrev pub stall_kind_columns : List Text
stall_kind_columns =
    codes "trigger"
    ∷ codes "evidence"
    ∷ codes "cause"
    ∷ codes "rung"
    ∷ codes "examiner"
    ∷ codes "outcome"
    ∷ codes "note"
    ∷ []

pub data StallReason : Type 0 where
  never_empty holds_value holds_empty examiner_form project_task : StallReason
  next_stall : Text → StallReason
  before_stall : Text → StallReason
  other_task : Text → StallReason
  before_last : Text → StallReason
  second_diagnosis outcome_first : StallReason

abbrev bad : {A : Type 0} → Text → StallReason → Result (RowError StallReason) A
bad c why = err (record { column = c; reason = why })

-- The loop of `CheckStall` over the columns of the kinds.
unfoldable pub check_columns : (Text → Text) → List Text → Result (RowError StallReason) (Unit {0})
check_columns f [] = ok tt
check_columns f (c ∷ cs) =
    let rest = check_columns f cs in
    let need = member c (stall_kinds (f (codes "kind"))) in
    if need && is_empty (f c)
    then bad c holds_value
    else if (not need && not (is_empty (f c)))
        && (not (text_eq c (codes "examiner"))
            || not (text_eq (f (codes "kind")) (codes "diagnosis-failed")))
    then bad c holds_empty
    else rest

abbrev same : Bool → Bool → Bool
same a b = if a then b else not b

-- The last `switch` of `CheckStall`.
unfoldable pub check_forms : (Text → Text) → Result (RowError StallReason) (Unit {0})
check_forms f =
    if not (is_empty (f (codes "examiner"))) && not (session_form (f (codes "examiner")))
    then bad (codes "examiner") examiner_form
    else if text_eq (f (codes "kind")) (codes "stall")
        && not (
            same (text_eq (f (codes "task")) (codes "project"))
              (text_eq (f (codes "trigger")) (codes "orchestrator")))
    then bad (codes "task") project_task
    else ok tt

unfoldable pub check_stall : List Text → Result (RowError StallReason) (Unit {0})
check_stall r =
    let f = fields stalls_schema r in
    elim (missing f (codes "time" ∷ codes "task" ∷ [])) [
      | some c ↦ bad c never_empty
      | none ↦ check_columns f stall_kind_columns >> check_forms f
    ]

-- fmt.Sprintf("ST-%03d", n)
unfoldable pub stall_id : ℕ → Text
stall_id n =
    codes "ST-"
    ++ (if ltb n 10
        then b'0' ∷ b'0' ∷ decimal_text n
        else if ltb n 100
        then b'0' ∷ decimal_text n
        else decimal_text n)

-- `a < b` on strings.
unfoldable pub text_ltb : Text → Text → Bool
text_ltb [] [] = false
text_ltb [] (y ∷ ys) = true
text_ltb (x ∷ xs) [] = false
text_ltb (x ∷ xs) (y ∷ ys) = ltb x y || ((x == y) && text_ltb xs ys)

-- A stall that `CheckStalls` knows.
pub record Stall : Type 0 where
  pub task : Text
  pub last : Text
  pub second : Bool

-- A row as `CheckStalls` reads it.
pub record StallRow : Type 0 where
  pub id : Text
  pub kind : Text
  pub time : Text
  pub task : Text

unfoldable pub stall_row : List Text → StallRow
stall_row r =
    let f = fields stalls_schema r in
    record {
      id = f (codes "stall");
      kind = f (codes "kind");
      time = f (codes "time");
      task = f (codes "task");
    }

abbrev pub Stalls : Type 0
Stalls = Text → Option Stall

unfoldable pub set_stall : Text → Stall → Stalls → Stalls
set_stall id s stalls other = if text_eq other id then some s else stalls other

-- The `switch` of `CheckStalls` on a row that is no stall row.
unfoldable pub check_follow : StallRow → Stall → Result (RowError StallReason) Stall
check_follow r s =
    let outcome = text_eq r.kind (codes "outcome") in
    if not (text_eq r.task s.task)
    then bad (codes "task") (other_task s.task)
    else if text_ltb r.time s.last
    then bad (codes "time") (before_last s.last)
    else if not outcome && s.second
    then bad (codes "kind") second_diagnosis
    else if outcome && not s.second
    then bad (codes "kind") outcome_first
    else ok (record s { second = true; last = r.time })

-- A round of the loop of `CheckStalls`: the stalls and the next number after a row.
unfoldable pub check_one : StallRow → Stalls → ℕ → Result (RowError StallReason) (Stalls × ℕ)
check_one r stalls next =
    if text_eq r.kind (codes "stall")
    then (if not (text_eq r.id (stall_id next))
        then bad (codes "stall") (next_stall (stall_id next))
        else ok (
          set_stall r.id (record { task = r.task; last = r.time; second = false }) stalls,
          suc next,
        ))
    else elim (stalls r.id) [
      | none ↦ bad (codes "stall") (before_stall r.id)
      | some s ↦ elim (check_follow r s) [
        | err e ↦ err e
        | ok s' ↦ ok (set_stall r.id s' stalls, next)
      ]
    ]

unfoldable pub check_order :
    ℕ → Stalls → ℕ → List StallRow → Result (RecordError Error StallReason) (Unit {0})
check_order line stalls next [] = ok tt
check_order line stalls next (r ∷ rows) = elim (check_one r stalls next) [
  | err e ↦ err (of_rule line e)
  | ok (stalls', next') ↦ check_order (suc line) stalls' next' rows
]

unfoldable pub rows_of : List (List Text) → List StallRow
rows_of [] = []
rows_of (r ∷ rows) = stall_row r ∷ rows_of rows

-- `CheckStalls`.
unfoldable pub check_stalls : List (List Text) → Result (RecordError Error StallReason) (Unit {0})
unfolding rows_of
check_stalls rows = check_order 2 (λ id. none) 1 (rows_of rows)

-- `ReadStalls`.
unfoldable pub read_stalls : Text → Result (RecordError Error StallReason) (List (List Text))
read_stalls text = elim (read text stalls_schema) [
  | err e ↦ err (of_codec e)
  | ok rows ↦ do check_each check_stall 2 rows; check_stalls rows; ok rows
]
