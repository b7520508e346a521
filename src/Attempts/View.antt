-- ===== src/Attempts/View.antt =====
-- internal/run/shapeloop.go, questionloop.go, frozen.go and tier.go: the view of a task, and the reads
-- of its events and sessions. A map of the source is a function, which gives the zero value.
use layup.Base.{
  ℕ, zero, suc, Bool, false, ◌&&◌, ◌||◌, List, [], ◌∷◌, Option, none, some, ltb, if◌then◌else◌, any,
  length,
}
use layup.Text.{Text, codes, text_eq, has_prefix}

-- A row of events.tsv.
pub record Event : Type 0 where
  pub n : Text
  pub kind : Text
  pub attempt : Text
  pub session : Text
  pub base : Text
  pub sha : Text
  pub detail : Text
  pub time : Text

-- The columns of a row of sessions.tsv that are read.
pub record SessionRow : Type 0 where
  pub id : Text
  pub task : Text
  pub attempt : Text
  pub role : Text
  pub base : Text

pub record ReviewRecord : Type 0 where
  pub verdict : Text
  pub head : Text
  pub findings : ℕ

-- The columns of a row of copies.tsv that are read, with the body of the copy.
pub record Copy : Type 0 where
  pub comment : Text
  pub seen : Text
  pub issue : Text
  pub author : Text
  pub app : Text
  pub body : Text

pub record View : Type 0 where
  pub task : Text
  pub kind : Text
  pub events : List Event
  pub sessions : List SessionRow
  pub status : Text → Text
  pub records : Text → Option ReviewRecord
  pub rejects : Text → Option (List Text)
  pub unread : Text → Bool
  pub verdicts : Text → Text
  pub control : ℕ
  pub approvers : List (Text × Text)
  pub cycles : List Copy

-- The steps of `defaultSteps` with their roles.
abbrev pub step_table : List (Text × Text)
step_table =
    (codes "gap-review", codes "systems-architect")
    ∷ (codes "completeness-review", codes "qa-engineer")
    ∷ (codes "numbering-and-draft", codes "product-owner")
    ∷ (codes "specification", codes "product-owner")
    ∷ (codes "bet-brief", codes "product-owner")
    ∷ (codes "shape-architecture", codes "systems-architect")
    ∷ (codes "shape-activation-batch", codes "software-architect")
    ∷ (codes "plan-of-a-milestone", codes "software-engineer")
    ∷ (codes "plan-of-a-task", codes "software-engineer")
    ∷ (codes "implement", codes "software-developer")
    ∷ (codes "close-out", codes "software-developer")
    ∷ (codes "plan-review", codes "qa-engineer")
    ∷ (codes "verification", codes "qa-engineer")
    ∷ (codes "answer-to-a-question", codes "owner-of-its-kind")
    ∷ (codes "retrospective-lessons", codes "systems-architect")
    ∷ []

unfoldable pub role_in : Text → List (Text × Text) → Text
role_in step [] = []
role_in step ((s, r) ∷ rows) = if text_eq s step then r else role_in step rows

-- `stepRole`.
unfoldable pub step_role : Text → Text
unfolding role_in
step_role step = role_in step step_table

-- `devStep`.
unfoldable pub dev_step : Text → Text
dev_step kind =
    if text_eq kind (codes "architecture")
    then codes "shape-architecture"
    else codes "specification"

abbrev pub is_kind : Text → Event → Bool
is_kind kind e = text_eq e.kind kind

-- The place of the first event that meets a test.
unfoldable pub index_of : (Event → Bool) → List Event → Option ℕ
index_of p [] = none
index_of p (e ∷ es) =
    let rest = index_of p es in
    if p e then some 0 else elim rest [ none ↦ none | some i ↦ some (suc i) ]

-- The events before a place.
unfoldable pub before : ℕ → List Event → List Event
before zero es = []
before (suc i) [] = []
before (suc i) (e ∷ es) = e ∷ before i es

-- `startRow`.
unfoldable pub row_in : Text → List SessionRow → Option SessionRow
row_in id [] = none
row_in id (s ∷ ss) = if text_eq s.id id then some s else row_in id ss

unfoldable pub start_row : View → Text → Option SessionRow
unfolding row_in
start_row v id = row_in id v.sessions

-- `loopView.role`.
unfoldable pub role_of : View → Text → Text
role_of v id = elim (start_row v id) [ none ↦ [] | some s ↦ s.role ]

-- `startIndex`.
unfoldable pub start_index : View → Text → Option ℕ
start_index v id = index_of (λ e. is_kind (codes "session") e && text_eq e.session id) v.events

-- `lastHandoff`.
unfoldable pub handoff_in : Text → Option Text → List Event → Option Text
handoff_in id found [] = found
handoff_in id found (e ∷ es) =
    handoff_in id
      (if is_kind (codes "handoff") e && text_eq e.session id then some e.detail else found) es

unfoldable pub last_handoff : View → Text → Option Text
unfolding handoff_in
last_handoff v id = handoff_in id none v.events

-- `validHandoff`: whether a detail is valid, and whether it names a comment.
unfoldable pub is_valid : Text → Bool
is_valid detail = text_eq detail (codes "valid") || has_prefix (codes "valid ") detail

unfoldable pub names_comment : Text → Bool
names_comment detail = has_prefix (codes "valid comment ") detail

-- The place that `asking` gives of an attempt: its first result that ended needs_context.
unfoldable pub first_asking : View → Text → Option ℕ
first_asking v attempt =
    index_of
      (λ e.
        is_kind (codes "result") e
        && (text_eq e.attempt attempt
            && (text_eq e.detail (codes "done")
                && text_eq (v.status e.session) (codes "needs_context"))))
      v.events

-- `answerSession`.
unfoldable pub answer_session : View → SessionRow → Bool
answer_session v s = elim (first_asking v s.attempt) [
  | none ↦ false
  | some first ↦ elim (start_index v s.id) [ none ↦ false | some i ↦ ltb first i ]
]

-- Whether an event is a valid handoff of a plan.
unfoldable pub is_plan_handoff : View → Event → Bool
is_plan_handoff v e =
    is_kind (codes "handoff") e
    && (is_valid e.detail
        && (names_comment e.detail
            && text_eq (role_of v e.session) (step_role (codes "plan-of-a-task"))))

-- Whether an event is the bound that a verifier starts from.
unfoldable pub is_base_bound : View → SessionRow → Event → Bool
is_base_bound v s e =
    is_kind (codes "bound") e
    && (text_eq e.attempt s.attempt
        && (text_eq e.sha s.base && text_eq (role_of v e.session) (step_role (dev_step v.kind))))

pub data QaKind : Type 0 where
  review verifier neither : QaKind

-- Whether the session started behind a plan and before the first push.
unfoldable pub is_review : View → ℕ → Bool
is_review v start =
    let behind : Bool = elim (index_of (is_plan_handoff v) v.events) [
      | none ↦ false
      | some p ↦ ltb p start
    ] in
    let ahead : Bool = elim (index_of (is_kind (codes "push")) v.events) [
      | none ↦ ltb start (length v.events)
      | some p ↦ ltb start p
    ] in
    behind && ahead

-- `qaKind`.
unfoldable pub qa_kind : View → SessionRow → QaKind
qa_kind v s = elim (start_index v s.id) [
  | none ↦ neither
  | some start ↦
      if any (is_base_bound v s) (before start v.events)
      then verifier
      else if is_review v start
      then review
      else neither
]
