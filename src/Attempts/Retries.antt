-- ===== src/Attempts/Retries.antt =====
-- internal/run/shapeloop.go: the ends that a retry replaces, `retries`, and the rejections of a plan.
use layup.Base.{
  ℕ, zero, suc, ◌+◌, ◌-◌, Bool, true, false, not, ◌&&◌, ◌||◌, List, [], ◌∷◌, Option, none, some,
  ltb, ◌==◌, if◌then◌else◌, is_empty,
}
use layup.Text.{Text, codes, text_eq, before_byte}
use layup.Text.Numbers.{decimal_text, atoi}
use layup.Attempts.View.{
  Event, SessionRow, View, is_kind, step_role, dev_step, start_row, answer_session, qa_kind, QaKind,
  review, verifier, neither,
}

-- The stage of a session of the role qa-engineer, "" for none.
unfoldable pub stage_of_qa : QaKind → Text
stage_of_qa review = codes "review"
stage_of_qa verifier = codes "verifier"
stage_of_qa neither = []

-- The stage of a session by its row, "" for none.
unfoldable pub stage_of_row : View → SessionRow → Text
stage_of_row v s =
    if text_eq s.role (step_role (codes "plan-of-a-task"))
    then codes "plan"
    else if text_eq s.role (step_role (dev_step v.kind))
    then codes "developer"
    else if text_eq s.role (step_role (codes "verification"))
    then stage_of_qa (qa_kind v s)
    else []

-- `stageOf`.
unfoldable pub stage_of : View → Text → Text
stage_of v id = elim (start_row v id) [
  | none ↦ []
  | some s ↦ if answer_session v s then [] else stage_of_row v s
]

-- The last session of an attempt, "" for none.
unfoldable pub last_session : Text → Text → List Event → Text
last_session attempt id [] = id
last_session attempt id (e ∷ es) =
    last_session attempt
      (if is_kind (codes "session") e && text_eq e.attempt attempt then e.session else id) es

-- What the events of a session say: its end, and its refusals with the detail of the last.
pub record EndSeen : Type 0 where
  pub end : Text
  pub refusals : ℕ
  pub detail : Text

unfoldable pub see_end : Text → EndSeen → Event → EndSeen
see_end id s e =
    if not (text_eq e.session id)
    then s
    else if is_kind (codes "refused") e
    then record s { refusals = s.refusals + 1; detail = e.detail }
    else if is_kind (codes "result") e
    then record s { end = e.detail }
    else s

unfoldable pub see_ends : Text → EndSeen → List Event → EndSeen
see_ends id s [] = s
see_ends id s (e ∷ es) = see_ends id (see_end id s e) es

-- The class of an end, "" for one that no retry replaces.
unfoldable pub class_of : Text → EndSeen → Text
class_of status s =
    if (s.refusals == 0) && (text_eq s.end (codes "crash") || text_eq s.end (codes "no-result"))
    then codes "uncertain"
    else if (s.refusals == 1)
        && (text_eq s.detail (codes "artifact")
            && (text_eq s.end (codes "done") && text_eq status (codes "completed")))
    then codes "artifact"
    else if (s.refusals == 1)
        && (text_eq s.end (codes "done")
            && (text_eq status (codes "completed")
                && text_eq (before_byte b' ' s.detail) (codes "rule-path")))
    then codes "rule-path"
    else []

pub record Eligible : Type 0 where
  pub id : Text
  pub stage : Text
  pub class : Text

-- `eligibleEnd`; `none` where it gives three empty texts.
unfoldable pub eligible_end : View → Text → Option Eligible
eligible_end v attempt =
    let id = last_session attempt [] v.events in
    let class =
      class_of (v.status id)
        (see_ends id (record { end = []; refusals = 0; detail = [] }) v.events) in
    if is_empty id || is_empty class
    then none
    else some (record { id = id; stage = stage_of v id; class = class })

-- The variables of the inner loop of `retries`: whether the attempt is barred, its base, the place of
-- the end, and the place and the base of the next attempt.
pub record Around : Type 0 where
  pub barred : Bool
  pub base : Text
  pub ended : Option ℕ
  pub next : Option (ℕ × Text)

unfoldable pub bars : Text → Event → Bool
bars a e =
    (is_kind (codes "closed") e
      || (is_kind (codes "rebased") e
          || (is_kind (codes "refused") e && text_eq e.detail (codes "push-lost"))))
    && text_eq e.attempt a

abbrev pub is_none {ℓ} : {A : Type ℓ} → Option A → Bool
is_none none = true
is_none (some a) = false

unfoldable pub look : Text → Text → Text → ℕ → Event → Around → Around
look a next id i e s =
    if bars a e
    then record s { barred = true }
    else if is_kind (codes "attempt") e && text_eq e.attempt a
    then record s { base = e.base }
    else if is_kind (codes "result") e && text_eq e.session id
    then record s { ended = some i }
    else if is_kind (codes "attempt") e && (text_eq e.attempt next && is_none s.next)
    then record s { next = some (i, e.base) }
    else s

unfoldable pub look_around : Text → Text → Text → ℕ → List Event → Around → Around
look_around a next id i [] s = s
look_around a next id i (e ∷ es) s = look_around a next id (i + 1) es (look a next id i e s)

-- Whether the next attempt was recorded behind the end, at the same base.
unfoldable pub replaced_by : Around → Bool
replaced_by s = elim s.next [
  | none ↦ false
  | some (i, base) ↦ elim s.ended [ none ↦ true | some j ↦ ltb j i ] && text_eq base s.base
]

-- The variables of `retries`: the attempts that are replaced with their sessions, the stages and
-- classes that have had their retry, and the session whose end the next attempt would replace.
pub record Retried : Type 0 where
  pub replaced : List (Text × Text)
  pub spent : List (Text × Text)
  pub pending : Text

unfoldable pub is_spent : Text → Text → List (Text × Text) → Bool
is_spent stage class [] = false
is_spent stage class ((s, c) ∷ rest) =
    (text_eq s stage && text_eq c class) || is_spent stage class rest

unfoldable pub retry_end : View → ℕ → ℕ → Eligible → Retried → Retried
retry_end v last n x r =
    let a = decimal_text n in
    let around =
      look_around a (decimal_text (n + 1)) x.id 0 v.events
        (record { barred = false; base = []; ended = none; next = none }) in
    if around.barred
    then r
    else if replaced_by around
    then record r { replaced = (a, x.id) ∷ r.replaced; spent = (x.stage, x.class) ∷ r.spent }
    else if n == last
    then record r { pending = x.id }
    else r

-- One attempt of the loop of `retries`.
unfoldable pub retry_one : View → ℕ → ℕ → Retried → Retried
retry_one v last n r = elim (eligible_end v (decimal_text n)) [
  | none ↦ r
  | some x ↦
      if is_empty x.stage || is_spent x.stage x.class r.spent then r else retry_end v last n x r
]

-- The loop over `k` attempts from `n`.
unfoldable pub retry_from : View → ℕ → ℕ → ℕ → Retried → Retried
retry_from v last zero n r = r
retry_from v last (suc k) n r = retry_from v last k (n + 1) (retry_one v last n r)

-- The number of the latest attempt, 0 for none.
unfoldable pub last_attempt : ℕ → List Event → ℕ
last_attempt n [] = n
last_attempt n (e ∷ es) =
    let m = atoi e.attempt in
    last_attempt (if is_kind (codes "attempt") e && ltb n m then m else n) es

unfoldable pub retries : View → Retried
retries v =
    let last = last_attempt 0 v.events in
    retry_from v last last 1 (record { replaced = []; spent = []; pending = [] })

-- `rep[a]`, "" for none.
unfoldable pub replaced_session : List (Text × Text) → Text → Text
replaced_session [] a = []
replaced_session ((b, id) ∷ rep) a = if text_eq b a then id else replaced_session rep a

-- The loop of `priorAttempt`: the nearest attempt from `a` down that no retry replaced.
unfoldable pub prior_from : List (Text × Text) → ℕ → ℕ
prior_from rep zero = 0
prior_from rep (suc a) =
    let rest = prior_from rep a in
    if is_empty (replaced_session rep (decimal_text (suc a))) then suc a else rest

unfoldable pub prior_attempt : List (Text × Text) → ℕ → ℕ
prior_attempt rep b = prior_from rep (b - 1)
