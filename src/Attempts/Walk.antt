-- ===== src/Attempts/Walk.antt =====
-- internal/run/shapeloop.go and `asking` of questionloop.go: `loopPosition`.
use layup.Base.{
  ◌&&◌, false, ◌∷◌, ℕ, Bool, not, List, [], ◌++◌, none, some, ◌==◌, if◌then◌else◌, is_empty, Result,
  ok, err, ◌>>=◌, ◌>>◌,
}
use layup.Text.{text_eq, Text, codes}
use layup.Text.Numbers.{decimal_text}
use layup.Attempts.View.{Event, View, is_kind, first_asking, before}
use layup.Attempts.Retries.{retries}
use layup.Attempts.Rejections.{reopened_by}
use layup.Attempts.Sorting.{
  at_attempt, stopped, at_question, at_retry, LoopStep, stop, goes, latest_attempt, stray_bound,
  since, refused_start, Sessions, sort_sessions,
}
use layup.Attempts.Grants.{grant_of}
use layup.Attempts.Position.{plan_stage, review_stage, dev_stage, at_head, verifier_stage}

-- From the sorted sessions on.
unfoldable pub walk_stages :
    View → List (Text × Text) → ℕ → LoopStep → Sessions → Result LoopStep LoopStep
walk_stages v rep granted step x = plan_stage v step x.plans >>= λ s1.
    review_stage v rep s1 x.reviews >>= λ s2.
    dev_stage v s2 x.devs >>= λ s3. verifier_stage v granted s3 (at_head v s3.head x.verifiers)

abbrev pub no_sessions : Sessions
no_sessions = record { plans = []; reviews = []; devs = []; verifiers = [] }

-- From the retries on.
unfoldable pub walk_retries : View → ℕ → LoopStep → Result LoopStep LoopStep
walk_retries v granted step =
    let r = retries v in
    let reopened = (reopened_by v r.replaced step.attempt).0 in
    if not (is_empty r.pending)
    then goes (record step { session = r.pending }) at_retry
    else sort_sessions v r.replaced reopened (decimal_text step.attempt) step v.sessions no_sessions
      >>= λ x. walk_stages v r.replaced granted step x

-- The checks before the stages.
unfoldable pub check_bounds : View → LoopStep → Result LoopStep (Unit {0})
check_bounds v step = elim (stray_bound v v.events) [
  | none ↦ ok tt
  | some e ↦ stop step (
      v.task
      ++ (codes ": the session "
          ++ (e.session ++ codes " has a bound and is not of the developer role")))
]

unfoldable pub check_starts : View → LoopStep → Result LoopStep (Unit {0})
check_starts v step = elim (refused_start v (since step.attempt v.events v.events)) [
  | none ↦ ok tt
  | some e ↦ stop step (
      v.task
      ++ (codes ": the start of the session "
          ++ (e.session ++ (codes " was refused (" ++ (e.detail ++ codes ")")))))
]

-- What a chain of parts returned; each chain ends with a return.
unfoldable pub returned : Result LoopStep LoopStep → LoopStep
returned (err s) = s
returned (ok s) = s

-- Whether the first result of a session is done, by `resultEnd`.
unfoldable pub ended_done : Text → List Event → Bool
ended_done id [] = false
ended_done id (e ∷ es) =
    let rest = ended_done id es in
    if is_kind (codes "result") e && text_eq e.session id
    then text_eq e.detail (codes "done")
    else rest

-- The sessions that `asking` gives of an attempt.
unfoldable pub asking_in : View → Text → List Event → List Text
asking_in v attempt [] = []
asking_in v attempt (e ∷ es) =
    let rest = asking_in v attempt es in
    if is_kind (codes "session") e
      && (text_eq e.attempt attempt
          && (ended_done e.session v.events
              && text_eq (v.status e.session) (codes "needs_context")))
    then e.session ∷ rest
    else rest

unfoldable pub asking : View → Text → List Text
unfolding asking_in
asking v attempt = elim (first_asking v attempt) [
  | none ↦ []
  | some first ↦ asking_in v attempt (before first v.events)
]

-- Whether `questionPosition` gives a stage: a session of the attempt asked.
unfoldable pub asks : View → ℕ → Bool
asks v attempt = not (is_empty (asking v (decimal_text attempt)))

-- `loopPosition`.
unfoldable pub loop_position : View → LoopStep
loop_position v =
    let (attempt, base) = latest_attempt (0, []) v.events in
    let step : LoopStep = record {
      pos = stopped;
      session = [];
      msg = [];
      attempt = attempt;
      base = base;
      head = [];
    } in
    if attempt == 0
    then record step { pos = at_attempt; base = [] }
    else returned (
        check_bounds v step
        >> (check_starts v step
            >> (if asks v attempt
                then goes step at_question
                else walk_retries v (grant_of v) step)))
