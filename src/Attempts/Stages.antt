-- ===== src/Attempts/Stages.antt =====
-- internal/run/shapeloop.go: how a session ended, how far a stage has come, and the rounds of a task.
use layup.Base.{
  ℕ, ◌+◌, Bool, false, not, List, [], ◌∷◌, ◌++◌, Option, none, some, if◌then◌else◌, is_empty,
}
use layup.Text.{Text, codes, text_eq}
use layup.Attempts.View.{
  Event, SessionRow, View, is_kind, last_handoff, is_valid, qa_kind, review, verifier, neither,
}

pub data Outcome : Type 0 where
  running finished : Outcome
  failed : Text → Outcome

-- The loop of `outcome`: the result so far, or the detail of a refusal.
pub data Ended : Type 0 where
  with_result : Text → Ended
  was_refused : Text → Ended

unfoldable pub end_in : Text → Text → List Event → Ended
end_in id result [] = with_result result
end_in id result (e ∷ es) =
    let same = end_in id result es in
    let later = end_in id e.detail es in
    if not (text_eq e.session id)
    then same
    else if is_kind (codes "refused") e
    then was_refused e.detail
    else if is_kind (codes "result") e
    then later
    else same

-- The `switch` of `outcome` on the result.
unfoldable pub outcome_of : View → Text → Text → Text → Outcome
outcome_of v id step result =
    if is_empty result
    then running
    else if not (text_eq result (codes "done"))
    then failed (
        v.task ++ codes ": the session " ++ id ++ codes " of " ++ step ++ codes " ended " ++ result)
    else if not (text_eq (v.status id) (codes "completed"))
    then failed (
        v.task
        ++ codes ": the session "
        ++ id
        ++ codes " of "
        ++ step
        ++ codes " ended "
        ++ (if is_empty (v.status id) then codes "with no kept result" else v.status id))
    else finished

unfoldable pub outcome : View → Text → Text → Outcome
outcome v id step = elim (end_in id [] v.events) [
  | was_refused detail ↦
      failed
        (v.task ++ codes ": the session " ++ id ++ codes " was refused (" ++ detail ++ codes ")")
  | with_result result ↦ outcome_of v id step result
]

-- How far a stage has come, with the session that it concerns and the message of a stop.
pub data Stage : Type 0 where
  to_run : Stage
  to_finish stage_done : Text → Stage
  stage_stop : Text → Text → Stage

unfoldable pub last_of : List Text → Option Text
last_of [] = none
last_of (id ∷ []) = some id
last_of (id ∷ id' ∷ ids) = last_of (id' ∷ ids)

-- `stage` behind the outcome of its last session.
unfoldable pub stage_of_handoff : View → Text → Text → Stage
stage_of_handoff v last pair = elim (last_handoff v last) [
  | none ↦ to_finish last
  | some detail ↦
      if is_valid detail
      then stage_done last
      else stage_stop last (v.task ++ codes ": the handoff " ++ pair ++ codes " is " ++ detail)
]

unfoldable pub stage : View → List Text → Text → Text → Stage
stage v ids step pair = elim (last_of ids) [
  | none ↦ to_run
  | some last ↦ elim (outcome v last step) [
    | running ↦ to_run
    | failed msg ↦ stage_stop last msg
    | finished ↦ stage_of_handoff v last pair
  ]
]

abbrev pub nothing_material : Text
nothing_material = codes "nothing material in scope"

-- Whether the session is a verifier with findings.
unfoldable pub has_findings : View → SessionRow → Bool
has_findings v s = elim (v.records s.id) [
  | none ↦ false
  | some r ↦ elim (qa_kind v s) [
    | verifier ↦ not (text_eq r.verdict nothing_material)
    | review ↦ false
    | neither ↦ false
  ]
]

unfoldable pub rounds_in : View → List SessionRow → ℕ
rounds_in v [] = 0
rounds_in v (s ∷ ss) = (if has_findings v s then 1 else 0) + rounds_in v ss

-- `reviewRounds`.
unfoldable pub review_rounds : View → ℕ
unfolding rounds_in
review_rounds v = rounds_in v v.sessions
