-- ===== src/Attempts/Position.antt =====
-- internal/run/shapeloop.go: the stages of `loopPosition`, one after the other.
use layup.Base.{
  ℕ, ◌+◌, Bool, false, not, ◌&&◌, List, [], ◌∷◌, ◌++◌, Option, none, some, leb, ◌==◌, if◌then◌else◌,
  is_empty, any, Result, ok, err, ◌>>=◌,
}
use layup.Text.{Text, codes, text_eq, has_prefix}
use layup.Text.Numbers.{decimal_text}
use layup.Attempts.View.{
  Event, ReviewRecord, View, is_kind, dev_step, row_in, last_handoff, is_valid,
}
use layup.Attempts.Stages.{
  running, finished, failed, outcome, Stage, to_run, to_finish, stage_done, stage_stop, stage,
  last_of, nothing_material, review_rounds,
}
use layup.Attempts.Rejections.{reject_of, legacy_reject_of, plan_rejects}
use layup.Attempts.Sorting.{
  Position, at_plan, at_plan_finish, at_review, at_review_finish, at_developer, to_verifier,
  at_ship, at_verifier_finish, verified, next_attempt, waits, stopped, at_replan, LoopStep, stop,
  goes,
}

abbrev pub cycle_cap : ℕ
cycle_cap = 1

-- "a → b", in UTF-8.
abbrev pub arrow : Text → Text → Text
arrow a b = a ++ (b' ' ∷ 0xE2 ∷ 0x86 ∷ 0x92 ∷ b' ' ∷ b)

-- The session that a stage concerns, "" for none.
unfoldable pub session_of : Stage → Text
session_of to_run = []
session_of (to_finish id) = id
session_of (stage_done id) = id
session_of (stage_stop id msg) = id

-- The `switch` on a stage: the run, the end, a stop, or the next stage.
unfoldable pub pass_stage : LoopStep → Position → Position → Stage → Result LoopStep LoopStep
pass_stage step run end to_run = goes step run
pass_stage step run end (to_finish id) = goes step end
pass_stage step run end (stage_stop id msg) = stop step msg
pass_stage step run end (stage_done id) = ok step

unfoldable pub plan_stage : View → LoopStep → List Text → Result LoopStep LoopStep
plan_stage v step ids =
    let st = stage v ids (codes "the plan") (arrow (codes "task plan") (codes "plan review")) in
    pass_stage (record step { session = session_of st }) at_plan at_plan_finish st

-- The pair that the handoff of a plan review is of.
unfoldable pub review_pair : View → List Text → Text
review_pair v ids = elim (last_of ids) [
  | none ↦ arrow (codes "plan review") (codes "developer")
  | some last ↦
      let detail = elim (last_handoff v last) as (λ o. Text) [ none ↦ [] | some d ↦ d ] in
      if text_eq (v.verdicts last) (codes "reject")
        && not (has_prefix (codes "invalid verdict-field") detail)
      then arrow (codes "plan review") (codes "task plan")
      else arrow (codes "plan review") (codes "developer")
]

-- A plan review that is done.
unfoldable pub review_done : View → List (Text × Text) → LoopStep → Text → Result LoopStep LoopStep
review_done v rep step id =
    if v.unread id
    then stop step (
        v.task
        ++ (codes ": the plan review " ++ (id ++ codes " cannot be read from its kept copy")))
    else elim (reject_of v rep id) [
      | none ↦
          if text_eq (v.verdicts id) (codes "reject")
          then stop step (
              v.task
              ++ (codes ": the plan review "
                  ++ (id
                      ++ codes
                          " rejected the plan and gave no reason (its handoff is valid on this table, and a reject with no reason stops)")))
          else ok step
      | some reasons ↦
          if leb (plan_rejects v) cycle_cap
          then goes step at_replan
          else stop step (
              v.task
              ++ (codes ": the plan review rejected the plan "
                  ++ (decimal_text (plan_rejects v) ++ codes " times")))
    ]

unfoldable pub review_step : View → List (Text × Text) → LoopStep → Stage → Result LoopStep LoopStep
review_step v rep step to_run = goes step at_review
review_step v rep step (to_finish id) = goes step at_review_finish
review_step v rep step (stage_stop id msg) =
    if legacy_reject_of v rep id then goes step at_review_finish else stop step msg
review_step v rep step (stage_done id) = review_done v rep step id

unfoldable pub review_stage :
    View → List (Text × Text) → LoopStep → List Text → Result LoopStep LoopStep
review_stage v rep step ids =
    let st = stage v ids (codes "the plan review") (review_pair v ids) in
    review_step v rep (record step { session = session_of st }) st

-- Whether a session pushed, and its last bound head, "" for none.
unfoldable pub has_pushed : Text → List Event → Bool
has_pushed id es = any (λ e. text_eq e.session id && is_kind (codes "push") e) es

unfoldable pub bound_head : Text → Text → List Event → Text
bound_head id head [] = head
bound_head id head (e ∷ es) =
    bound_head id (if text_eq e.session id && is_kind (codes "bound") e then e.sha else head) es

-- The handoff of the developer.
unfoldable pub dev_handoff : View → LoopStep → Text → Result LoopStep LoopStep
dev_handoff v step last = elim (last_handoff v last) [
  | none ↦ goes step to_verifier
  | some detail ↦
      if is_valid detail
      then ok step
      else stop step (
          v.task
          ++ (codes ": the handoff "
              ++ (arrow
                    (if text_eq v.kind (codes "architecture")
                      then codes "developer (architecture)"
                      else codes "developer (specification)")
                    (codes "verifier")
                  ++ (codes " is " ++ detail))))
]

-- The bound head of the developer.
unfoldable pub dev_head : View → LoopStep → Text → Result LoopStep LoopStep
dev_head v step last =
    let head = bound_head last [] v.events in
    if not (is_empty head)
    then dev_handoff v (record step { head = head }) last
    else if has_pushed last v.events
    then stop step (v.task ++ codes ": a push with no result (its repair is the step loop's)")
    else stop step (
        v.task
        ++ (codes ": the session "
            ++ (last ++ codes " ended with no push (its resume is the step loop's)")))

unfoldable pub dev_stage : View → LoopStep → List Text → Result LoopStep LoopStep
dev_stage v step ids = elim (last_of ids) [
  | none ↦ goes step at_developer
  | some last ↦
      let step' = record step { session = last } in
      elim (outcome v last (dev_step v.kind)) [
        | running ↦ goes step' at_developer
        | failed msg ↦ stop step' msg
        | finished ↦ dev_head v step' last
      ]
]

-- The verifiers that started from a head.
unfoldable pub started_from : View → Text → Text → Bool
started_from v head id = elim (row_in id v.sessions) [ none ↦ false | some s ↦ text_eq s.base head ]

unfoldable pub at_head : View → Text → List Text → List Text
at_head v head [] = []
at_head v head (id ∷ ids) =
    let rest = at_head v head ids in if started_from v head id then id ∷ rest else rest

-- The `switch` on the verdict.
unfoldable pub verdict_step : View → ℕ → LoopStep → Option ReviewRecord → LoopStep
verdict_step v granted step none = record step {
  pos = stopped;
  msg =
      v.task
      ++ (codes ": the review record of the session "
          ++ (step.session ++ codes " has no kept copy"));
}
verdict_step v granted step (some r) =
    if text_eq r.verdict nothing_material && (r.findings == 0)
    then record step { pos = verified }
    else if text_eq r.verdict (codes "not mergeable, findings recorded")
    then record step {
      pos = waits;
      msg =
          codes "waiting for the Operator: "
          ++ (v.task ++ codes ": not mergeable, findings recorded");
    }
    else if leb (review_rounds v) (cycle_cap + granted)
    then record step { pos = next_attempt }
    else record step {
      pos = waits;
      msg =
          codes "waiting for the Operator: "
          ++ (v.task
              ++ (codes ": the review-cycle cap "
                  ++ (decimal_text (cycle_cap + granted)
                      ++ (codes " is reached with findings open"
                          ++ (if granted == 0
                              then codes "; the Operator may grant one more cycle with `cycle "
                                ++ (v.task ++ codes " because <reason>` on the control issue")
                              else [])))));
    }

unfoldable pub verifier_stage : View → ℕ → LoopStep → List Text → Result LoopStep LoopStep
verifier_stage v granted step ids =
    let st = stage v ids (codes "the verification") (codes "verifier") in
    pass_stage (record step { session = session_of st }) at_ship at_verifier_finish st >>= λ step'.
    err (verdict_step v granted step' (v.records step'.session))
