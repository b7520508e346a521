-- ===== src/Attempts/Sorting.antt =====
-- internal/run/shapeloop.go: `loopPosition` up to the sessions of each stage. A return of the source is
-- the `err` of a part.
use layup.Base.{
  ℕ, Bool, not, ◌&&◌, ◌||◌, List, [], ◌∷◌, ◌++◌, Option, none, some, ltb, leb, ◌==◌, if◌then◌else◌,
  is_empty, any, Result, ok, err,
}
use layup.Text.{Text, codes, text_eq}
use layup.Text.Numbers.{atoi}
use layup.Attempts.View.{
  Event, SessionRow, View, is_kind, step_role, dev_step, role_of, answer_session, qa_kind, QaKind,
  review, verifier, neither,
}
use layup.Attempts.Retries.{replaced_session}

pub data Position : Type 0 where
  at_attempt at_plan at_plan_finish at_review at_review_finish at_developer to_verifier : Position
  at_ship at_verifier_finish verified next_attempt waits stopped at_question at_retry at_replan :
      Position

-- A position with what its act needs.
pub record LoopStep : Type 0 where
  pub pos : Position
  pub session : Text
  pub msg : Text
  pub attempt : ℕ
  pub base : Text
  pub head : Text

abbrev pub stop {ℓ} : {A : Type ℓ} → LoopStep → Text → Result LoopStep A
stop step msg = err (record step { pos = stopped; msg = msg })

abbrev pub goes {ℓ} : {A : Type ℓ} → LoopStep → Position → Result LoopStep A
goes step p = err (record step { pos = p })

-- The largest attempt of an event attempt, and its base.
unfoldable pub latest_attempt : ℕ × Text → List Event → ℕ × Text
latest_attempt (n, base) [] = (n, base)
latest_attempt (n, base) (e ∷ es) =
    let a = atoi e.attempt in
    latest_attempt (if is_kind (codes "attempt") e && leb n a then (a, e.base) else (n, base)) es

-- The first bound of a session that is not the developer's.
unfoldable pub stray_bound : View → List Event → Option Event
stray_bound v [] = none
stray_bound v (e ∷ es) =
    if is_kind (codes "bound") e
      && (not (is_empty e.session)
          && not (text_eq (role_of v e.session) (step_role (dev_step v.kind))))
    then some e
    else stray_bound v es

-- The events from the last event attempt of a number on; all of them where there is none.
unfoldable pub since : ℕ → List Event → List Event → List Event
since attempt from [] = from
since attempt from (e ∷ es) =
    since attempt
      (if is_kind (codes "attempt") e && (atoi e.attempt == attempt) then e ∷ es else from) es

-- The first refusal of a session that has no row.
unfoldable pub refused_start : View → List Event → Option Event
refused_start v [] = none
refused_start v (e ∷ es) =
    if is_kind (codes "refused") e && not (any (λ s. text_eq s.id e.session) v.sessions)
    then some e
    else refused_start v es

-- The sessions of each stage.
pub record Sessions : Type 0 where
  pub plans : List Text
  pub reviews : List Text
  pub devs : List Text
  pub verifiers : List Text

-- Whether the loop over the sessions passes one over.
unfoldable pub passed_over : View → List (Text × Text) → Text → SessionRow → Bool
passed_over v rep attempt s =
    text_eq (replaced_session rep s.attempt) s.id
    || (answer_session v s
        || (not (text_eq s.attempt attempt) && text_eq (v.status s.id) (codes "needs_context")))

-- A session of the role qa-engineer.
unfoldable pub sort_qa :
    View → ℕ → Text → LoopStep → SessionRow → QaKind → Sessions → Result LoopStep Sessions
sort_qa v reopened attempt step s review x =
    if leb (atoi s.attempt) reopened
    then ok x
    else ok (record x { reviews = x.reviews ++ (s.id ∷ []) })
sort_qa v reopened attempt step s verifier x =
    if text_eq s.attempt attempt
    then ok (record x { verifiers = x.verifiers ++ (s.id ∷ []) })
    else ok x
sort_qa v reopened attempt step s neither x = stop step (
    v.task
    ++ (codes ": the session " ++ (s.id ++ codes " is neither the plan review nor a verifier")))

-- The `switch` on the role of a session.
unfoldable pub sort_role :
    View → ℕ → Text → LoopStep → SessionRow → Sessions → Result LoopStep Sessions
sort_role v reopened attempt step s x =
    if text_eq s.role (step_role (codes "plan-of-a-task"))
    then (if ltb reopened (atoi s.attempt)
        then ok (record x { plans = x.plans ++ (s.id ∷ []) })
        else ok x)
    else if text_eq s.role (step_role (codes "verification"))
    then sort_qa v reopened attempt step s (qa_kind v s) x
    else if text_eq s.role (step_role (dev_step v.kind))
    then (if text_eq s.attempt attempt
        then ok (record x { devs = x.devs ++ (s.id ∷ []) })
        else ok x)
    else ok x

module _ (v : View) (rep : List (Text × Text)) (reopened : ℕ) (attempt : Text)
    (step : LoopStep) where
  unfoldable pub sort_session : SessionRow → Sessions → Result LoopStep Sessions
  sort_session s x =
      if passed_over v rep attempt s then ok x else sort_role v reopened attempt step s x

  -- The loop over the sessions.
  unfoldable pub sort_sessions : List SessionRow → Sessions → Result LoopStep Sessions
  sort_sessions [] x = ok x
  sort_sessions (s ∷ ss) x = elim (sort_session s x) [ err r ↦ err r | ok x' ↦ sort_sessions ss x' ]
