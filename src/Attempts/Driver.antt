-- ===== src/Attempts/Driver.antt =====
-- internal/run/shapeloop.go: `AdvanceShapeTask`. The acts, which call the forge, the sessions and the
-- records, are the functions of a record; `W` is the state of the world, which a read does not change.
use layup.Base.{
  ℕ, zero, suc, Bool, true, false, not, ◌&&◌, ◌||◌, List, [], ◌∷◌, ◌++◌, Option, none, some, ◌==◌,
  if◌then◌else◌, is_empty, any, Result, ok, err,
}
use layup.Text.{Text, codes}
use layup.Text.Numbers.{atoi}
use layup.Loop.Types.{Advance}
use layup.Attempts.View.{Event, View, is_kind}
use layup.Attempts.Sorting.{
  Position, at_attempt, at_plan, at_plan_finish, at_review, at_review_finish, at_developer,
  to_verifier, at_ship, at_verifier_finish, verified, next_attempt, waits, stopped, at_question,
  at_retry, at_replan, LoopStep,
}
use layup.Attempts.Walk.{loop_position}

-- The error of an act: a refusal that the records hold, or any other.
pub data ActError : Type 0 where
  recorded other : Text → ActError

-- What an act gives: a stop and a wait, empty for none, and an error.
pub record Acted : Type 0 where
  pub stop : Text
  pub wait : Text
  pub error : Option ActError

pub record Acts (W : Type 0) : Type 0 where
  pub repair : W → Option ActError × W
  pub shape_view : W → Result Text View
  pub settle : View → LoopStep → W → Option ActError × W
  pub ask_stage : View → LoopStep → W → Acted × W
  pub start_attempt : Text → W → Option ActError × W
  pub payload_readable : View → LoopStep → W → Option ActError
  pub run_stage : View → LoopStep → W → (Text × Option ActError) × W
  pub finish_stage : View → LoopStep → W → Option ActError × W
  pub to_verifier : View → LoopStep → W → Option ActError × W
  pub ship : View → LoopStep → W → (Text × Option ActError) × W
  pub settle_verdict : View → LoopStep → W → (Text × Option ActError) × W

-- `firstBase`.
unfoldable pub first_base : Text → List Event → Text
first_base base [] = base
first_base base (e ∷ es) = if is_kind (codes "rebased") e then e.base else first_base base es

-- `renderedPushed`.
unfoldable pub rendered_pushed : List Event → ℕ → Bool
rendered_pushed es attempt =
    any
      (λ e.
        (is_kind (codes "push") e || is_kind (codes "bound") e)
        && (is_empty e.session && (atoi e.attempt == attempt)))
      es

-- The text of an error.
unfoldable pub message_of : ActError → Text
message_of (recorded t) = t
message_of (other t) = t

-- A pass of the loop returns, or goes on.
abbrev pub Turn : Type 0 → Type 0
Turn W = Result (Result Text Advance) (Unit {0}) × W

abbrev pub max_acts : ℕ
max_acts = 100

module _ {W : Type 0} (acts : Acts W) (task base : Text) where
  abbrev pub nothing : Advance
  nothing = record {
    task = task;
    verified = false;
    merged = false;
    head = [];
    attempt = 0;
    waiting = [];
    stop = [];
    replaced = [];
  }

  -- The `switch` behind an act.
  unfoldable pub behind_act : Acted × W → Turn W
  behind_act (a, w) =
      if not (is_empty a.stop)
      then (err (ok (record nothing { stop = a.stop })), w)
      else if not (is_empty a.wait)
      then (err (ok (record nothing { waiting = a.wait })), w)
      else elim a.error [
        | none ↦ (ok tt, w)
        | some (recorded t) ↦ (ok tt, w)
        | some (other t) ↦ (err (err t), w)
      ]

  abbrev pub with_stop : (Text × Option ActError) × W → Turn W
  with_stop ((stop, error), w) = behind_act (record { stop = stop; wait = []; error = error }, w)

  abbrev pub with_error : Option ActError × W → Turn W
  with_error (error, w) = with_stop (([], error), w)

  -- The waits of the Operator, whose settling may fail.
  unfoldable pub waited : LoopStep → Option ActError × W → Turn W
  waited st (none, w) = (err (ok (record nothing { waiting = st.msg })), w)
  waited st (some e, w) = (err (err (message_of e)), w)

  abbrev pub told : LoopStep → Advance
  told st = record nothing { verified = true; head = st.head }

  -- The verdict that was settled, of a head that is verified or of one for the next attempt.
  unfoldable pub settled_head : LoopStep → (Text × Option ActError) × W → Turn W
  settled_head st (([], none), w) = (err (ok (told st)), w)
  settled_head st ((stop, error), w) = with_stop ((stop, error), w)

  unfoldable pub settled_attempt : LoopStep → (Text × Option ActError) × W → Turn W
  settled_attempt st (([], none), w) = with_error (acts.start_attempt st.base w)
  settled_attempt st ((stop, error), w) = with_stop ((stop, error), w)

  -- The act on a position.
  unfoldable pub act : View → LoopStep → Position → W → Turn W
  act v st stopped w = (err (ok (record nothing { stop = st.msg })), w)
  act v st waits w = waited st (acts.settle v st w)
  act v st at_question w = behind_act (acts.ask_stage v st w)
  act v st at_attempt w = with_error (acts.start_attempt (first_base base v.events) w)
  act v st at_retry w = elim (acts.payload_readable v st w) [
    | none ↦ with_error (acts.start_attempt st.base w)
    | some e ↦ with_error (some e, w)
  ]
  act v st at_replan w = with_error (acts.start_attempt st.base w)
  act v st at_plan w = with_stop (acts.run_stage v st w)
  act v st at_review w = with_stop (acts.run_stage v st w)
  act v st at_developer w = with_stop (acts.run_stage v st w)
  act v st at_plan_finish w = with_error (acts.finish_stage v st w)
  act v st at_review_finish w = with_error (acts.finish_stage v st w)
  act v st at_verifier_finish w = with_error (acts.finish_stage v st w)
  act v st to_verifier w = with_error (acts.to_verifier v st w)
  act v st at_ship w = with_stop (acts.ship v st w)
  act v st verified w =
      if rendered_pushed v.events st.attempt
      then (err (ok (told st)), w)
      else settled_head st (acts.settle_verdict v st w)
  act v st next_attempt w = settled_attempt st (acts.settle_verdict v st w)

  unfoldable pub act_once : W → Turn W
  act_once w = elim (acts.shape_view w) [
    | err message ↦ (err (err message), w)
    | ok v ↦ act v (loop_position v) (loop_position v).pos w
  ]

  -- The loop, on the acts that are left.
  unfoldable pub advance_for : ℕ → W → Result Text Advance × W
  advance_for zero w = (
    err (
        task ++ codes ": the driver did not come to a verified head, a wait or a stop in 100 acts"),
    w,
  )
  advance_for (suc k) w =
      let (turn, w') = act_once w in elim turn [ err r ↦ (r, w') | ok u ↦ advance_for k w' ]

  -- `AdvanceShapeTask`.
  unfoldable pub advance_shape_task : W → Result Text Advance × W
  advance_shape_task w =
      let (error, w') = acts.repair w in
      elim error [ some e ↦ (err (message_of e), w') | none ↦ advance_for max_acts w' ]
