-- ===== src/Attempts/Told.antt =====
-- internal/run/shapeloop.go: when `AdvanceShapeTask` tells that a task is verified.
use layup.Base.{
  ℕ, zero, suc, ◌≡◌, ◌≢◌, ◌⊎◌, inl, inr, refl, true, [], ◌∷◌, Option, none, some, arith, is_empty,
  ok, err, Bool-cases, Option-cases, Result-cases,
}
use layup.Text.{Text}
use layup.Loop.Types.{Advance}
use layup.Attempts.View.{View}
use layup.Attempts.Sorting.{
  Position, at_attempt, at_plan, at_plan_finish, at_review, at_review_finish, at_developer,
  to_verifier, at_ship, at_verifier_finish, verified, next_attempt, waits, stopped, at_question,
  at_retry, at_replan, LoopStep,
}
use layup.Attempts.Walk.{loop_position}
use layup.Attempts.Driver.{
  ActError, recorded, other, Acted, Acts, rendered_pushed, Turn, max_acts, behind_act, waited,
  settled_head, settled_attempt, act, act_once, advance_for, advance_shape_task,
}
use layup.Attempts.Verified.{IsVerified}
use layup.Attempts.Settled.{Settled, loop_position-IsVerified}

module _ {W : Type 0} (acts : Acts W) (task base : Text) where
  -- A part that returns an advance does not tell verified.
  Quiet : Turn W → Type 0
  Quiet t = (a : Advance) → t.0 ≡ err (ok a) → a.verified ≢ true

  behind_act-Quiet : (x : Acted × W) → Quiet (behind_act acts task base x)
  unfolding Quiet behind_act
  behind_act-Quiet (x, w) a e v = elim (Bool-cases (is_empty x.stop)) [
    | inr stops ↦ absurd (ground arith)
    | inl on ↦ elim (Bool-cases (is_empty x.wait)) [
      | inr waiting ↦ absurd (ground arith)
      | inl none_waits ↦ elim (Option-cases x.error) [
        | inl fine ↦ absurd (ground arith)
        | inr (recorded t, there) ↦ absurd (ground arith)
        | inr (other t, there) ↦ absurd (ground arith)
      ]
    ]
  ]

  waited-Quiet : (st : LoopStep) (x : Option ActError × W) → Quiet (waited acts task base st x)
  unfolding Quiet waited
  waited-Quiet st (none, w) a e v = absurd (ground arith)
  waited-Quiet st (some r, w) a e v = absurd (ground arith)

  settled_attempt-Quiet :
      (st : LoopStep) (x : (Text × Option ActError) × W)
      → Quiet (settled_attempt acts task base st x)
  unfolding settled_attempt
  settled_attempt-Quiet st (([], none), w) = behind_act-Quiet (
    record { stop = []; wait = []; error = (acts.start_attempt st.base w).0 },
    (acts.start_attempt st.base w).1,
  )
  settled_attempt-Quiet st (([], some r), w) =
      behind_act-Quiet (record { stop = []; wait = []; error = some r }, w)
  settled_attempt-Quiet st ((c ∷ s, error), w) =
      behind_act-Quiet (record { stop = c ∷ s; wait = []; error = error }, w)

  -- The verdict was settled without a stop and without an error, or before the rendered commit.
  SettledVerdict : View → LoopStep → W → Type 0
  SettledVerdict v st w =
      (rendered_pushed v.events st.attempt ≡ true) ⊎ ((acts.settle_verdict v st w).0 ≡ ([], none))

  settled_head-told :
      (st : LoopStep) (x : (Text × Option ActError) × W) (a : Advance)
      → (settled_head acts task base st x).0 ≡ err (ok a)
      → a.verified ≡ true
      → (a.head ≡ st.head) × (x.0 ≡ ([], none))
  unfolding settled_head
  settled_head-told st (([], none), w) a e v = (cc, refl)
  settled_head-told st (([], some r), w) a e v =
      absurd (
        unfold Quiet in behind_act-Quiet (record { stop = []; wait = []; error = some r }, w) a e v)
  settled_head-told st ((c ∷ s, error), w) a e v = absurd (
      unfold Quiet in behind_act-Quiet (record { stop = c ∷ s; wait = []; error = error }, w) a e v)

  act-told :
      (v : View) (st : LoopStep) (p : Position) (w : W) (a : Advance)
      → (act acts task base v st p w).0 ≡ err (ok a)
      → a.verified ≡ true
      → (p ≡ verified) × (a.head ≡ st.head) × SettledVerdict v st w
  unfolding act Quiet SettledVerdict
  act-told v st stopped w a e t = absurd (ground arith)
  act-told v st waits w a e t = absurd (waited-Quiet st (acts.settle v st w) a e t)
  act-told v st at_question w a e t = absurd (behind_act-Quiet (acts.ask_stage v st w) a e t)
  act-told v st at_attempt w a e t = absurd (behind_act-Quiet _ a e t)
  act-told v st at_retry w a e t = elim (Option-cases (acts.payload_readable v st w)) [
    | inl readable ↦ absurd (behind_act-Quiet _ a (rw (act, readable) at e) t)
    | inr (r, unread) ↦ absurd (behind_act-Quiet _ a (rw (act, unread) at e) t)
  ]
  act-told v st at_replan w a e t = absurd (behind_act-Quiet _ a e t)
  act-told v st at_plan w a e t = absurd (behind_act-Quiet _ a e t)
  act-told v st at_review w a e t = absurd (behind_act-Quiet _ a e t)
  act-told v st at_developer w a e t = absurd (behind_act-Quiet _ a e t)
  act-told v st at_plan_finish w a e t = absurd (behind_act-Quiet _ a e t)
  act-told v st at_review_finish w a e t = absurd (behind_act-Quiet _ a e t)
  act-told v st at_verifier_finish w a e t = absurd (behind_act-Quiet _ a e t)
  act-told v st to_verifier w a e t = absurd (behind_act-Quiet _ a e t)
  act-told v st at_ship w a e t = absurd (behind_act-Quiet _ a e t)
  act-told v st next_attempt w a e t =
      absurd (settled_attempt-Quiet st (acts.settle_verdict v st w) a e t)
  act-told v st verified w a e t = elim (Bool-cases (rendered_pushed v.events st.attempt)) [
    | inl rendered ↦ (refl, ground arith, inl rendered)
    | inr own ↦
        let (head, settled) =
          settled_head-told st (acts.settle_verdict v st w) a (rw (act, own) at e) t in
        (refl, head, inr settled)
  ]

  -- What an advance that tells a verified head rests on: the records, as they were read at some state.
  pub record IsTold (a : Advance) : Type 0 where
    pub read_at : W
    pub view : View
    pub read : acts.shape_view read_at ≡ ok view
    pub position : (loop_position view).pos ≡ verified
    pub is : IsVerified view (loop_position view)
    pub settled : Settled view (loop_position view)
    pub head : a.head ≡ (loop_position view).head
    pub verdict :
        (rendered_pushed view.events (loop_position view).attempt ≡ true)
        ⊎ ((acts.settle_verdict view (loop_position view) read_at).0 ≡ ([], none))

  act_once-IsTold :
      (w : W) (a : Advance)
      → (act_once acts task base w).0 ≡ err (ok a)
      → a.verified ≡ true
      → IsTold a
  unfolding act_once SettledVerdict
  act_once-IsTold w a e t = elim (Result-cases (acts.shape_view w)) [
    | inr (message, bad) ↦ absurd (ground arith)
    | inl (v, read) ↦
        let (position, head, verdict) =
          act-told v (loop_position v) (loop_position v).pos w a (rw (act_once, read) at e) t in
        let (is, settled) = loop_position-IsVerified v position in
        record {
          read_at = w;
          view = v;
          read = read;
          position = position;
          is = is;
          settled = settled;
          head = head;
          verdict = verdict;
        }
  ]

  advance_for-IsTold :
      (k : ℕ) (w : W) (a : Advance)
      → (advance_for acts task base k w).0 ≡ ok a
      → a.verified ≡ true
      → IsTold a
  unfolding advance_for
  advance_for-IsTold zero w a e t = absurd (cc)
  advance_for-IsTold (suc k) w a e t = elim (Result-cases (act_once acts task base w).0) [
    | inr (r, ends) ↦ act_once-IsTold w a (ground arith) t
    | inl (u, on) ↦
        advance_for-IsTold k (act_once acts task base w).1 a (rw (advance_for, on) at e) t
  ]

  -- Where `AdvanceShapeTask` tells a verified head, whatever its acts do, it read records of the task
  -- whose position is verified at that head, as `IsVerified` and `Settled` say, and the verdict was
  -- settled there with no stop and no error, or the attempt has a push or a bound of code.
  pub advance_shape_task-IsTold :
      (w : W) (a : Advance)
      → (advance_shape_task acts task base w).0 ≡ ok a
      → a.verified ≡ true
      → IsTold a
  unfolding advance_shape_task
  advance_shape_task-IsTold w a e t = elim (Option-cases (acts.repair w).0) [
    | inl repaired ↦
        advance_for-IsTold max_acts (acts.repair w).1 a (rw (advance_shape_task, repaired) at e) t
    | inr (r, there) ↦ absurd (ground arith)
  ]
