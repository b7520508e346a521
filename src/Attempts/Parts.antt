-- ===== src/Attempts/Parts.antt =====
-- internal/run/shapeloop.go: what the stages of `loopPosition` pass on, and what they return.
use mathlib.Core.Path.{subst}
use layup.Base.{
  ◌≡◌, ◌≢◌, ◌⊎◌, inl, inr, refl, sym, ap, true, false, List, [], some, arith, is_empty, Result, ok,
  err, ◌>>=◌, Bool-cases, Option-cases,
}
use layup.Text.{text_eq, text_eq_iff, Text, codes}
use layup.Attempts.View.{View, dev_step, last_handoff, is_valid}
use layup.Attempts.Stages.{
  Outcome, running, finished, failed, outcome, Stage, to_run, to_finish, stage_done, stage_stop,
  stage_of_handoff, stage, last_of,
}
use layup.Attempts.Rejections.{reject_of}
use layup.Attempts.Sorting.{Position, at_plan, at_plan_finish, verified, LoopStep}
use layup.Attempts.Position.{
  arrow, session_of, pass_stage, plan_stage, review_pair, review_done, review_step, review_stage,
  bound_head, dev_handoff, dev_head, dev_stage,
}

-- The session ended completed, and its last handoff is valid.
abbrev pub HandedOff : View → Text → Text → Type 0
HandedOff v id step =
    (outcome v id step ≡ finished)
    × ((d : Text) × (last_handoff v id ≡ some d) × (is_valid d ≡ true))

Outcome-cases : (o : Outcome) → (o ≡ running) ⊎ ((o ≡ finished) ⊎ ((msg : Text) × (o ≡ failed msg)))
Outcome-cases running = inl refl
Outcome-cases finished = inr (inl refl)
Outcome-cases (failed msg) = inr (inr (msg, refl))

pub stage-done :
    (v : View) (ids : List Text) (step pair : Text) {id : Text}
    → stage v ids step pair ≡ stage_done id
    → (last_of ids ≡ some id) × HandedOff v id step
unfolding stage stage_of_handoff
stage-done v ids step pair {id} e = elim (Option-cases (last_of ids)) [
  | inl no_one ↦ absurd (ground arith)
  | inr (last, there) ↦ elim (Outcome-cases (outcome v last step)) [
    | inl o ↦ absurd (ground arith)
    | inr (inr (msg, o)) ↦ absurd (ground arith)
    | inr (inl o) ↦ elim (Option-cases (last_handoff v last)) [
      | inl no_handoff ↦ absurd (ground arith)
      | inr (d, handed) ↦ elim (Bool-cases (is_valid d)) [
        | inr invalid ↦ absurd (ground arith)
        | inl valid ↦
            let same : last ≡ id = ground arith in
            subst (λ z. (last_of ids ≡ some z) × HandedOff v z step) same
              (there, (o, (d, handed, valid)))
      ]
    ]
  ]
]

-- A part that returns does not tell verified.
abbrev pub Passes : {A : Type 0} → Result LoopStep A → Type 0
Passes m = (s : LoopStep) → m ≡ err s → s.pos ≢ verified

-- A chain that tells verified went on behind a part that does not.
pub behind :
    {A : Type 0} (m : Result LoopStep A) (next : A → Result LoopStep LoopStep) {s : LoopStep}
    → Passes m
    → (m >>= next) ≡ err s
    → s.pos ≡ verified
    → (a : A) × (m ≡ ok a) × (next a ≡ err s)
behind (err r) next {s} p e h = absurd (p s (cc) h)
behind (ok a) next p e h = (a, refl, e)

pub pass_stage-ok :
    (step : LoopStep) (run end : Position) (st : Stage) {s : LoopStep}
    → pass_stage step run end st ≡ ok s
    → (id : Text) × (st ≡ stage_done id) × (step ≡ s)
unfolding pass_stage
pass_stage-ok step run end to_run e = cc
pass_stage-ok step run end (to_finish id) e = cc
pass_stage-ok step run end (stage_stop id msg) e = cc
pass_stage-ok step run end (stage_done id) e = (id, refl, cc)

pub pass_stage-Passes :
    (step : LoopStep) (run end : Position) (st : Stage)
    → run ≢ verified
    → end ≢ verified
    → Passes (pass_stage step run end st)
unfolding pass_stage
pass_stage-Passes step run end to_run r n s e h = r (cc)
pass_stage-Passes step run end (to_finish id) r n s e h = n (cc)
pass_stage-Passes step run end (stage_stop id msg) r n s e h = cc
pass_stage-Passes step run end (stage_done id) r n s e h = cc

pub plan_stage-Passes :
    (v : View) (step : LoopStep) (ids : List Text) → Passes (plan_stage v step ids)
unfolding plan_stage
plan_stage-Passes v step ids = pass_stage-Passes _ at_plan at_plan_finish _ (λ e. cc) (λ e. cc)

review_done-Passes :
    (v : View) (rep : List (Text × Text)) (step : LoopStep) (id : Text)
    → Passes (review_done v rep step id)
unfolding review_done
review_done-Passes v rep step id s e h = elim (Option-cases (reject_of v rep id)) [
  | inl kept ↦ absurd (ground arith)
  | inr (reasons, rejected) ↦ absurd (ground arith)
]

pub review_step-Passes :
    (v : View) (rep : List (Text × Text)) (step : LoopStep) (st : Stage)
    → Passes (review_step v rep step st)
unfolding review_step
review_step-Passes v rep step to_run s e h = cc
review_step-Passes v rep step (to_finish id) s e h = cc
review_step-Passes v rep step (stage_stop id msg) s e h = absurd (ground arith)
review_step-Passes v rep step (stage_done id) s e h = review_done-Passes v rep step id s e h

pub review_stage-Passes :
    (v : View) (rep : List (Text × Text)) (step : LoopStep) (ids : List Text)
    → Passes (review_stage v rep step ids)
unfolding review_stage
review_stage-Passes v rep step ids = review_step-Passes v rep _ _

pub dev_stage-Passes :
    (v : View) (step : LoopStep) (ids : List Text) → Passes (dev_stage v step ids)
unfolding dev_stage dev_head dev_handoff
dev_stage-Passes v step ids s e h = elim (Option-cases (last_of ids)) [
  | inl no_one ↦ absurd (ground arith)
  | inr (last, there) ↦ elim (Outcome-cases (outcome v last (dev_step v.kind))) [
    | inl o ↦ absurd (ground arith)
    | inr (inr (msg, o)) ↦ absurd (ground arith)
    | inr (inl o) ↦ elim (Option-cases (last_handoff v last)) [
      | inl no_handoff ↦ absurd (ground arith)
      | inr (d, handed) ↦ absurd (ground arith)
    ]
  ]
]

pub plan_stage-ok :
    (v : View) (step : LoopStep) (ids : List Text) {s : LoopStep}
    → plan_stage v step ids ≡ ok s
    → ((id : Text) × (last_of ids ≡ some id) × HandedOff v id (codes "the plan"))
      × (s.attempt ≡ step.attempt)
unfolding plan_stage
plan_stage-ok v step ids {s} e =
    let pair = arrow (codes "task plan") (codes "plan review") in
    let (id, done, same) =
      pass_stage-ok _ at_plan at_plan_finish (stage v ids (codes "the plan") pair) e in
    (
      (
        id,
        (stage-done v ids (codes "the plan") pair done).0,
        (stage-done v ids (codes "the plan") pair done).1,
      ),
      ap (λ (z : LoopStep). z.attempt) (sym same),
    )

review_step-ok :
    (v : View) (rep : List (Text × Text)) (step : LoopStep) (st : Stage) {s : LoopStep}
    → review_step v rep step st ≡ ok s
    → (id : Text) × (st ≡ stage_done id)
      × (v.unread id ≡ false)
      × (v.verdicts id ≢ codes "reject")
      × (step ≡ s)
unfolding review_step review_done
review_step-ok v rep step to_run e = cc
review_step-ok v rep step (to_finish id) e = cc
review_step-ok v rep step (stage_stop id msg) e = absurd (ground arith)
review_step-ok v rep step (stage_done id) e = elim (Option-cases (reject_of v rep id)) [
  | inl kept ↦
      let named = text_eq_iff (v.verdicts id) (codes "reject") in
      let admitted : text_eq (v.verdicts id) (codes "reject") ≡ false = ground arith in
      (id, refl, ground arith, (λ same. absurd (cc (named.1 same, admitted))), ground arith)
  | inr (reasons, rejected) ↦ absurd (ground arith)
]

pub review_stage-ok :
    (v : View) (rep : List (Text × Text)) (step : LoopStep) (ids : List Text) {s : LoopStep}
    → review_stage v rep step ids ≡ ok s
    → ((id : Text) × (last_of ids ≡ some id)
        × HandedOff v id (codes "the plan review")
        × (v.unread id ≡ false)
        × (v.verdicts id ≢ codes "reject"))
      × (s.attempt ≡ step.attempt)
unfolding review_stage
review_stage-ok v rep step ids e =
    let st = stage v ids (codes "the plan review") (review_pair v ids) in
    let (id, done, read, admitted, same) =
      review_step-ok v rep (record step { session = session_of st }) st e in
    (
      (
        id,
        (stage-done v ids (codes "the plan review") (review_pair v ids) done).0,
        (stage-done v ids (codes "the plan review") (review_pair v ids) done).1,
        read,
        admitted,
      ),
      ap (λ (z : LoopStep). z.attempt) (sym same),
    )

pub dev_stage-ok :
    (v : View) (step : LoopStep) (ids : List Text) {s : LoopStep}
    → dev_stage v step ids ≡ ok s
    → (id : Text) × (last_of ids ≡ some id)
      × HandedOff v id (dev_step v.kind)
      × (bound_head id [] v.events ≡ s.head)
      × (is_empty s.head ≡ false)
      × (s.attempt ≡ step.attempt)
unfolding dev_stage dev_head dev_handoff
dev_stage-ok v step ids {s} e = elim (Option-cases (last_of ids)) [
  | inl no_one ↦ absurd (ground arith)
  | inr (last, there) ↦ elim (Outcome-cases (outcome v last (dev_step v.kind))) [
    | inl o ↦ absurd (ground arith)
    | inr (inr (msg, o)) ↦ absurd (ground arith)
    | inr (inl o) ↦ elim (Option-cases (last_handoff v last)) [
      | inl no_handoff ↦ absurd (ground arith)
      | inr (d, handed) ↦
          let has_head : is_empty (bound_head last [] v.events) ≡ false = ground arith in
          let valid : is_valid d ≡ true = ground arith in
          let same : record step { session = last; head = bound_head last [] v.events } ≡ s =
            ground arith in
          subst
            (λ (z : LoopStep).
              (id : Text) × (last_of ids ≡ some id)
              × HandedOff v id (dev_step v.kind)
              × (bound_head id [] v.events ≡ z.head)
              × (is_empty z.head ≡ false)
              × (z.attempt ≡ step.attempt))
            same (last, there, (o, (d, handed, valid)), refl, has_head, refl)
    ]
  ]
]
