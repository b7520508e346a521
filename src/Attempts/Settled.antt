-- ===== src/Attempts/Settled.antt =====
-- internal/run/shapeloop.go: `loopPosition` tells verified of a task that is.
use mathlib.Core.Path.{subst}
use layup.Base.{
  ℕ, ◌≡◌, ◌≢◌, inl, inr, refl, sym, ap, ◌∙◌, true, false, List, [], ◌∷◌, arith, ◌==◌, if◌then◌else◌,
  is_empty, All, Result, ok, err, ◌>>=◌, ◌>>◌, >>=-eq-ok, Bool-cases, Result-cases,
}
use layup.Text.{Text, codes}
use layup.Text.Numbers.{decimal_text}
use layup.Attempts.View.{View, is_kind, step_role, dev_step, role_of}
use layup.Attempts.Retries.{retries}
use layup.Attempts.Rejections.{reopened_by}
use layup.Attempts.Sorting.{
  at_question, stopped, verified, LoopStep, latest_attempt, Sessions, sort_sessions,
}
use layup.Attempts.Position.{verifier_stage, plan_stage, review_stage, dev_stage}
use layup.Attempts.Grants.{grant_of}
use layup.Attempts.Walk.{
  asking, asks, walk_stages, walk_retries, check_bounds, check_starts, returned, no_sessions,
  loop_position,
}
use layup.Attempts.Listed.{sorted-Listed}
use layup.Attempts.Parts.{behind}
use layup.Attempts.Verified.{IsVerified, walk_stages-IsVerified}
use layup.Attempts.Checks.{
  AttemptsTo, latest_attempt-le, stray_bound-none, check_bounds-Passes, check_bounds-none,
  check_starts-Passes, sort_sessions-Passes,
}

-- What a task has left behind beside the stages of the attempt.
pub record Settled (v : View) (s : LoopStep) : Type 0 where
  pub latest : AttemptsTo s.attempt v.events
  pub not_asked : asking v (decimal_text s.attempt) ≡ []
  pub no_retry : (retries v).pending ≡ []
  pub own_bounds :
      All
        (λ e.
          is_kind (codes "bound") e ≡ true
          → is_empty e.session ≡ false
          → role_of v e.session ≡ step_role (dev_step v.kind))
        v.events

no_entry {ℓ} : {A : Type ℓ} → (t : List A) → is_empty t ≡ true → t ≡ []
no_entry [] e = refl
no_entry (c ∷ t) e = cc

ends_in_err :
    (m : Result LoopStep LoopStep) (f : LoopStep → LoopStep) {s : LoopStep}
    → (m >>= λ a. err (f a)) ≢ ok s
ends_in_err (err r) f e = cc
ends_in_err (ok a) f e = cc

-- The chain of the stages ends with a return.
walk_stages_returns :
    (v : View) (rep : List (Text × Text)) (granted : ℕ) (step : LoopStep) (x : Sessions)
    {s : LoopStep}
    → walk_stages v rep granted step x ≢ ok s
unfolding walk_stages verifier_stage
walk_stages_returns v rep granted step x e =
    let (s1, p1, e1) = >>=-eq-ok (plan_stage v step x.plans) _ e in
    let (s2, p2, e2) = >>=-eq-ok (review_stage v rep s1 x.reviews) _ e1 in
    let (s3, p3, e3) = >>=-eq-ok (dev_stage v s2 x.devs) _ e2 in ends_in_err _ _ e3

walk_retries-IsVerified :
    (v : View) (granted : ℕ) (step : LoopStep) {s : LoopStep}
    → walk_retries v granted step ≡ err s
    → s.pos ≡ verified
    → IsVerified v s × (s.attempt ≡ step.attempt) × ((retries v).pending ≡ [])
unfolding walk_retries
walk_retries-IsVerified v granted step {s} e h = elim (Bool-cases (is_empty (retries v).pending)) [
  | inr pending ↦ absurd (ground arith)
  | inl none_pending ↦
      let attempt = decimal_text step.attempt in
      let rep = (retries v).replaced in
      let reopened = (reopened_by v rep step.attempt).0 in
      let (x, sorted, walked) =
        behind (sort_sessions v rep reopened attempt step v.sessions no_sessions)
          (λ x. walk_stages v rep granted step x)
          (sort_sessions-Passes v rep reopened attempt step v.sessions no_sessions)
          (rw none_pending at e) h in
      let (there, same) =
        walk_stages-IsVerified v rep granted step x
          (sorted-Listed v rep reopened attempt step sorted) walked h in
      (there, same, no_entry (retries v).pending none_pending)
]

walk_retries_returns :
    (v : View) (granted : ℕ) (step : LoopStep) {s : LoopStep} → walk_retries v granted step ≢ ok s
unfolding walk_retries
walk_retries_returns v granted step e = elim (Bool-cases (is_empty (retries v).pending)) [
  | inr pending ↦ absurd (ground arith)
  | inl none_pending ↦
      let rep = (retries v).replaced in
      let sorting =
        sort_sessions v rep (reopened_by v rep step.attempt).0 (decimal_text step.attempt) step
          v.sessions no_sessions in
      let (x, sorted, walked) =
        >>=-eq-ok sorting (λ x. walk_stages v rep granted step x) (rw none_pending at e) in
      walk_stages_returns v rep granted step x walked
]

not_asks : (v : View) (n : ℕ) → asks v n ≡ false → is_empty (asking v (decimal_text n)) ≡ true
unfolding asks
not_asks v n e = ground arith

-- The checks and what is behind them.
abbrev checked : View → ℕ → LoopStep → Result LoopStep LoopStep
checked v granted step =
    check_bounds v step
    >> (check_starts v step
        >> (if asks v step.attempt
            then err (record step { pos = at_question })
            else walk_retries v granted step))

checked_returns :
    (v : View) (granted : ℕ) (step : LoopStep) {s : LoopStep} → checked v granted step ≢ ok s
checked_returns v granted step {s} e =
    let (u, p, e1) = >>=-eq-ok (check_bounds v step) _ e in
    let (w, q, e2) = >>=-eq-ok (check_starts v step) _ e1 in
    elim (Bool-cases (asks v step.attempt)) [
      | inl asked ↦ absurd (ground arith)
      | inr quiet ↦ walk_retries_returns v granted step {s = s} (ground arith)
    ]

checked-IsVerified :
    (v : View) (granted : ℕ) (step : LoopStep) {s : LoopStep}
    → AttemptsTo step.attempt v.events
    → checked v granted step ≡ err s
    → s.pos ≡ verified
    → IsVerified v s × Settled v s
checked-IsVerified v granted step {s} latest e h =
    let (u, p, e1) = behind (check_bounds v step) _ (check_bounds-Passes v step) e h in
    let (w, q, e2) = behind (check_starts v step) _ (check_starts-Passes v step) e1 h in
    elim (Bool-cases (asks v step.attempt)) [
      | inl asked ↦ absurd (ground arith)
      | inr quiet ↦
          let (is, same, none_pending) = walk_retries-IsVerified v granted step (ground arith) h in
          (
            is,
            (record {
              latest = subst (λ n. AttemptsTo n v.events) (sym same) latest;
              not_asked =
                  no_entry (asking v (decimal_text s.attempt))
                    (not_asks v s.attempt (ap (asks v) same ∙ quiet));
              no_retry = none_pending;
              own_bounds = stray_bound-none v v.events (check_bounds-none v step u p);
            }),
          )
    ]

-- Where `loopPosition` tells verified: a session of the planner's role, in an attempt later than the
-- last one whose plan was rejected, ended completed and handed off validly; so did a plan review of
-- such an attempt, which can be read and is no reject; a developer session of the told attempt ended
-- completed, handed off validly, and its last bound head is the head that is told; the session that is
-- told is a verifier of that attempt, started at that head, ended completed and handed off validly, and
-- its review record says nothing material and holds no finding. No attempt has a larger number than the
-- one that is told, none of its sessions asked a question, no retry is due, and each bound of a session
-- is of the developer's role.
pub loop_position-IsVerified :
    (v : View)
    → (loop_position v).pos ≡ verified
    → IsVerified v (loop_position v) × Settled v (loop_position v)
unfolding loop_position returned
loop_position-IsVerified v h =
    let p = latest_attempt (0, []) v.events in
    let step : LoopStep = record {
      pos = stopped;
      session = [];
      msg = [];
      attempt = p.0;
      base = p.1;
      head = [];
    } in
    elim (Bool-cases (p.0 == 0)) [
      | inl first ↦ absurd (ground arith)
      | inr some_attempt ↦ elim (Result-cases (checked v (grant_of v) step)) [
        | inl (s, e) ↦ absurd (checked_returns v (grant_of v) step e)
        | inr (s, e) ↦
            let same : loop_position v ≡ s = ground arith in
            subst (λ z. IsVerified v z × Settled v z) (sym same)
              (checked-IsVerified v (grant_of v) step (latest_attempt-le (0, []) v.events).1 e (cc))
      ]
    ]
