-- ===== src/Attempts/Checks.antt =====
-- internal/run/shapeloop.go: what the checks of `loopPosition` leave, and that its sorting stops in no
-- other way.
use layup.Base.{
  ℕ, ◌≤◌, ◌≡◌, inl, inr, true, false, ◌&&◌, List, [], ◌∷◌, none, arith, leb, if◌then◌else◌,
  is_empty, All, ok, Bool-cases, Option-cases, Result-cases,
}
use layup.Text.{Text, codes, text_eq_iff}
use layup.Text.Numbers.{atoi}
use layup.Attempts.View.{
  Event, SessionRow, View, is_kind, step_role, dev_step, role_of, QaKind, review, verifier, neither,
  qa_kind,
}
use layup.Attempts.Sorting.{
  LoopStep, latest_attempt, stray_bound, since, refused_start, Sessions, passed_over, sort_qa,
  sort_role, sort_session, sort_sessions,
}
use layup.Attempts.Walk.{check_bounds, check_starts}
use layup.Attempts.Parts.{Passes}

-- No event attempt has a larger number.
abbrev pub AttemptsTo : ℕ → List Event → Type 0
AttemptsTo n = All (λ e. is_kind (codes "attempt") e ≡ true → atoi e.attempt ≤ n)

pub latest_attempt-le :
    (p : ℕ × Text) (es : List Event)
    → (p.0 ≤ (latest_attempt p es).0) × AttemptsTo (latest_attempt p es).0 es
unfolding latest_attempt
latest_attempt-le p [] = (omega arith, tt)
latest_attempt-le (n, base) (e ∷ es) =
    let a = atoi e.attempt in
    let attempt = is_kind (codes "attempt") e in
    let q : ℕ × Text = if attempt && leb n a then (a, e.base) else (n, base) in
    let n-le : n ≤ q.0 = ground arith in
    let a-le : attempt ≡ true → a ≤ q.0 = λ k. ground (arith, k) in
    let (up, rest) = latest_attempt-le q es in
    (omega (arith, n-le, up), ((λ k. omega (arith, a-le k, up)), rest))

pub stray_bound-none :
    (v : View) (es : List Event)
    → stray_bound v es ≡ none
    → All
        (λ e.
          is_kind (codes "bound") e ≡ true
          → is_empty e.session ≡ false
          → role_of v e.session ≡ step_role (dev_step v.kind))
        es
unfolding stray_bound
stray_bound-none v [] n = tt
stray_bound-none v (e ∷ es) n = (
  (λ is_bound full.
      (text_eq_iff (role_of v e.session) (step_role (dev_step v.kind))).0 (ground arith)),
  stray_bound-none v es (ground arith),
)

pub check_bounds-Passes : (v : View) (step : LoopStep) → Passes (check_bounds v step)
unfolding check_bounds
check_bounds-Passes v step s e h = elim (Option-cases (stray_bound v v.events)) [
  | inl none_there ↦ absurd (ground arith)
  | inr (b, there) ↦ absurd (ground arith)
]

pub check_bounds-none :
    (v : View) (step : LoopStep) (u : Unit {0})
    → check_bounds v step ≡ ok u
    → stray_bound v v.events ≡ none
unfolding check_bounds
check_bounds-none v step u e = elim (Option-cases (stray_bound v v.events)) [
  | inl none_there ↦ none_there
  | inr (b, there) ↦ absurd (ground arith)
]

pub check_starts-Passes : (v : View) (step : LoopStep) → Passes (check_starts v step)
unfolding check_starts
check_starts-Passes v step s e h =
    elim (Option-cases (refused_start v (since step.attempt v.events v.events))) [
      | inl none_there ↦ absurd (ground arith)
      | inr (b, there) ↦ absurd (ground arith)
    ]

module _ (v : View) (rep : List (Text × Text)) (reopened : ℕ) (attempt : Text)
    (step : LoopStep) where
  sort_qa-Passes :
      (s : SessionRow) (q : QaKind) (x : Sessions) → Passes (sort_qa v reopened attempt step s q x)
  unfolding sort_qa
  sort_qa-Passes s review x r e h = ground arith
  sort_qa-Passes s verifier x r e h = ground arith
  sort_qa-Passes s neither x r e h = cc

  sort_role-Passes :
      (s : SessionRow) (x : Sessions) → Passes (sort_role v reopened attempt step s x)
  unfolding sort_role
  sort_role-Passes s x r e h = ground (arith, sort_qa-Passes s (qa_kind v s) x r)

  pub sort_sessions-Passes :
      (ss : List SessionRow) (x : Sessions)
      → Passes (sort_sessions v rep reopened attempt step ss x)
  unfolding sort_sessions sort_session
  sort_sessions-Passes [] x r e h = cc
  sort_sessions-Passes (s ∷ ss) x r e h = elim (Bool-cases (passed_over v rep attempt s)) [
    | inl over ↦ sort_sessions-Passes ss x r (rw (sort_sessions, sort_session, over) at e) h
    | inr taken ↦ elim (Result-cases (sort_role v reopened attempt step s x)) [
      | inr (r', bad) ↦ sort_role-Passes s x r (ground arith) h
      | inl (mid, sorted) ↦
          sort_sessions-Passes ss mid r (rw (sort_sessions, sort_session, taken, sorted) at e) h
    ]
  ]
