-- ===== src/Attempts/Listed.antt =====
-- internal/run/shapeloop.go: which sessions `loopPosition` takes for the developers and the verifiers.
use mathlib.Core.Path.{subst}
use layup.Base.{
  ◌<◌, ℕ, ◌≡◌, inl, inr, refl, List, [], ◌∷◌, ◌++◌, arith, ltb, leb, All, ok, Bool-cases,
  Result-cases,
}
use layup.Text.{Text, codes, text_eq, text_eq_iff}
use layup.Text.Numbers.{atoi}
use layup.Members.{Exists}
use layup.Attempts.View.{
  SessionRow, View, step_role, dev_step, qa_kind, QaKind, review, verifier, neither,
}
use layup.Attempts.Sorting.{
  LoopStep, Sessions, passed_over, sort_qa, sort_role, sort_session, sort_sessions,
}

-- A row of sessions.tsv with this ID is of the developer's role and of this attempt.
abbrev pub IsDeveloper : View → Text → Text → Type 0
IsDeveloper v attempt id =
    Exists (λ s. (s.id ≡ id) × (s.role ≡ step_role (dev_step v.kind)) × (s.attempt ≡ attempt))
      v.sessions

-- A row with this ID is a verifier of this attempt.
abbrev pub IsVerifier : View → Text → Text → Type 0
IsVerifier v attempt id =
    Exists
      (λ s.
        (s.id ≡ id)
        × (s.role ≡ step_role (codes "verification"))
        × (qa_kind v s ≡ verifier)
        × (s.attempt ≡ attempt))
      v.sessions

-- A row with this ID is of the planner's role, in an attempt later than the one whose plan was rejected.
abbrev pub IsPlanner : View → ℕ → Text → Type 0
IsPlanner v reopened id =
    Exists
      (λ s.
        (s.id ≡ id) × (s.role ≡ step_role (codes "plan-of-a-task")) × (reopened < atoi s.attempt))
      v.sessions

-- A row with this ID is a plan review, in an attempt later than the one whose plan was rejected.
abbrev pub IsReview : View → ℕ → Text → Type 0
IsReview v reopened id =
    Exists
      (λ s.
        (s.id ≡ id)
        × (s.role ≡ step_role (codes "verification"))
        × (qa_kind v s ≡ review)
        × (reopened < atoi s.attempt))
      v.sessions

pub record Listed (v : View) (reopened : ℕ) (attempt : Text) (x : Sessions) : Type 0 where
  pub plans : All (IsPlanner v reopened) x.plans
  pub reviews : All (IsReview v reopened) x.reviews
  pub devs : All (IsDeveloper v attempt) x.devs
  pub verifiers : All (IsVerifier v attempt) x.verifiers

-- Each row of a list is a row of the view.
abbrev RowsOf : View → List SessionRow → Type 1
RowsOf v = All (λ s. (P : SessionRow → Type 0) → P s → Exists P v.sessions)

All-append :
    {A : Type 0} (P : A → Type 0) (xs : List A) (y : A) → All P xs → P y → All P (xs ++ (y ∷ []))
All-append P [] y h p = (p, tt)
All-append P (x ∷ xs) y h p = (h.0, All-append P xs y h.1 p)

module _ (v : View) (rep : List (Text × Text)) (reopened : ℕ) (attempt : Text)
    (step : LoopStep) where
  sort_qa-Listed :
      (s : SessionRow) (q : QaKind) (x : Sessions) {x' : Sessions}
      → ((P : SessionRow → Type 0) → P s → Exists P v.sessions)
      → s.role ≡ step_role (codes "verification")
      → qa_kind v s ≡ q
      → Listed v reopened attempt x
      → sort_qa v reopened attempt step s q x ≡ ok x'
      → Listed v reopened attempt x'
  unfolding sort_qa
  sort_qa-Listed s review x {x'} row role is l e =
      elim (Bool-cases (leb (atoi s.attempt) reopened)) [
        | inl old ↦ subst (Listed v reopened attempt) (ground arith) l
        | inr new ↦
            let same : record x { reviews = x.reviews ++ (s.id ∷ []) } ≡ x' = ground arith in
            subst (Listed v reopened attempt) same (record {
              plans = l.plans;
              reviews =
                  All-append (IsReview v reopened) x.reviews s.id l.reviews
                    (row _ (refl, role, is, ground arith));
              devs = l.devs;
              verifiers = l.verifiers;
            })
      ]
  sort_qa-Listed s verifier x row role is l e = elim (Bool-cases (text_eq s.attempt attempt)) [
    | inr other ↦ subst (Listed v reopened attempt) (ground arith) l
    | inl this ↦
        let same : record x { verifiers = x.verifiers ++ (s.id ∷ []) } ≡ _ = ground arith in
        subst (Listed v reopened attempt) same (record {
          plans = l.plans;
          reviews = l.reviews;
          devs = l.devs;
          verifiers =
              All-append (IsVerifier v attempt) x.verifiers s.id l.verifiers
                (row _ (refl, role, is, (text_eq_iff s.attempt attempt).0 this));
        })
  ]
  sort_qa-Listed s neither x row role is l e = cc

  sort_role-Listed :
      (s : SessionRow) (x : Sessions) {x' : Sessions}
      → ((P : SessionRow → Type 0) → P s → Exists P v.sessions)
      → Listed v reopened attempt x
      → sort_role v reopened attempt step s x ≡ ok x'
      → Listed v reopened attempt x'
  unfolding sort_role
  sort_role-Listed s x {x'} row l e =
      elim (Bool-cases (text_eq s.role (step_role (codes "plan-of-a-task")))) [
        | inl plan ↦ elim (Bool-cases (ltb reopened (atoi s.attempt))) [
          | inr old ↦ subst (Listed v reopened attempt) (ground arith) l
          | inl new ↦
              let same : record x { plans = x.plans ++ (s.id ∷ []) } ≡ x' = ground arith in
              subst (Listed v reopened attempt) same (record {
                plans = All-append (IsPlanner v reopened) x.plans s.id l.plans (
                    row _ (
                      refl,
                      (text_eq_iff s.role (step_role (codes "plan-of-a-task"))).0 plan,
                      ground arith,
                    ));
                reviews = l.reviews;
                devs = l.devs;
                verifiers = l.verifiers;
              })
        ]
        | inr n₁ ↦ elim (Bool-cases (text_eq s.role (step_role (codes "verification")))) [
          | inl qa ↦
              sort_qa-Listed s (qa_kind v s) x row
                ((text_eq_iff s.role (step_role (codes "verification"))).0 qa) refl l
                (rw (sort_role, n₁, qa) at e)
          | inr n₂ ↦ elim (Bool-cases (text_eq s.role (step_role (dev_step v.kind)))) [
            | inr n₃ ↦ subst (Listed v reopened attempt) (ground arith) l
            | inl dev ↦ elim (Bool-cases (text_eq s.attempt attempt)) [
              | inr other ↦ subst (Listed v reopened attempt) (ground arith) l
              | inl this ↦
                  let same : record x { devs = x.devs ++ (s.id ∷ []) } ≡ _ = ground arith in
                  subst (Listed v reopened attempt) same (record {
                    plans = l.plans;
                    reviews = l.reviews;
                    devs = All-append (IsDeveloper v attempt) x.devs s.id l.devs (
                        row _ (
                          refl,
                          (text_eq_iff s.role (step_role (dev_step v.kind))).0 dev,
                          (text_eq_iff s.attempt attempt).0 this,
                        ));
                    verifiers = l.verifiers;
                  })
            ]
          ]
        ]
      ]

  sort_sessions-Listed :
      (ss : List SessionRow) (x : Sessions) {x' : Sessions}
      → RowsOf v ss
      → Listed v reopened attempt x
      → sort_sessions v rep reopened attempt step ss x ≡ ok x'
      → Listed v reopened attempt x'
  unfolding sort_sessions sort_session
  sort_sessions-Listed [] x rows l e = subst (Listed v reopened attempt) (cc) l
  sort_sessions-Listed (s ∷ ss) x rows l e = elim (Bool-cases (passed_over v rep attempt s)) [
    | inl over ↦ sort_sessions-Listed ss x rows.1 l (rw (sort_sessions, sort_session, over) at e)
    | inr taken ↦ elim (Result-cases (sort_role v reopened attempt step s x)) [
      | inr (r, bad) ↦ absurd (ground arith)
      | inl (mid, sorted) ↦
          sort_sessions-Listed ss mid rows.1 (sort_role-Listed s x rows.0 l sorted)
            (rw (sort_sessions, sort_session, taken, sorted) at e)
    ]
  ]

RowsOf-from :
    (v : View) (ss : List SessionRow)
    → ((P : SessionRow → Type 0) → Exists P ss → Exists P v.sessions)
    → RowsOf v ss
RowsOf-from v [] up = tt
RowsOf-from v (s ∷ ss) up = ((λ P p. up P (inl p)), RowsOf-from v ss (λ P e. up P (inr e)))

-- The sessions that are sorted are those of the view.
pub sorted-Listed :
    (v : View) (rep : List (Text × Text)) (reopened : ℕ) (attempt : Text) (step : LoopStep)
    {x : Sessions}
    → sort_sessions v rep reopened attempt step v.sessions
        (record { plans = []; reviews = []; devs = []; verifiers = [] })
      ≡ ok x
    → Listed v reopened attempt x
sorted-Listed v rep reopened attempt step e =
    sort_sessions-Listed v rep reopened attempt step v.sessions _
      (RowsOf-from v v.sessions (λ P p. p))
      (record { plans = tt; reviews = tt; devs = tt; verifiers = tt }) e
