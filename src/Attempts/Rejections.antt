-- ===== src/Attempts/Rejections.antt =====
-- internal/run/shapeloop.go: the rejections of a plan by its reviews.
use layup.Base.{
  ℕ, ◌+◌, Bool, false, not, ◌&&◌, ◌||◌, List, [], ◌∷◌, Option, none, some, ltb, leb, if◌then◌else◌,
}
use layup.Text.{Text, codes, text_eq, has_prefix}
use layup.Text.Numbers.{atoi}
use layup.Attempts.View.{SessionRow, View, start_row, last_handoff, is_valid}
use layup.Attempts.Stages.{running, finished, failed, outcome}
use layup.Attempts.Retries.{stage_of, replaced_session, retries}

-- `rejectOf`: the reasons of a plan review that rejected the plan.
unfoldable pub reject_of : View → List (Text × Text) → Text → Option (List Text)
reject_of v rep id = elim (v.rejects id) [
  | none ↦ none
  | some reasons ↦ elim (start_row v id) [
    | none ↦ none
    | some s ↦
        if not (text_eq (stage_of v id) (codes "review"))
          || text_eq (replaced_session rep s.attempt) id
        then none
        else elim (outcome v id (codes "the plan review")) [
          | running ↦ none
          | failed msg ↦ none
          | finished ↦ elim (last_handoff v id) [
            | none ↦ none
            | some detail ↦ if is_valid detail then some reasons else none
          ]
        ]
  ]
]

-- `legacyRejectOf`.
unfoldable pub legacy_reject_of : View → List (Text × Text) → Text → Bool
legacy_reject_of v rep id = elim (v.rejects id) [
  | none ↦ false
  | some reasons ↦ elim (start_row v id) [
    | none ↦ false
    | some s ↦
        if not (text_eq (stage_of v id) (codes "review"))
          || text_eq (replaced_session rep s.attempt) id
        then false
        else elim (outcome v id (codes "the plan review")) [
          | running ↦ false
          | failed msg ↦ false
          | finished ↦ elim (last_handoff v id) [
            | none ↦ false
            | some detail ↦ has_prefix (codes "invalid verdict-field") detail
          ]
        ]
  ]
]

-- The loop of `reopenedBy`, and of `planRejects`.
unfoldable pub reopened_in :
    View → List (Text × Text) → ℕ → ℕ × List Text → List SessionRow → ℕ × List Text
reopened_in v rep attempt best [] = best
reopened_in v rep attempt (best, reasons) (s ∷ ss) =
    let a = atoi s.attempt in
    reopened_in v rep attempt
      (elim (reject_of v rep s.id) [
        | none ↦ (best, reasons)
        | some r ↦ if ltb a attempt && leb best a then (a, r) else (best, reasons)
      ])
      ss

unfoldable pub reopened_by : View → List (Text × Text) → ℕ → ℕ × List Text
unfolding reopened_in
reopened_by v rep attempt = reopened_in v rep attempt (0, []) v.sessions

unfoldable pub rejects_in : View → List (Text × Text) → List SessionRow → ℕ
rejects_in v rep [] = 0
rejects_in v rep (s ∷ ss) =
    elim (reject_of v rep s.id) [ none ↦ 0 | some r ↦ 1 ] + rejects_in v rep ss

unfoldable pub plan_rejects : View → ℕ
unfolding rejects_in
plan_rejects v = rejects_in v (retries v).replaced v.sessions
