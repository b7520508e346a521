-- ===== src/Posting/Silent.antt =====
-- internal/run/attempt.go: no failure of a check is passed over.
use layup.Base.{
  ◌≡◌, ◌⊎◌, ◌↔◌, inl, inr, refl, sym, ap, ◌∙◌, Bool, true, false, List, [], ◌∷◌, ◌++◌, arith, All,
  Bool-cases,
}
use layup.Text.{Text, codes, text_eq, text_eq_iff, member}
use layup.Posting.Attempts.{
  GateRow, SpecRow, RuleResult, Finding, gate_findings, spec_findings, rules_status, rules_findings,
  expected_failure, findings, check_result_of,
}

gate_findings-nil :
    (rows : List GateRow)
    → gate_findings rows ≡ []
    → All (λ r. (r.result ≡ codes "pass") ⊎ (r.result ≡ codes "clear")) rows
unfolding gate_findings
gate_findings-nil [] e = tt
gate_findings-nil (r ∷ rows) e =
    let passed = text_eq_iff r.result (codes "pass") in
    let cleared = text_eq_iff r.result (codes "clear") in
    (
      elim (Bool-cases (text_eq r.result (codes "pass"))) [
        | inl t ↦ inl (passed.0 t)
        | inr t ↦ inr (cleared.0 (ground arith))
      ],
      gate_findings-nil rows (ground arith),
    )

nil-gate_findings :
    (rows : List GateRow)
    → All (λ r. (r.result ≡ codes "pass") ⊎ (r.result ≡ codes "clear")) rows
    → gate_findings rows ≡ []
unfolding gate_findings
nil-gate_findings [] a = refl
nil-gate_findings (r ∷ rows) a =
    let rest = nil-gate_findings rows a.1 in
    elim a.0 [
      | inl p ↦ let t = (text_eq_iff r.result (codes "pass")).1 p in ground arith
      | inr c ↦ let t = (text_eq_iff r.result (codes "clear")).1 c in ground arith
    ]

-- A table of the gates gives no finding exactly when each row passed or is clear, so a row that is
-- failed or not active is never passed over.
pub gate_findings_iff :
    (rows : List GateRow)
    → (gate_findings rows ≡ [])
      ↔ All (λ (r : GateRow). (r.result ≡ codes "pass") ⊎ (r.result ≡ codes "clear")) rows
gate_findings_iff rows = (gate_findings-nil rows, nil-gate_findings rows)

spec_findings-nil :
    (rows : List SpecRow)
    → spec_findings rows ≡ []
    → All (λ r. text_eq r.result (codes "fail") ≡ false) rows
unfolding spec_findings
spec_findings-nil [] e = tt
spec_findings-nil (r ∷ rows) e = (ground arith, spec_findings-nil rows (ground arith))

append-nil : (xs ys : List Finding) → xs ++ ys ≡ [] → (xs ≡ []) × (ys ≡ [])
append-nil [] ys e = (refl, e)
append-nil (x ∷ xs) ys e = cc

abbrev rule_states : List Text
rule_states = codes "success" ∷ codes "failure" ∷ codes "error" ∷ []

rules_status-other :
    (r : RuleResult) → member r.state rule_states ≡ false → (rules_status r).state ≡ codes "error"
unfolding rules_status
rules_status-other r m = rw m refl

rules_status-known :
    (r : RuleResult) → member r.state rule_states ≡ true → (rules_status r).state ≡ r.state
unfolding rules_status
rules_status-known r m = rw m refl

rules_findings-nil :
    (r : RuleResult)
    → rules_findings r ≡ []
    → text_eq (rules_status r).state (codes "error") ≡ false
    → r.state ≡ codes "success"
unfolding rules_findings
rules_findings-nil r e n =
    let failed : text_eq r.state (codes "failure") ≡ false = ground arith in
    elim (Bool-cases (member r.state rule_states)) [
      | inr m ↦
          absurd (
            cc ((text_eq_iff (rules_status r).state (codes "error")).1 (rules_status-other r m), n))
      | inl m ↦
          let error : text_eq r.state (codes "error") ≡ false =
            ap (λ s. text_eq s (codes "error")) (sym (rules_status-known r m)) ∙ n in
          (text_eq_iff r.state (codes "success")).0 (ground arith)
    ]

expected_failure-batch :
    (kind context : Text)
    → expected_failure kind context ≡ true
    → text_eq kind (codes "batch") ≡ true
unfolding expected_failure
expected_failure-batch kind context e = ground arith

-- A head whose checks give no finding and no stop has a row of the spec check, none of them failed, and
-- the basic rule's result is a success, but for a task of the kind batch.
pub check_result_of-nil :
    (kind : Text) (rows : List SpecRow) (found : Bool) (r : RuleResult)
    → check_result_of kind rows found r ≡ findings []
    → (found ≡ true)
      × All (λ (s : SpecRow). text_eq s.result (codes "fail") ≡ false) rows
      × ((kind ≡ codes "batch") ⊎ (r.state ≡ codes "success"))
unfolding check_result_of
check_result_of-nil kind rows found r e =
    let there : found ≡ true = ground arith in
    let known : text_eq (rules_status r).state (codes "error") ≡ false = ground arith in
    let batch = text_eq_iff kind (codes "batch") in
    elim (Bool-cases (expected_failure kind (codes "layup/rules"))) [
      | inl x ↦
          let (spec, _) = append-nil (spec_findings rows) [] (ground arith) in
          (
            there,
            spec_findings-nil rows spec,
            inl (batch.0 (expected_failure-batch kind (codes "layup/rules") x)),
          )
      | inr x ↦
          let (spec, rule) = append-nil (spec_findings rows) (rules_findings r) (ground arith) in
          (there, spec_findings-nil rows spec, inr (rules_findings-nil r rule known))
    ]
