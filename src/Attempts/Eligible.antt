-- ===== src/Attempts/Eligible.antt =====
-- internal/run/cycle.go: which commands `judgeGrants` weighs.
use layup.Base.{
  ℕ, ◌<◌, ◌≡◌, ◌≢◌, ◌⊎◌, inl, inr, refl, ap, ◌∙◌, Bool, true, false, not, ◌&&◌, Option, none, some,
  arith, leb, ◌==◌, if◌then◌else◌, Bool-cases,
}
use layup.Text.{Text, codes, text_eq, text_eq_iff}
use layup.Attempts.View.{View, Copy}
use layup.Attempts.Grants.{
  RefusedFor, Judged, no_cycle, refusal, passes, judge_command, cap_round, id_of, Grants, weigh,
  judge_grant,
}

-- A command for one more cycle of this task that passes each item before the bound.
pub record Eligible (v : View) (c : Copy) : Type 0 where
  pub passed : judge_command c v.control v.approvers ≡ passes v.task
  pub cap : ℕ
  pub verdict : Text
  pub at_cap : cap_round v ≡ some (cap, verdict)
  pub grants : verdict ≢ codes "not mergeable, findings recorded"
  pub later : cap < id_of c

abbrev not_mergeable : Text
not_mergeable = codes "not mergeable, findings recorded"

-- Whether a command is eligible.
weighs : Option (ℕ × Text) → ℕ → Bool
weighs none id = false
weighs (some (cap, verdict)) id = not (text_eq verdict not_mergeable) && not (leb id cap)

pub eligible : View → Copy → Bool
unfolding weighs
eligible v c = elim (judge_command c v.control v.approvers) [
  | no_cycle ↦ false
  | refusal for ↦ false
  | passes task ↦ text_eq task v.task && weighs (cap_round v) (id_of c)
]

weigh-grant :
    (o : Option (ℕ × Text)) (g : Grants) (id : ℕ)
    → (weigh o g id).grant ≡ (if weighs o id && (g.grant == 0) then id else g.grant)
unfolding weigh weighs
weigh-grant none g id = refl
weigh-grant (some (cap, verdict)) g id = ground arith

pub judge_grant-grant :
    (v : View) (g : Grants) (c : Copy)
    → (judge_grant v g c).grant ≡ (if eligible v c && (g.grant == 0) then id_of c else g.grant)
unfolding judge_grant eligible
judge_grant-grant v g c =
    elim (judge_command c v.control v.approvers)
      as (λ (j : Judged).
        (elim j as (λ j. Grants) [
          | no_cycle ↦ g
          | refusal for ↦ g
          | passes task ↦ if not (text_eq task v.task) then g else weigh (cap_round v) g (id_of c)
        ]).grant
        ≡ (if (elim j as (λ j. Bool) [
          | no_cycle ↦ false
          | refusal for ↦ false
          | passes task ↦ text_eq task v.task && weighs (cap_round v) (id_of c)
        ])
              && (g.grant == 0)
            then id_of c
            else g.grant)) [
              | no_cycle ↦ refl
              | refusal for ↦ refl
              | passes task ↦ elim (Bool-cases (text_eq task v.task)) [
                | inl this ↦ rw this (weigh-grant (cap_round v) g (id_of c))
                | inr other ↦ rw other refl
              ]
            ]

Judged-cases :
    (j : Judged)
    → (j ≡ no_cycle) ⊎ (((f : RefusedFor) × (j ≡ refusal f)) ⊎ ((t : Text) × (j ≡ passes t)))
Judged-cases no_cycle = inl refl
Judged-cases (refusal f) = inr (inl (f, refl))
Judged-cases (passes t) = inr (inr (t, refl))

weighs-some :
    (o : Option (ℕ × Text)) (id : ℕ)
    → weighs o id ≡ true
    → (cap : ℕ) × (verdict : Text) × (o ≡ some (cap, verdict))
      × (verdict ≢ not_mergeable)
      × (cap < id)
unfolding weighs
weighs-some none id e = cc
weighs-some (some (cap, verdict)) id e = (
  cap,
  verdict,
  refl,
  (λ same. absurd (ground (arith, (text_eq_iff verdict not_mergeable).1 same))),
  ground arith,
)

pub eligible-Eligible : (v : View) (c : Copy) → eligible v c ≡ true → Eligible v c
unfolding eligible
eligible-Eligible v c e = elim (Judged-cases (judge_command c v.control v.approvers)) [
  | inl n ↦ absurd (ground arith)
  | inr (inl (for, r)) ↦ absurd (ground arith)
  | inr (inr (task, p)) ↦
      let this : text_eq task v.task ≡ true = ground arith in
      let (cap, verdict, there, grants, later) =
        weighs-some (cap_round v) (id_of c) (ground arith) in
      record {
        passed = p ∙ ap passes ((text_eq_iff task v.task).0 this);
        cap = cap;
        verdict = verdict;
        at_cap = there;
        grants = grants;
        later = later;
      }
]

not_true : (b : Bool) → b ≢ true → b ≡ false
not_true true n = absurd (n refl)
not_true false n = refl

pub Eligible-eligible : (v : View) (c : Copy) → Eligible v c → eligible v c ≡ true
unfolding eligible weighs
Eligible-eligible v c h =
    let named : text_eq v.task v.task ≡ true = (text_eq_iff v.task v.task).1 refl in
    let other : text_eq h.verdict not_mergeable ≡ false =
      not_true (text_eq h.verdict not_mergeable)
        (λ same. h.grants ((text_eq_iff h.verdict not_mergeable).0 same)) in
    let later = h.later in rw (eligible, h.passed, named, h.at_cap, weighs, other) (ground arith)
