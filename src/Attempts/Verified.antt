-- ===== src/Attempts/Verified.antt =====
-- internal/run/shapeloop.go: what a task holds that `loopPosition` tells verified.
use mathlib.Core.Path.{subst}
use layup.Base.{
  ℕ, ◌≡◌, ◌≢◌, inl, inr, refl, sym, ap, ◌∙◌, true, false, ◌&&◌, List, [], ◌∷◌, Option, none, some,
  arith, ◌==◌, All, err, Bool-cases,
}
use layup.Text.{Text, codes, text_eq, text_eq_iff}
use layup.Text.Numbers.{decimal_text}
use layup.Attempts.View.{ReviewRecord, View, dev_step}
use layup.Attempts.Stages.{stage, last_of, nothing_material}
use layup.Attempts.Sorting.{at_ship, at_verifier_finish, verified, LoopStep, Sessions}
use layup.Attempts.Position.{
  session_of, pass_stage, plan_stage, review_stage, bound_head, dev_stage, started_from, at_head,
  verdict_step, verifier_stage,
}
use layup.Attempts.Walk.{walk_stages}
use layup.Attempts.Listed.{IsDeveloper, IsVerifier, IsPlanner, IsReview, Listed}
use layup.Attempts.Retries.{retries}
use layup.Attempts.Rejections.{reopened_by}
use layup.Attempts.Parts.{
  HandedOff, stage-done, behind, pass_stage-ok, pass_stage-Passes, plan_stage-Passes,
  review_stage-Passes, dev_stage-Passes, plan_stage-ok, review_stage-ok, dev_stage-ok,
}

-- The last attempt before this one whose plan a review rejected, 0 for none.
abbrev pub reopened_at : View → ℕ → ℕ
reopened_at v n = (reopened_by v (retries v).replaced n).0

pub record IsVerified (v : View) (s : LoopStep) : Type 0 where
  pub plan :
      (id : Text) × IsPlanner v (reopened_at v s.attempt) id × HandedOff v id (codes "the plan")
  pub plan_review :
      (id : Text) × IsReview v (reopened_at v s.attempt) id
      × HandedOff v id (codes "the plan review")
      × (v.unread id ≡ false)
      × (v.verdicts id ≢ codes "reject")
  pub developer :
      (id : Text) × IsDeveloper v (decimal_text s.attempt) id
      × HandedOff v id (dev_step v.kind)
      × (bound_head id [] v.events ≡ s.head)
  pub has_head : s.head ≢ []
  pub verifier : IsVerifier v (decimal_text s.attempt) s.session
  pub verification : HandedOff v s.session (codes "the verification")
  pub at_its_head : started_from v s.head s.session ≡ true
  pub verdict :
      (r : ReviewRecord) × (v.records s.session ≡ some r)
      × (r.verdict ≡ nothing_material)
      × (r.findings ≡ 0)

at_head-All :
    (v : View) (head : Text) (Q : Text → Type 0) (ids : List Text)
    → All Q ids
    → All (λ id. Q id × (started_from v head id ≡ true)) (at_head v head ids)
unfolding at_head
at_head-All v head Q [] a = tt
at_head-All v head Q (id ∷ ids) a = elim (Bool-cases (started_from v head id)) [
  | inl started ↦ rw (at_head, started) ((a.0, started), at_head-All v head Q ids a.1)
  | inr other ↦ rw (at_head, other) (at_head-All v head Q ids a.1)
]

last_of-All :
    (P : Text → Type 0) (ids : List Text) {id : Text} → All P ids → last_of ids ≡ some id → P id
unfolding last_of
last_of-All P [] a e = cc
last_of-All P (x ∷ []) a e = subst P (cc) a.0
last_of-All P (x ∷ y ∷ ids) a e = last_of-All P (y ∷ ids) a.1 e

verdict-verified :
    (v : View) (granted : ℕ) (step : LoopStep) (o : Option ReviewRecord) {s : LoopStep}
    → verdict_step v granted step o ≡ s
    → s.pos ≡ verified
    → (r : ReviewRecord) × (o ≡ some r)
      × (r.verdict ≡ nothing_material)
      × (r.findings ≡ 0)
      × (s.session ≡ step.session)
      × (s.head ≡ step.head)
      × (s.attempt ≡ step.attempt)
unfolding verdict_step
verdict-verified v granted step none e h = absurd (ground arith)
verdict-verified v granted step (some r) {s} e h =
    elim (Bool-cases (text_eq r.verdict nothing_material && (r.findings == 0))) [
      | inr material ↦ absurd (ground arith)
      | inl clean ↦ (
        r,
        refl,
        (text_eq_iff r.verdict nothing_material).0 (ground arith),
        ground arith,
        ground arith,
        ground arith,
        ground arith,
      )
    ]

-- What the stage of the verifier leaves of a task that is told verified.
verifier_stage-verified :
    (v : View) (granted : ℕ) (step : LoopStep) (ids : List Text) {s : LoopStep}
    → verifier_stage v granted step ids ≡ err s
    → s.pos ≡ verified
    → (last_of ids ≡ some s.session)
      × HandedOff v s.session (codes "the verification")
      × ((r : ReviewRecord) × (v.records s.session ≡ some r)
          × (r.verdict ≡ nothing_material)
          × (r.findings ≡ 0))
      × (s.head ≡ step.head)
      × (s.attempt ≡ step.attempt)
unfolding verifier_stage
verifier_stage-verified v granted step ids {s} e h =
    let st = stage v ids (codes "the verification") (codes "verifier") in
    let step' = record step { session = session_of st } in
    let (mid, passed, told) =
      behind (pass_stage step' at_ship at_verifier_finish st) _
        (pass_stage-Passes step' at_ship at_verifier_finish st (λ x. cc) (λ x. cc)) e h in
    let (id, done, same) = pass_stage-ok step' at_ship at_verifier_finish st passed in
    let (last, handed) = stage-done v ids (codes "the verification") (codes "verifier") done in
    let (r, there, verdict, none_found, session, head, attempt) =
      verdict-verified v granted mid (v.records mid.session) {s = s} (cc) h in
    let is : s.session ≡ id =
      session
      ∙ ap (λ (z : LoopStep). z.session) (sym same)
      ∙ ap session_of done
      ∙ unfold session_of in refl in
    (
      last ∙ ap some (sym is),
      subst (λ z. HandedOff v z (codes "the verification")) (sym is) handed,
      (r, ap v.records session ∙ there, verdict, none_found),
      head ∙ ap (λ (z : LoopStep). z.head) (sym same),
      attempt ∙ ap (λ (z : LoopStep). z.attempt) (sym same),
    )

pub walk_stages-IsVerified :
    (v : View) (rep : List (Text × Text)) (granted : ℕ) (step : LoopStep) (x : Sessions)
    {s : LoopStep}
    → Listed v (reopened_at v step.attempt) (decimal_text step.attempt) x
    → walk_stages v rep granted step x ≡ err s
    → s.pos ≡ verified
    → IsVerified v s × (s.attempt ≡ step.attempt)
unfolding walk_stages
walk_stages-IsVerified v rep granted step x {s} l e h =
    let (s1, p1, e1) =
      behind (plan_stage v step x.plans) _ (plan_stage-Passes v step x.plans) e h in
    let (s2, p2, e2) =
      behind (review_stage v rep s1 x.reviews) _ (review_stage-Passes v rep s1 x.reviews) e1 h in
    let (s3, p3, e3) = behind (dev_stage v s2 x.devs) _ (dev_stage-Passes v s2 x.devs) e2 h in
    let ((plan, last_plan, planned), a1) = plan_stage-ok v step x.plans p1 in
    let ((review, last_review, reviewed, read, admitted), a2) =
      review_stage-ok v rep s1 x.reviews p2 in
    let (dev, last_dev, handed, bound, full, a3) = dev_stage-ok v s2 x.devs p3 in
    let (last, verification, verdict, head, a4) =
      verifier_stage-verified v granted s3 (at_head v s3.head x.verifiers) e3 h in
    let attempt : s.attempt ≡ step.attempt = a4 ∙ a3 ∙ a2 ∙ a1 in
    let (is_verifier, started) =
      last_of-All _ (at_head v s3.head x.verifiers)
        (at_head-All v s3.head (IsVerifier v (decimal_text step.attempt)) x.verifiers l.verifiers)
        last in
    (
      record {
        plan = (
          plan,
          subst (λ n. IsPlanner v (reopened_at v n) plan) (sym attempt)
              (last_of-All (IsPlanner v (reopened_at v step.attempt)) x.plans l.plans last_plan),
          planned,
        );
        plan_review = (
          review,
          subst (λ n. IsReview v (reopened_at v n) review) (sym attempt)
              (last_of-All (IsReview v (reopened_at v step.attempt)) x.reviews l.reviews
                last_review),
          reviewed,
          read,
          admitted,
        );
        developer = (
          dev,
          subst (λ n. IsDeveloper v (decimal_text n) dev) (sym attempt)
              (last_of-All (IsDeveloper v (decimal_text step.attempt)) x.devs l.devs last_dev),
          handed,
          bound ∙ sym head,
        );
        has_head = λ none_there. absurd (cc (full));
        verifier = subst (λ n. IsVerifier v (decimal_text n) s.session) (sym attempt) is_verifier;
        verification = verification;
        at_its_head = subst (λ z. started_from v z s.session ≡ true) (sym head) started;
        verdict = verdict;
      },
      attempt,
    )
