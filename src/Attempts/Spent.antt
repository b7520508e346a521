-- ===== src/Attempts/Spent.antt =====
-- internal/run/shapeloop.go: what `retries` spends.
use mathlib.Core.Path.{subst}
use layup.Base.{
  ℕ, zero, suc, ◌+◌, ◌≡◌, ◌⊎◌, inl, inr, refl, Bool, true, false, ◌||◌, List, [], ◌∷◌, none, some,
  arith, ◌==◌, if◌then◌else◌, is_empty, Bool-cases, Option-cases,
}
use layup.Text.{Text, codes, text_eq}
use layup.Text.Numbers.{decimal_text}
use layup.Members.{In}
use layup.Attempts.View.{
  View, SessionRow, step_role, dev_step, qa_kind, QaKind, review, verifier, neither, start_row,
  answer_session,
}
use layup.Attempts.Retries.{
  stage_of_qa, stage_of_row, stage_of, EndSeen, last_session, see_ends, class_of, Eligible,
  eligible_end, look_around, replaced_by, Retried, is_spent, retry_end, retry_one, retry_from,
  last_attempt, retries,
}

abbrev pub stages : List Text
stages = codes "plan" ∷ codes "developer" ∷ codes "review" ∷ codes "verifier" ∷ []

abbrev pub classes : List Text
classes = codes "uncertain" ∷ codes "artifact" ∷ codes "rule-path" ∷ []

-- A stage of the list, or none.
abbrev IsStage : Text → Type 0
IsStage t = (t ≡ []) ⊎ In t stages

if-IsStage : (b : Bool) (s t : Text) → IsStage s → IsStage t → IsStage (if b then s else t)
if-IsStage true s t h k = h
if-IsStage false s t h k = k

stage_of_qa-IsStage : (q : QaKind) → IsStage (stage_of_qa q)
unfolding stage_of_qa
stage_of_qa-IsStage review = inr (inr (inr (inl refl)))
stage_of_qa-IsStage verifier = inr (inr (inr (inr (inl refl))))
stage_of_qa-IsStage neither = inl refl

stage_of_row-IsStage : (v : View) (s : SessionRow) → IsStage (stage_of_row v s)
unfolding stage_of_row
stage_of_row-IsStage v s =
    if-IsStage (text_eq s.role (step_role (codes "plan-of-a-task"))) _ _ (inr (inl refl)) (
      if-IsStage (text_eq s.role (step_role (dev_step v.kind))) _ _ (inr (inr (inl refl))) (
        if-IsStage (text_eq s.role (step_role (codes "verification"))) _ _
          (stage_of_qa-IsStage (qa_kind v s)) (inl refl)))

stage_of-IsStage : (v : View) (id : Text) → IsStage (stage_of v id)
unfolding stage_of
stage_of-IsStage v id = elim (Option-cases (start_row v id)) [
  | inl none_there ↦ rw (stage_of, none_there) (inl refl)
  | inr (s, there) ↦
      rw (stage_of, there)
        (if-IsStage (answer_session v s) [] (stage_of_row v s) (inl refl)
          (stage_of_row-IsStage v s))
]

-- A class of the list, or none.
abbrev IsClass : Text → Type 0
IsClass t = (t ≡ []) ⊎ In t classes

if-IsClass : (b : Bool) (s t : Text) → IsClass s → IsClass t → IsClass (if b then s else t)
if-IsClass true s t h k = h
if-IsClass false s t h k = k

class_of-IsClass : (status : Text) (s : EndSeen) → IsClass (class_of status s)
unfolding class_of
class_of-IsClass status s = if-IsClass _ _ _ (inr (inl refl)) (
    if-IsClass _ _ _ (inr (inr (inl refl)))
      (if-IsClass _ _ _ (inr (inr (inr (inl refl)))) (inl refl)))

not_empty : (P : Text → Type 0) (t : Text) → (t ≡ []) ⊎ P t → is_empty t ≡ false → P t
not_empty P t (inl e) full = cc
not_empty P t (inr p) full = p

made_of :
    (id stage class : Text) {x : Eligible}
    → (if is_empty id || is_empty class
        then none
        else some (record { id = id; stage = stage; class = class }))
      ≡ some x
    → (stage ≡ x.stage) × (class ≡ x.class) × (is_empty class ≡ false)
made_of id stage class e = (ground arith, ground arith, ground arith)

-- An eligible end that has a stage has one of the list, and a class of the list.
pub eligible_end-In :
    (v : View) (a : Text) (x : Eligible)
    → eligible_end v a ≡ some x
    → is_empty x.stage ≡ false
    → In x.stage stages × In x.class classes
unfolding eligible_end
eligible_end-In v a x e full =
    let id = last_session a [] v.events in
    let s = see_ends id (record { end = []; refusals = 0; detail = [] }) v.events in
    let (stage, class, some_class) = made_of id (stage_of v id) (class_of (v.status id) s) e in
    (
      not_empty (λ t. In t stages) x.stage (subst IsStage stage (stage_of-IsStage v id)) full,
      subst (λ t. In t classes) class
          (not_empty (λ t. In t classes) _ (class_of-IsClass (v.status id) s) some_class),
    )

-- The attempts that are replaced beside what they spent: each has an eligible end of a stage and a
-- class that was not spent before.
abbrev pub Matched : View → List (Text × Text) → List (Text × Text) → Type 0
Matched v [] [] = Unit
Matched v [] (k ∷ spent) = ⊥
Matched v (p ∷ rep) [] = ⊥
Matched v ((a, id) ∷ rep) ((stage, class) ∷ spent) =
    (eligible_end v a ≡ some (record { id = id; stage = stage; class = class }))
    × In stage stages
    × In class classes
    × (is_spent stage class spent ≡ false)
    × Matched v rep spent

pub retry_one-Matched :
    (v : View) (last n : ℕ) (r : Retried)
    → Matched v r.replaced r.spent
    → Matched v (retry_one v last n r).replaced (retry_one v last n r).spent
unfolding retry_one retry_end replaced_by
retry_one-Matched v last n r m = elim (Option-cases (eligible_end v (decimal_text n))) [
  | inl none_there ↦ rw (retry_one, none_there) m
  | inr (x, there) ↦ elim (Bool-cases (is_empty x.stage || is_spent x.stage x.class r.spent)) [
    | inl skipped ↦ rw (retry_one, there, skipped) m
    | inr goes ↦
        let a = decimal_text n in
        let around =
          look_around a (decimal_text (n + 1)) x.id 0 v.events
            (record { barred = false; base = []; ended = none; next = none }) in
        let fresh : is_spent x.stage x.class r.spent ≡ false = ground arith in
        let full : is_empty x.stage ≡ false = ground arith in
        let (in_stages, in_classes) = eligible_end-In v a x there full in
        elim (Bool-cases around.barred) [
          | inl barred ↦ rw (retry_one, there, goes, retry_end, barred) m
          | inr clear ↦ elim (Bool-cases (replaced_by around)) [
            | inl behind ↦
                rw (retry_one, there, goes, retry_end, clear, behind)
                  (there, in_stages, in_classes, fresh, m)
            | inr last_one ↦ elim (Bool-cases (n == last)) [
              | inl at_end ↦ rw (retry_one, there, goes, retry_end, clear, last_one, at_end) m
              | inr early ↦ rw (retry_one, there, goes, retry_end, clear, last_one, early) m
            ]
          ]
        ]
  ]
]

retry_from-Matched :
    (v : View) (last k n : ℕ) (r : Retried)
    → Matched v r.replaced r.spent
    → Matched v (retry_from v last k n r).replaced (retry_from v last k n r).spent
unfolding retry_from
retry_from-Matched v last zero n r m = m
retry_from-Matched v last (suc k) n r m =
    retry_from-Matched v last k (n + 1) (retry_one v last n r) (retry_one-Matched v last n r m)

pub retries-Matched : (v : View) → Matched v (retries v).replaced (retries v).spent
unfolding retries
retries-Matched v =
    retry_from-Matched v (last_attempt 0 v.events) (last_attempt 0 v.events) 1
      (record { replaced = []; spent = []; pending = [] }) tt
