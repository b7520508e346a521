-- ===== src/Attempts/Pending.antt =====
-- internal/run/shapeloop.go: the session that the next attempt would replace, by `retries`.
use mathlib.Core.Path.{subst}
use layup.Base.{
  ℕ, zero, suc, ◌+◌, ◌≡◌, ◌⊎◌, inl, inr, refl, false, ◌||◌, [], ◌∷◌, none, some, arith, ◌==◌,
  is_empty, Bool-cases, Option-cases,
}
use layup.Text.{Text}
use layup.Text.Numbers.{decimal_text}
use layup.Attempts.View.{View}
use layup.Attempts.Retries.{
  eligible_end, look_around, replaced_by, Retried, is_spent, retry_end, retry_one, retry_from,
  last_attempt, retries,
}
use layup.Attempts.Spent.{Matched, eligible_end-In, retry_one-Matched}

-- There is no pending session, or the retry of it would be one of a stage and a class not yet spent.
abbrev pub Fits : View → Text → Retried → Type 0
Fits v a r =
    (r.pending ≡ [])
    ⊎ ((key : Text × Text) × Matched v ((a, r.pending) ∷ r.replaced) (key ∷ r.spent))

retry_one-Fits :
    (v : View) (last n : ℕ) (r : Retried)
    → Matched v r.replaced r.spent
    → r.pending ≡ []
    → Fits v (decimal_text last) (retry_one v last n r)
      × ((n == last ≡ false) → (retry_one v last n r).pending ≡ [])
unfolding retry_one retry_end replaced_by eligible_end is_spent
retry_one-Fits v last n r m quiet = elim (Option-cases (eligible_end v (decimal_text n))) [
  | inl none_there ↦ rw (retry_one, none_there) (inl quiet, (λ k. quiet))
  | inr (x, there) ↦ elim (Bool-cases (is_empty x.stage || is_spent x.stage x.class r.spent)) [
    | inl skipped ↦ rw (retry_one, there, skipped) (inl quiet, (λ k. quiet))
    | inr goes ↦
        let a = decimal_text n in
        let around =
          look_around a (decimal_text (n + 1)) x.id 0 v.events
            (record { barred = false; base = []; ended = none; next = none }) in
        let fresh : is_spent x.stage x.class r.spent ≡ false = ground arith in
        let full : is_empty x.stage ≡ false = ground arith in
        let (in_stages, in_classes) = eligible_end-In v a x there full in
        elim (Bool-cases around.barred) [
          | inl barred ↦ rw (retry_one, there, goes, retry_end, barred) (inl quiet, (λ k. quiet))
          | inr clear ↦ elim (Bool-cases (replaced_by around)) [
            | inl behind ↦
                rw (retry_one, there, goes, retry_end, clear, behind) (inl quiet, (λ k. quiet))
            | inr last_one ↦ elim (Bool-cases (n == last)) [
              | inr early ↦
                  rw (retry_one, there, goes, retry_end, clear, last_one, early)
                    (inl quiet, (λ k. quiet))
              | inl at_end ↦
                  let same : n ≡ last = ground arith in
                  rw (retry_one, there, goes, retry_end, clear, last_one, at_end)
                    (
                      inr (
                        (x.stage, x.class),
                        (
                          subst (λ z. eligible_end v (decimal_text z) ≡ some x) same there,
                          in_stages,
                          in_classes,
                          fresh,
                          m,
                        ),
                      ),
                      (λ k. absurd (cc (k))),
                    )
            ]
          ]
        ]
  ]
]

retry_from-Fits :
    (v : View) (last k n : ℕ) (r : Retried)
    → n + k ≡ last + 1
    → Matched v r.replaced r.spent
    → r.pending ≡ []
    → Fits v (decimal_text last) (retry_from v last k n r)
unfolding retry_from
retry_from-Fits v last zero n r e m quiet = inl quiet
retry_from-Fits v last (suc zero) n r e m quiet = (retry_one-Fits v last n r m quiet).0
retry_from-Fits v last (suc (suc k)) n r e m quiet =
    retry_from-Fits v last (suc k) (n + 1) (retry_one v last n r) (omega (arith, e))
      (retry_one-Matched v last n r m) ((retry_one-Fits v last n r m quiet).1 (ground arith))

pub retries-Fits : (v : View) → Fits v (decimal_text (last_attempt 0 v.events)) (retries v)
unfolding retries
retries-Fits v =
    retry_from-Fits v (last_attempt 0 v.events) (last_attempt 0 v.events) 1
      (record { replaced = []; spent = []; pending = [] }) (omega arith) tt refl
