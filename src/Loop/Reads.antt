-- ===== src/Loop/Reads.antt =====
-- internal/run/loop.go: what the map `has` and `pick` say of the records.
use mathlib.Core.Path.{subst}
use layup.Base.{
  ◌≡◌, ◌⊎◌, inl, inr, refl, Bool, true, false, List, [], ◌∷◌, none, some, arith, All, ok,
  Bool-cases, Option-cases, Result-cases,
}
use layup.Text.{Text, text_eq, text_eq_iff}
use layup.Loop.Types.{Task}
use layup.Loop.Order.{missing_predecessor, pick_task, pick}
use layup.Loop.Running.{LoopEnv, put, read_merged}

missing_predecessor-none :
    (has : Text → Bool) (ps : List Text)
    → missing_predecessor has ps ≡ none
    → All (λ p. has p ≡ true) ps
unfolding missing_predecessor
missing_predecessor-none has [] e = tt
missing_predecessor-none has (p ∷ ps) e = elim (Bool-cases (has p)) [
  | inl yes_merged ↦
      (yes_merged, missing_predecessor-none has ps (rw (missing_predecessor, yes_merged) at e))
  | inr due ↦ absurd (ground arith)
]

-- What is picked has not merged, its predecessors have, and it is of the order.
pub pick-some {ℓ} :
    (Q : Task → Type ℓ) (order : List Task) (has : Text → Bool) (t : Task)
    → All Q order
    → pick order has ≡ ok (some t)
    → (has t.id ≡ false) × All (λ p. has p ≡ true) t.predecessors × Q t
unfolding pick pick_task
pick-some Q [] has t all e = cc
pick-some Q (u ∷ order) has t all e = elim (Bool-cases (has u.id)) [
  | inl past ↦ pick-some Q order has t all.1 (rw (pick, past) at e)
  | inr due ↦ elim (Option-cases (missing_predecessor has u.predecessors)) [
    | inr (p, lacks) ↦ absurd (ground arith)
    | inl whole ↦
        let same : u ≡ t = ground arith in
        subst (λ z. (has z.id ≡ false) × All (λ p. has p ≡ true) z.predecessors × Q z) same
          (due, missing_predecessor-none has u.predecessors whole, all.0)
  ]
]

module _ {W : Type 0} (env : LoopEnv W) (w : W) where
  -- The map agrees with the records at an ID.
  abbrev pub Settled : (Text → Bool) → Text → Type 0
  Settled has id = env.merged id w ≡ ok (has id)

  -- The map is the empty one at an ID, or agrees with the records.
  abbrev pub Told : (Text → Bool) → Text → Type 0
  Told has id = (has id ≡ false) ⊎ Settled has id

  put-Settled :
      (has : Text → Bool) (one : Text) (b : Bool) (id : Text)
      → env.merged one w ≡ ok b
      → Settled has id
      → Settled (put one b has) id
  unfolding put
  put-Settled has one b id m s = elim (Bool-cases (text_eq one id)) [
    | inl same ↦ rw same (subst (λ z. env.merged z w ≡ ok b) ((text_eq_iff one id).0 same) m)
    | inr other ↦ rw other s
  ]

  put-Told :
      (has : Text → Bool) (one : Text) (b : Bool) (id : Text)
      → env.merged one w ≡ ok b
      → Told has id
      → Told (put one b has) id
  unfolding put
  put-Told has one b id m s = elim (Bool-cases (text_eq one id)) [
    | inl same ↦ rw same (inr (subst (λ z. env.merged z w ≡ ok b) ((text_eq_iff one id).0 same) m))
    | inr other ↦ rw other s
  ]

  put_self :
      (has : Text → Bool) (one : Text) (b : Bool)
      → env.merged one w ≡ ok b
      → Settled (put one b has) one
  unfolding put
  put_self has one b m = rw ((text_eq_iff one one).1 refl) m

  -- A property of the map at an ID that each read keeps.
  read_merged-keeps :
      (P : (Text → Bool) → Type 0)
      → ((has : Text → Bool) (one : Text) (b : Bool)
          → env.merged one w ≡ ok b
          → P has
          → P (put one b has))
      → (order : List Task) (has has' : Text → Bool) → read_merged env order has w ≡ ok has'
      → P has
      → P has'
  unfolding read_merged
  read_merged-keeps P keep [] has has' e p = subst P (cc) p
  read_merged-keeps P keep (t ∷ order) has has' e p = elim (Result-cases (env.merged t.id w)) [
    | inr (message, r) ↦ absurd (ground arith)
    | inl (b, r) ↦
        read_merged-keeps P keep order (put t.id b has) has' (rw (read_merged, r) at e)
          (keep has t.id b r p)
  ]

  pub read_merged-Told :
      (order : List Task) (has : Text → Bool)
      → read_merged env order (λ id. false) w ≡ ok has
      → (id : Text) → Told has id
  read_merged-Told order has e id =
      read_merged-keeps (λ h. Told h id) (λ h one b m s. put-Told h one b id m s) order (λ x. false)
        has e (inl refl)

  pub read_merged-Settled :
      (order : List Task) (has has' : Text → Bool)
      → read_merged env order has w ≡ ok has'
      → All (λ t. Settled has' t.id) order
  unfolding read_merged
  read_merged-Settled [] has has' e = tt
  read_merged-Settled (t ∷ order) has has' e = elim (Result-cases (env.merged t.id w)) [
    | inr (message, r) ↦ absurd (ground arith)
    | inl (b, r) ↦
        let later = rw (read_merged, r) at e in
        (
          read_merged-keeps (λ h. Settled h t.id) (λ h one c m s. put-Settled h one c t.id m s)
              order (put t.id b has) has' later (put_self has t.id b r),
          read_merged-Settled order (put t.id b has) has' later,
        )
  ]
