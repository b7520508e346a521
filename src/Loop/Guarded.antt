-- ===== src/Loop/Guarded.antt =====
-- internal/run/loop.go: the loop acts on a task only when it is due.
use mathlib.Core.Path.{subst}
use layup.Base.{
  ℕ, zero, suc, ◌≡◌, inl, inr, refl, sym, ap, ◌∙◌, Bool, true, false, List, [], ◌∷◌, Option, none,
  some, arith, ltb, All, Result, ok, err, Bool-cases, Option-cases, Result-cases,
}
use layup.Text.{Text}
use layup.Loop.Types.{Task, Reopening, Step, Advance}
use layup.Loop.Order.{original_spec, merge_order, pick}
use layup.Loop.Running.{
  LoopEnv, LoopState, Pass, max_loop_acts, or_fail, to_open, read_merged, judge, act_on,
  act_behind_boundary, turn, take_picked, choose, pass, run_loop,
}
use layup.Loop.Reads.{pick-some, Settled, read_merged-Told, read_merged-Settled}

-- The records say that the task has not merged, and that each of its predecessors has.
abbrev pub Due : {W : Type 0} → LoopEnv W → Task → W → Type 0
Due env t w = (env.merged t.id w ≡ ok false) × All (λ p. env.merged p w ≡ ok true) t.predecessors

or_fail-keeps :
    {W A : Type 0} (P : W → Type 0) (r : Result Text A) (w : W) (next : A → Pass W)
    → P w
    → ((a : A) → r ≡ ok a → P (next a).1)
    → P (or_fail r w next).1
or_fail-keeps P (err message) w next p h = p
or_fail-keeps P (ok a) w next p h = h a refl

pub All-map :
    {A : Type 0} {P Q : A → Type 0} (xs : List A) → ((x : A) → P x → Q x) → All P xs → All Q xs
All-map [] f h = tt
All-map (x ∷ xs) f h = (f x h.0, All-map xs f h.1)

module _ {W : Type 0} (env : LoopEnv W) where
  pub judge-world :
      (st : LoopState) (t : Task) (before : Text) (adv : Advance) (w : W)
      → (judge env st t before adv w).1 ≡ w
  unfolding judge
  judge-world st t before adv w = elim (Result-cases (env.position t w)) [
    | inl (after, p) ↦ ground (arith, p)
    | inr (message, p) ↦ ground (arith, p)
  ]

  -- A map that was read over the order tells that what is picked is due.
  pub picked-Due :
      (order : List Task) (has : Text → Bool) (t : Task) (w : W)
      → read_merged env order (λ id. false) w ≡ ok has
      → pick order has ≡ ok (some t)
      → Due env t w
  picked-Due order has t w r e =
      let settled = read_merged-Settled env w order (λ id. false) has r in
      let (due, whole, is) = pick-some (λ u. Settled env w has u.id) order has t settled e in
      (
        is ∙ ap ok due,
        All-map t.predecessors
            (λ p m. elim (read_merged-Told env w order has r p) [
              | inl nothing ↦ absurd (cc)
              | inr says ↦ says ∙ ap ok m
            ])
            whole,
      )

  module _ (P : W → Type 0) (opens : (id : Text) (w : W) → P w → P (env.open_reopenings id w).1)
      (bounds : (w : W) → P w → P (env.boundary w).1)
      (stays : (id : Text) (w : W) → env.merged id (env.boundary w).1 ≡ env.merged id w)
      (acts : (t : Task) (original : Bool) (w : W)
        → Due env t w
        → P w
        → P (env.act t original w).1) where
    act_on-keeps :
        (rows : List Reopening) (st : LoopState) (t : Task) (w : W)
        → Due env t w
        → P w
        → P (act_on env rows st t w).1
    unfolding act_on
    act_on-keeps rows st t w due p = or_fail-keeps P (env.position t w) w _ p (λ before _.
        or_fail-keeps P (env.act t (original_spec rows t) w).0 _ _
          (acts t (original_spec rows t) w due p)
          (λ adv _.
            subst P (sym (judge-world _ t before adv (env.act t (original_spec rows t) w).1))
              (acts t (original_spec rows t) w due p)))

    boundary-Due : (t : Task) (w : W) → Due env t w → Due env t (env.boundary w).1
    boundary-Due t w due =
        (stays t.id w ∙ due.0, All-map t.predecessors (λ p m. stays p w ∙ m) due.1)

    turn-keeps :
        (rows : List Reopening) (st : LoopState) (t : Task) (w : W)
        → Due env t w
        → P w
        → P (turn env rows st t w).1
    unfolding turn act_behind_boundary
    turn-keeps rows st t w due p = elim (Bool-cases (ltb 0 st.acted)) [
      | inr first ↦ rw (turn, first) (act_on-keeps rows st t w due p)
      | inl later ↦ elim (Result-cases (env.boundary w).0) [
        | inr (message, r) ↦ rw (turn, later, act_behind_boundary, r) (bounds w p)
        | inl (u, r) ↦
            rw (turn, later, act_behind_boundary, r)
              (act_on-keeps rows st t (env.boundary w).1 (boundary-Due t w due) (bounds w p))
      ]
    ]

    take_picked-keeps :
        (rows : List Reopening) (st : LoopState) (found : Option Task) (w : W)
        → ((t : Task) → found ≡ some t → Due env t w)
        → P w
        → P (take_picked env rows st found w).1
    unfolding take_picked
    take_picked-keeps rows st none w due p = p
    take_picked-keeps rows st (some t) w due p = turn-keeps rows st t w (due t refl) p

    choose-keeps :
        (rows : List Reopening) (st : LoopState) (order : List Task) (has : Text → Bool) (w : W)
        → read_merged env order (λ id. false) w ≡ ok has
        → P w
        → P (choose env rows st order has w).1
    unfolding choose
    choose-keeps rows st order has w r p = elim (Option-cases (to_open st.opened has order)) [
      | inl shut ↦
          rw (choose, shut)
            (or_fail-keeps P (pick order has) w _ p (λ found e.
              take_picked-keeps rows st found w (λ t is. picked-Due order has t w r (e ∙ ap ok is))
                p))
      | inr (id, fresh) ↦
          rw (choose, fresh)
            (or_fail-keeps P (env.open_reopenings id w).0 _ _ (opens id w p) (λ u _. opens id w p))
    ]

    pass-keeps : (st : LoopState) (w : W) → P w → P (pass env st w).1
    unfolding pass
    pass-keeps st w p = elim (Bool-cases (ltb max_loop_acts st.acted)) [
      | inl over ↦ rw (pass, over) p
      | inr under ↦
          rw (pass, under)
            (or_fail-keeps P (env.register w) w _ p (λ register _.
              or_fail-keeps P (env.reopenings w) w _ p (λ rows _.
                or_fail-keeps P (merge_order register rows) w _ p (λ order _.
                  or_fail-keeps P (read_merged env order (λ id. false) w) w _ p
                    (λ has r. choose-keeps rows st order has w r p)))))
    ]

    -- A property of the world that the opening of the reopenings and the boundary keep, and that an
    -- act keeps whenever its task is due (it has not merged and each predecessor has), holds at the
    -- end of the loop when it held at its start, if the boundary merges no task.
    pub run_loop-Due :
        (fuel : ℕ) (st : LoopState) (w : W) {step : Step} {w' : W}
        → P w
        → run_loop env fuel st w ≡ some (step, w')
        → P w'
    unfolding run_loop
    run_loop-Due zero st w p e = cc
    run_loop-Due (suc fuel) st w {w' = w'} p e = elim (Result-cases (pass env st w).0) [
      | inr (step', r) ↦
          let same : (pass env st w).1 ≡ w' = cc (rw (run_loop, r) at e) in
          subst P same (pass-keeps st w p)
      | inl (st', r) ↦
          run_loop-Due fuel st' (pass env st w).1 (pass-keeps st w p) (rw (run_loop, r) at e)
    ]
