-- ===== src/Loop/Ends.antt =====
-- internal/run/loop.go: each pass of the loop ends it, acts once more or opens the reopenings.
use layup.Base.{
  ℕ, zero, suc, ◌+◌, ◌-◌, ◌<◌, ◌≤◌, ◌≡◌, ◌⊎◌, inl, inr, refl, Bool, true, false, List, Option, none,
  some, arith, Result, ok, err, Bool-cases, Result-cases, Option-cases, ltb, if◌then◌else◌,
}
use layup.Text.{Text}
use layup.Loop.Types.{Task, Reopening, Step, Advance}
use layup.Loop.Order.{original_spec, merge_order, pick}
use layup.Loop.Running.{
  LoopEnv, LoopState, Pass, max_loop_acts, or_fail, to_open, progress, read_merged, judge, act_on,
  act_behind_boundary, turn, take_picked, choose, pass, run_loop,
}

-- The passes that may still come.
abbrev pub passes : LoopState → ℕ
passes st = max_loop_acts + 1 - st.acted + (if st.opened then 0 else 1)

-- A pass that does not end the loop acted once more, or opened the reopenings.
abbrev pub Advances : LoopState → LoopState → Type 0
Advances st st' =
    ((st'.acted ≡ st.acted + 1) × (st'.opened ≡ st.opened))
    ⊎ ((st'.acted ≡ st.acted) × (st.opened ≡ false) × (st'.opened ≡ true))

-- What a pass gives when it does not end the loop.
abbrev pub Gives : {W : Type 0} → (LoopState → Type 0) → Pass W → Type 0
Gives P p = (st' : LoopState) → p.0 ≡ ok st' → P st'

or_fail-Gives :
    {W A : Type 0} (P : LoopState → Type 0) (r : Result Text A) (w : W) (next : A → Pass W)
    → ((a : A) → r ≡ ok a → Gives P (next a))
    → Gives P (or_fail r w next)
or_fail-Gives P (err message) w next h st' e = cc
or_fail-Gives P (ok a) w next h st' e = h a refl st' e

progress-Advances :
    (st : LoopState) (t : Task) (before after : Text) (st' : LoopState)
    → progress st t before after ≡ ok st'
    → (st'.acted ≡ st.acted) × (st'.opened ≡ st.opened)
unfolding progress
progress-Advances st t before after st' e = ground arith

module _ {W : Type 0} (env : LoopEnv W) where
  abbrev pub Acted : LoopState → LoopState → Type 0
  Acted st st' = (st'.acted ≡ st.acted) × (st'.opened ≡ st.opened)

  pub judge-Acted :
      (st : LoopState) (t : Task) (before : Text) (adv : Advance) (w : W)
      → Gives (Acted st) (judge env st t before adv w)
  unfolding judge
  judge-Acted st t before adv w st' e = elim (Result-cases (env.position t w)) [
    | inl (after, p) ↦ ground (arith, p, progress-Advances st t before after st')
    | inr (message, p) ↦ ground (arith, p)
  ]

  act_on-Gives :
      (rows : List Reopening) (st : LoopState) (t : Task) (w : W)
      → Gives (Advances st) (act_on env rows st t w)
  unfolding act_on
  act_on-Gives rows st t w = or_fail-Gives (Advances st) (env.position t w) w _ (λ before p.
      or_fail-Gives (Advances st) (env.act t (original_spec rows t) w).0 _ _ (λ adv q st' e.
        inl (judge-Acted (record st { acted = st.acted + 1 }) t before adv _ st' e)))

  turn-Gives :
      (rows : List Reopening) (st : LoopState) (t : Task) (w : W)
      → Gives (Advances st) (turn env rows st t w)
  unfolding turn act_behind_boundary
  turn-Gives rows st t w st' e = elim (Bool-cases (ltb 0 st.acted)) [
    | inr first ↦ act_on-Gives rows st t w st' (rw first at e)
    | inl later ↦ elim (Result-cases (env.boundary w).0) [
      | inr (message, p) ↦ absurd (ground arith)
      | inl (u, p) ↦
          act_on-Gives rows st t (env.boundary w).1 st' (rw (later, act_behind_boundary, p) at e)
    ]
  ]

  take_picked-Gives :
      (rows : List Reopening) (st : LoopState) (found : Option Task) (w : W)
      → Gives (Advances st) (take_picked env rows st found w)
  unfolding take_picked
  take_picked-Gives rows st none w st' e = cc
  take_picked-Gives rows st (some t) w st' e = turn-Gives rows st t w st' e

  to_open-fresh :
      (opened : Bool) (has : Text → Bool) (order : List Task) {id : Text}
      → to_open opened has order ≡ some id
      → opened ≡ false
  unfolding to_open
  to_open-fresh opened has order e = ground arith

  choose-Gives :
      (rows : List Reopening) (st : LoopState) (order : List Task) (has : Text → Bool) (w : W)
      → Gives (Advances st) (choose env rows st order has w)
  unfolding choose
  choose-Gives rows st order has w st' e = elim (Option-cases (to_open st.opened has order)) [
    | inl shut ↦
        or_fail-Gives (Advances st) (pick order has) w _
          (λ found p. take_picked-Gives rows st found w) st' (rw (choose, shut) at e)
    | inr (id, opens) ↦
        or_fail-Gives (Advances st) (env.open_reopenings id w).0 _ _
          (λ u p st'' e'. inr (cc, to_open-fresh st.opened has order opens, cc)) st'
          (rw (choose, opens) at e)
  ]

  pub pass-Gives :
      (st : LoopState) (w : W) (st' : LoopState)
      → (pass env st w).0 ≡ ok st'
      → (st.acted ≤ max_loop_acts) × Advances st st'
  unfolding pass
  pass-Gives st w st' e = elim (Bool-cases (ltb max_loop_acts st.acted)) [
    | inl over ↦ absurd (ground arith)
    | inr under ↦ (
      ground arith,
      or_fail-Gives (Advances st) (env.register w) w _
          (λ register p. or_fail-Gives (Advances st) (env.reopenings w) w _ (λ rows q.
            or_fail-Gives (Advances st) (merge_order register rows) w _ (λ order r.
              or_fail-Gives (Advances st) (read_merged env order (λ id. false) w) w _
                (λ has m. choose-Gives rows st order has w))))
          st' (rw under at e),
    )
  ]

  pub ends_from :
      (fuel : ℕ) (st : LoopState) (w : W)
      → passes st < fuel
      → (o : Step × W) × (run_loop env fuel st w ≡ some o)
  unfolding run_loop
  ends_from zero st w m = absurd (omega arith)
  ends_from (suc fuel) st w m = elim (Result-cases (pass env st w).0) [
    | inr (step, p) ↦ ((step, (pass env st w).1), rw (run_loop, p) refl)
    | inl (st', p) ↦
        let fewer : passes st' < fuel = ground (arith, pass-Gives st w st' p) in
        let (o, r) = ends_from fuel st' (pass env st w).1 fewer in (o, rw (run_loop, p) r)
  ]
