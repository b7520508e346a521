-- ===== src/Loop/Counted.antt =====
-- internal/run/loop.go: the loop ends, and acts 201 times at most, whatever its environment does.
use layup.Base.{
  ℕ, zero, suc, ◌+◌, ◌≤◌, ◌≡◌, inl, inr, refl, ap, Bool, true, false, List, Option, none, some,
  arith, Result, ok, err, Bool-cases, Result-cases, Option-cases, ltb,
}
use layup.Text.{Text, codes}
use layup.Loop.Types.{Task, Reopening, Step, failf}
use layup.Loop.Order.{original_spec, merge_order, pick}
use layup.Loop.Running.{
  LoopEnv, LoopState, Pass, start, max_loop_acts, or_fail, to_open, read_merged, act_on,
  act_behind_boundary, turn, take_picked, choose, pass, run_loop,
}
use layup.Loop.Ends.{ends_from, judge-Acted, pass-Gives}
use layup.Loop.Guarded.{judge-world}

-- A count on the world that an act makes one more, and that nothing else changes.
module _ {W : Type 0} (env : LoopEnv W) (count : W → ℕ)
    (opens : (id : Text) (w : W) → count (env.open_reopenings id w).1 ≡ count w)
    (bounds : (w : W) → count (env.boundary w).1 ≡ count w)
    (acts : (t : Task) (original : Bool) (w : W)
      → count (env.act t original w).1 ≡ suc (count w)) where
  -- A pass acts once at most, and the acts that the loop counts are those that it made.
  Counts : ℕ → LoopState → Pass W → Type 0
  Counts n st p =
      (count p.1 ≤ n + 1)
      × ((st' : LoopState) → p.0 ≡ ok st' → count p.1 + st.acted ≤ n + st'.acted)

  or_fail-Counts :
      {A : Type 0} (n : ℕ) (st : LoopState) (r : Result Text A) (w : W) (next : A → Pass W)
      → count w ≤ n + 1
      → ((a : A) → r ≡ ok a → Counts n st (next a))
      → Counts n st (or_fail r w next)
  unfolding Counts
  or_fail-Counts n st (err message) w next c h = (c, (λ st' e. cc))
  or_fail-Counts n st (ok a) w next c h = h a refl

  act_on-Counts :
      (rows : List Reopening) (st : LoopState) (t : Task) (w : W)
      → Counts (count w) st (act_on env rows st t w)
  unfolding act_on Counts
  act_on-Counts rows st t w =
      let o = original_spec rows t in
      let more = acts t o w in
      let st1 = record st { acted = st.acted + 1 } in
      let w' = (env.act t o w).1 in
      or_fail-Counts (count w) st (env.position t w) w _ (omega arith) (λ before _.
        or_fail-Counts (count w) st (env.act t o w).0 w' _ (omega (arith, more)) (λ adv _.
          let same = ap count (judge-world env st1 t before adv w') in
          (
            omega (arith, same, more),
            (λ st' e.
                let (acted, _) = judge-Acted env st1 t before adv w' st' e in
                omega (arith, same, more, acted)),
          )))

  turn-Counts :
      (rows : List Reopening) (st : LoopState) (t : Task) (w : W)
      → Counts (count w) st (turn env rows st t w)
  unfolding turn act_behind_boundary Counts
  turn-Counts rows st t w = elim (Bool-cases (ltb 0 st.acted)) [
    | inr first ↦ rw (turn, first) (act_on-Counts rows st t w)
    | inl later ↦ elim (Result-cases (env.boundary w).0) [
      | inr (message, r) ↦
          rw (turn, later, act_behind_boundary, r) (omega (arith, bounds w), (λ st' e. cc))
      | inl (u, r) ↦
          let (few, told) = act_on-Counts rows st t (env.boundary w).1 in
          rw (turn, later, act_behind_boundary, r)
            (omega (arith, bounds w, few), (λ st' e. omega (arith, bounds w, told st' e)))
    ]
  ]

  take_picked-Counts :
      (rows : List Reopening) (st : LoopState) (found : Option Task) (w : W)
      → Counts (count w) st (take_picked env rows st found w)
  unfolding take_picked Counts
  take_picked-Counts rows st none w = (omega arith, (λ st' e. cc))
  take_picked-Counts rows st (some t) w = turn-Counts rows st t w

  choose-Counts :
      (rows : List Reopening) (st : LoopState) (order : List Task) (has : Text → Bool) (w : W)
      → Counts (count w) st (choose env rows st order has w)
  unfolding choose Counts
  choose-Counts rows st order has w = elim (Option-cases (to_open st.opened has order)) [
    | inl shut ↦
        rw (choose, shut)
          (or_fail-Counts (count w) st (pick order has) w _ (omega arith)
            (λ found e. take_picked-Counts rows st found w))
    | inr (id, fresh) ↦
        rw (choose, fresh)
          (or_fail-Counts (count w) st (env.open_reopenings id w).0 (env.open_reopenings id w).1 _
            (omega (arith, opens id w))
            (λ u _. (
              omega (arith, opens id w),
              (λ st' e.
                  let same : record st { opened = true } ≡ st' = cc in
                  omega (arith, opens id w, ap (λ (z : LoopState). z.acted) same)),
            )))
  ]

  pass-Counts : (st : LoopState) (w : W) → Counts (count w) st (pass env st w)
  unfolding pass Counts
  pass-Counts st w = elim (Bool-cases (ltb max_loop_acts st.acted)) [
    | inl over ↦ rw (pass, over) (omega arith, (λ st' e. cc))
    | inr under ↦
        rw (pass, under)
          (or_fail-Counts (count w) st (env.register w) w _ (omega arith) (λ register _.
            or_fail-Counts (count w) st (env.reopenings w) w _ (omega arith) (λ rows _.
              or_fail-Counts (count w) st (merge_order register rows) w _ (omega arith) (λ order _.
                or_fail-Counts (count w) st (read_merged env order (λ id. false) w) w _
                  (omega arith) (λ has _. choose-Counts rows st order has w)))))
  ]

  pass-over :
      (st : LoopState) (w : W)
      → ltb max_loop_acts st.acted ≡ true
      → (step : Step) × (pass env st w ≡ (err step, w))
  unfolding pass
  pass-over st w over =
      (failf (codes "loop") (codes "the loop did not end in 200 acts"), rw (pass, over) refl)

  counts_from :
      (fuel : ℕ) (st : LoopState) (w : W) {step : Step} {w' : W}
      → st.acted ≤ max_loop_acts + 1
      → run_loop env fuel st w ≡ some (step, w')
      → count w' + st.acted ≤ count w + (max_loop_acts + 1)
  unfolding run_loop Counts
  counts_from zero st w m e = cc
  counts_from (suc fuel) st w {step} {w'} m e = elim (Bool-cases (ltb max_loop_acts st.acted)) [
    | inl over ↦
        let (ends, is) = pass-over st w over in
        let same : w ≡ w' = cc (rw (run_loop, is) at e) in omega (arith, m, ap count same)
    | inr under ↦
        let (few, told) = pass-Counts st w in
        let few_acts : st.acted ≤ max_loop_acts = ground arith in
        elim (Result-cases (pass env st w).0) [
          | inr (step', r) ↦
              let same : (pass env st w).1 ≡ w' = cc (rw (run_loop, r) at e) in
              omega (arith, few, few_acts, ap count same)
          | inl (st', r) ↦
              let within : st'.acted ≤ max_loop_acts + 1 =
                ground (arith, few_acts, pass-Gives env st w st' r) in
              omega (
                arith,
                told st' r,
                counts_from fuel st' (pass env st w).1 within (rw (run_loop, r) at e),
              )
        ]
  ]

  -- The loop returns within 203 passes, whatever its environment does, and it made at most 201 acts: a
  -- count on the world that each act makes one more, and that the boundary and the opening of the
  -- reopenings leave, is at most 201 more at its end.
  pub run_loop_ends :
      (w : W) → (o : Step × W) × (run_loop env 203 start w ≡ some o) × (count o.1 ≤ count w + 201)
  run_loop_ends w =
      let ((step, w'), e) = ends_from env 203 start w (omega arith) in
      ((step, w'), e, omega (arith, counts_from 203 start w (omega arith) e))
