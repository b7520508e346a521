-- ===== src/Loop/Running.antt =====
-- internal/run/loop.go: `runLoop` over its environment `loopEnv`. A read of the records changes no
-- record, so it is a function of the state `W` of the world; the other calls give the state behind
-- them too. What the loop returns is the `err` of a pass.
use layup.Base.{
  ℕ, zero, suc, ◌+◌, Bool, true, false, not, ◌&&◌, ◌||◌, List, [], ◌∷◌, ◌++◌, Option, none, some,
  ltb, leb, ◌==◌, if◌then◌else◌, is_empty, Result, ok, err,
}
use layup.Text.{Text, codes, text_eq, before_byte}
use layup.Loop.Types.{Task, Reopening, Step, Advance, done, fail, failf}
use layup.Loop.Order.{original_spec, merge_order, pick}

abbrev pub max_loop_acts : ℕ
max_loop_acts = 200

pub record LoopEnv (W : Type 0) : Type 0 where
  pub register : W → Result Text (List Task)
  pub reopenings : W → Result Text (List Reopening)
  pub merged : Text → W → Result Text Bool
  pub open_reopenings : Text → W → Result Text (Unit {0}) × W
  pub boundary : W → Result Text (Unit {0}) × W
  pub act : Task → Bool → W → Result Text Advance × W
  pub position : Task → W → Result Text Text

-- The variables that the loop keeps from pass to pass.
pub record LoopState : Type 0 where
  pub merged : List Text
  pub acted : ℕ
  pub opened : Bool
  pub stuck : ℕ
  pub stuck_task : Text

abbrev pub start : LoopState
start = record { merged = []; acted = 0; opened = false; stuck = 0; stuck_task = [] }

abbrev pub loop : Text
loop = codes "loop"

-- A pass gives the step that the loop returns, or the state of the next pass.
abbrev pub Pass : Type 0 → Type 0
Pass W = Result Step LoopState × W

-- An error of a read ends the loop.
abbrev pub or_fail : {W A : Type 0} → Result Text A → W → (A → Pass W) → Pass W
or_fail (err message) w next = (err (fail loop message), w)
or_fail (ok value) w next = next value

-- `strings.Join(ids, ", ")`.
unfoldable pub join_comma : List Text → Text
join_comma [] = []
join_comma (id ∷ []) = id
join_comma (id ∷ id' ∷ ids) = id ++ (codes ", " ++ join_comma (id' ∷ ids))

-- The step at the end of the order.
unfoldable pub end_step : LoopState → Step
end_step st =
    if st.acted == 0
    then done loop (codes "done before")
    else done loop (codes "the loop merged " ++ join_comma st.merged)

-- The map `has` with one more entry.
unfoldable pub put : Text → Bool → (Text → Bool) → Text → Bool
put id b has other = if text_eq id other then b else has other

-- The task whose reopenings are opened: the first of the order, merged, and not opened before.
unfoldable pub to_open : Bool → (Text → Bool) → List Task → Option Text
to_open opened has [] = none
to_open opened has (t ∷ order) = if not opened && has t.id then some t.id else none

-- The end of a turn that moved no record to merged: has the position of the task moved?
unfoldable pub progress : LoopState → Task → Text → Text → Result Step LoopState
progress st t before after =
    let moved = not (text_eq after before) || not (text_eq t.id st.stuck_task) in
    let stuck = (if moved then 0 else st.stuck) + 1 in
    if text_eq after before && leb 2 stuck
    then err (failf loop (t.id ++ codes ": the loop made no progress at " ++ after))
    else ok (record st { stuck = stuck; stuck_task = if moved then t.id else st.stuck_task })

-- What the loop does with a pass: it returns, or goes on.
abbrev pub go_on : {W : Type 0} → (LoopState → W → Option (Step × W)) → Pass W → Option (Step × W)
go_on next (err step, w') = some (step, w')
go_on next (ok st', w') = next st' w'

module _ {W : Type 0} (env : LoopEnv W) where
  -- The loop that fills `has`.
  unfoldable pub read_merged : List Task → (Text → Bool) → W → Result Text (Text → Bool)
  read_merged [] has w = ok has
  read_merged (t ∷ order) has w = elim (env.merged t.id w) [
    | err message ↦ err message
    | ok b ↦ read_merged order (put t.id b has) w
  ]

  -- The `switch` on what the act gave; `st` counts the act.
  unfoldable pub judge : LoopState → Task → Text → Advance → W → Pass W
  judge st t before adv w =
      if not (is_empty adv.stop)
      then (err (failf loop adv.stop), w)
      else if not (is_empty adv.waiting)
      then (err (done loop adv.waiting), w)
      else if adv.merged
      then (ok (record st { merged = st.merged ++ (t.id ∷ []); stuck = 0 }), w)
      else if not (is_empty adv.replaced)
      then (ok (record st { stuck = 0 }), w)
      else or_fail (env.position t w) w (λ after. (progress st t before after, w))

  -- The position of the task, the act on it, and what came of it.
  unfoldable pub act_on : List Reopening → LoopState → Task → W → Pass W
  act_on rows st t w = or_fail (env.position t w) w (λ before.
      let (adv, w') = env.act t (original_spec rows t) w in
      or_fail adv w' (λ a. judge (record st { acted = st.acted + 1 }) t before a w'))

  -- The boundary, and the act behind it.
  unfoldable pub act_behind_boundary : List Reopening → LoopState → Task → W → Pass W
  act_behind_boundary rows st t w =
      let (r, w') = env.boundary w in
      elim r [
        | err message ↦ (err (failf loop (codes "parameters: " ++ before_byte b'\n' message)), w')
        | ok _ ↦ act_on rows st t w'
      ]

  -- A turn: the first act has no boundary before it.
  unfoldable pub turn : List Reopening → LoopState → Task → W → Pass W
  turn rows st t w = if ltb 0 st.acted then act_behind_boundary rows st t w else act_on rows st t w

  unfoldable pub take_picked : List Reopening → LoopState → Option Task → W → Pass W
  take_picked rows st none w = (err (end_step st), w)
  take_picked rows st (some t) w = turn rows st t w

  -- A pass behind its reads.
  unfoldable pub choose : List Reopening → LoopState → List Task → (Text → Bool) → W → Pass W
  choose rows st order has w = elim (to_open st.opened has order) [
    | some id ↦
        let (r, w') = env.open_reopenings id w in
        or_fail r w' (λ u. (ok (record st { opened = true }), w'))
    | none ↦ or_fail (pick order has) w (λ found. take_picked rows st found w)
  ]

  unfoldable pub pass : LoopState → W → Pass W
  pass st w =
      if ltb max_loop_acts st.acted
      then (err (failf loop (codes "the loop did not end in 200 acts")), w)
      else or_fail (env.register w) w (λ register. or_fail (env.reopenings w) w (λ rows.
        or_fail (merge_order register rows) w (λ order.
          or_fail (read_merged order (λ id. false) w) w (λ has. choose rows st order has w))))

  -- The loop; `none` is the end of the fuel.
  unfoldable pub run_loop : ℕ → LoopState → W → Option (Step × W)
  run_loop zero st w = none
  run_loop (suc fuel) st w = go_on (run_loop fuel) (pass st w)
