-- ===== src/Lease/Take.antt =====
-- internal/run/lease.go: `Take`, `claim` and `lost`.
use layup.Base.{
  ℕ, zero, suc, ◌-◌, ◌*◌, ◌/◌, true, false, not, ◌||◌, ◌++◌, Option, none, some, leb, ◌==◌,
  if◌then◌else◌, Result, ok, err,
}
use layup.Text.{Text, codes, text_eq}
use layup.Lease.Types.{
  LeaseRow, Failure, refused, failed, LeaseError, held_by, lost_to, store_error, Store, Clock,
  second, read_every, held, released,
}

-- The row that `claim` writes: started at a whole second, with no heartbeat yet.
unfoldable pub claimed : ℕ → LeaseRow → LeaseRow
claimed now me = record me { started = now / second * second; heartbeat = 0; state = held }

unfoldable pub takes_over : LeaseRow → LeaseRow → Text
takes_over me row =
    codes "lease: the run " ++ me.run ++ codes " takes the lease over from the run " ++ row.run

unfoldable pub takes_released : LeaseRow → LeaseRow → Text
takes_released me row =
    codes "lease: the run " ++ me.run ++ codes " takes the released lease from the run " ++ row.run

module _ {W : Type 0} (s : Store W) where
  -- `lost`: the lease is read again, for its holder.
  unfoldable pub lost : W → LeaseError × W
  lost w =
      let (r, after) = s.read_lease w in
      (elim r [ err e ↦ store_error e | ok row ↦ lost_to row.run ], after)

  -- What `claim` makes of the result of its write.
  unfoldable pub claim_result :
      LeaseRow → Result Failure (Unit {0}) → W → Result LeaseError LeaseRow × W
  claim_result row (ok _) w = (ok row, w)
  claim_result row (err refused) w = let (e, after) = lost w in (err e, after)
  claim_result row (err (failed t)) w = (err (store_error (failed t)), w)

  module _ (c : Clock W) where
    unfoldable pub claim : LeaseRow → Text → W → Result LeaseError LeaseRow × W
    claim me message w =
        let row = claimed (c.now w) me in
        let (r, after) = s.write_lease row message w in claim_result row r after

    -- What a round of the loop of `Take` makes of a row that it read.
    pub data Round : Type 0 where
      ends : Result LeaseError LeaseRow × W → Round
      waits : LeaseRow → ℕ → Round

    module _ (me : LeaseRow) (h : ℕ) (begin : ℕ) where
      -- The `switch` of the loop; `seen` is the last other row, `changed` when it was seen.
      unfoldable pub decide : LeaseRow → ℕ → LeaseRow → W → Round
      decide seen changed row w =
          if text_eq row.state released
          then waits seen changed
          else if leb (3 * h) (c.now w - changed)
          then ends (claim me (takes_over me row) w)
          else if leb (3 * h) (c.now w - begin)
          then ends (err (held_by row.run), w)
          else waits seen changed

      -- A round behind its read.
      unfoldable pub judge : LeaseRow → ℕ → LeaseRow → W → Round
      judge seen changed row w =
          if not (text_eq row.run seen.run) || not (row.heartbeat == seen.heartbeat)
          then decide row (c.now w) row w
          else decide seen changed row w

      -- The loop of `Take`; `none` is the end of the fuel.
      unfoldable pub wait :
          ℕ → LeaseRow → ℕ → LeaseRow → W → Option (Result LeaseError LeaseRow × W)
      wait zero seen changed row w =
          if text_eq row.state released then some (claim me (takes_released me row) w) else none
      wait (suc fuel) seen changed row w = elim (text_eq row.state released) [
        | true ↦ some (claim me (takes_released me row) w)
        | false ↦
            let (slept, w1) = c.sleep read_every w in
            elim slept [
              | err e ↦ some (err (store_error e), w1)
              | ok _ ↦
                  let (r, w2) = s.read_lease w1 in
                  elim r [
                    | err e ↦ some (err (store_error e), w2)
                    | ok row' ↦ elim (judge seen changed row' w2) [
                      | ends o ↦ some o
                      | waits seen' changed' ↦ wait fuel seen' changed' row' w2
                    ]
                  ]
            ]
      ]

    unfoldable pub take : ℕ → LeaseRow → ℕ → W → Option (Result LeaseError LeaseRow × W)
    take fuel me h w =
        let (r, after) = s.read_lease w in
        elim r [
          | err e ↦ some (err (store_error e), after)
          | ok row ↦ wait me h (c.now after) fuel row (c.now after) row after
        ]
