-- ===== src/Lease/Fenced.antt =====
-- internal/run/lease.go: `Fenced`, and `Beat` and `Release` through it. The write is a function on the
-- state, which the holder's own row is a part of: `mine` stands beside the world.
use layup.Base.{◌+◌, not, ◌||◌, ◌++◌, if◌then◌else◌, Result, ok, err}
use layup.Text.{Text, codes, text_eq}
use layup.Text.Numbers.{decimal_text}
use layup.Lease.Types.{
  LeaseRow, Failure, refused, failed, LeaseError, lost_to, store_error, Store, held, released,
}
use layup.Lease.Take.{lost}

-- Raises the heartbeat of the row by 1, or marks it released.
unfoldable pub next_beat : LeaseRow → LeaseRow
next_beat mine = record mine { heartbeat = mine.heartbeat + 1 }

unfoldable pub give_back : LeaseRow → LeaseRow
give_back mine = record mine { state = released }

abbrev pub put_world : {W : Type 0} → W → W × LeaseRow → W × LeaseRow
put_world w (_, mine) = (w, mine)

abbrev pub world_of : {W : Type 0} → W × LeaseRow → W
world_of (w, _) = w

module _ {W : Type 0} (s : Store W) where
  -- The second try: a second refusal is lost.
  unfoldable pub second_try :
      {V : Type 0}
      → (V → W)
      → (W → V → V)
      → (V → Result Failure (Unit {0}) × V)
      → V
      → Result LeaseError (Unit {0}) × V
  second_try world put write v =
      let (r, v1) = write v in
      elim r [
        | ok _ ↦ (ok tt, v1)
        | err (failed t) ↦ (err (store_error (failed t)), v1)
        | err refused ↦ let (e, after) = lost s (world v1) in (err e, put after v1)
      ]

  -- `Fenced`; `V` holds the world and the caller's own state, which a read leaves alone.
  unfoldable pub fenced :
      {V : Type 0}
      → (V → W)
      → (W → V → V)
      → Text
      → (V → Result Failure (Unit {0}) × V)
      → V
      → Result LeaseError (Unit {0}) × V
  fenced world put mine write v =
      let (r, v1) = write v in
      elim r [
        | ok _ ↦ (ok tt, v1)
        | err (failed t) ↦ (err (store_error (failed t)), v1)
        | err refused ↦
            let (read, after) = s.read_lease (world v1) in
            elim read [
              | err e ↦ (err (store_error e), put after v1)
              | ok row ↦
                  if not (text_eq row.run mine) || not (text_eq row.state held)
                  then (err (lost_to row.run), put after v1)
                  else second_try world put write (put after v1)
            ]
      ]

  -- The write of `Beat` and of `Release`: the row changes when the store took it.
  unfoldable pub write_row :
      (LeaseRow → LeaseRow)
      → (LeaseRow → Text)
      → W × LeaseRow
      → Result Failure (Unit {0}) × (W × LeaseRow)
  write_row change message (w, mine) =
      let (r, after) = s.write_lease (change mine) (message (change mine)) w in
      elim r [ err e ↦ (err e, (after, mine)) | ok _ ↦ (ok tt, (after, change mine)) ]

  unfoldable pub beat : W × LeaseRow → Result LeaseError (Unit {0}) × (W × LeaseRow)
  beat (w, mine) =
      fenced world_of put_world mine.run
        (write_row next_beat (λ row. codes "lease: heartbeat " ++ decimal_text row.heartbeat))
        (w, mine)

  unfoldable pub release : W × LeaseRow → Result LeaseError (Unit {0}) × (W × LeaseRow)
  release (w, mine) =
      fenced world_of put_world mine.run (write_row give_back (λ row. codes "lease: released"))
        (w, mine)
