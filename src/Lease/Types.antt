-- ===== src/Lease/Types.antt =====
-- internal/run/lease.go: the row of the lease, the errors, and the interfaces Store and Clock over a
-- state `W` of the world. Times and durations are nanoseconds.
use layup.Base.{ℕ, ◌*◌, Result}
use layup.Text.{Text, codes}

pub record LeaseRow : Type 0 where
  pub run : Text
  pub host : Text
  pub version : Text
  pub started : ℕ
  pub heartbeat : ℕ
  pub state : Text

-- The error of a store or of a clock: `ErrRefused`, or another one.
pub data Failure : Type 0 where
  refused : Failure
  failed : Text → Failure

-- `HeldError`, `LostError`, or the error of the store or of the clock.
pub data LeaseError : Type 0 where
  held_by : Text → LeaseError
  lost_to : Text → LeaseError
  store_error : Failure → LeaseError

pub record Store (W : Type 0) : Type 0 where
  pub read_lease : W → Result Failure LeaseRow × W
  pub write_lease : LeaseRow → Text → W → Result Failure (Unit {0}) × W

pub record Clock (W : Type 0) : Type 0 where
  pub now : W → ℕ
  pub sleep : ℕ → W → Result Failure (Unit {0}) × W

abbrev pub second : ℕ
second = 1000000000

abbrev pub read_every : ℕ
read_every = 10 * second

abbrev pub held : Text
held = codes "held"

abbrev pub released : Text
released = codes "released"
