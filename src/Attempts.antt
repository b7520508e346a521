-- ===== src/Attempts.antt =====
-- internal/run/shapeloop.go: what the records say of the sessions and the attempts of a task.
pub mod View
pub mod Stages
pub mod Retries
pub mod Rejections
pub mod Sorting
pub mod Position
pub mod Cycles
pub mod Commands
pub mod Grants
pub mod ByComment
pub mod Eligible
pub mod Earliest
pub mod Walk
pub mod Listed
pub mod Parts
pub mod Verified
pub mod Checks
pub mod Settled
pub mod Spent
pub mod Pending
pub mod Bounded
pub mod Driver
pub mod Told
