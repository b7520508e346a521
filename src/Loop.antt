-- ===== src/Loop.antt =====
-- internal/run/loop.go: the step loop, which merges the tasks of a bet one at a time.
pub mod Types
pub mod Order
pub mod Acts
pub mod Running
pub mod Ends
pub mod Splitting
pub mod Merging
pub mod Reads
pub mod Guarded
pub mod Counted
