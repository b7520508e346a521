-- ===== src/Lease.antt =====
-- internal/run/lease.go and store.go: the lease of a run, and the store of the records branch that
-- fences the runs from each other.
pub mod Types
pub mod Take
pub mod Fenced
pub mod Ends
pub mod Records
pub mod Moves
pub mod Fencing
pub mod Beats
pub mod Taken
