-- ===== src/Handoff.antt =====
-- internal/handoff: the transition table of the task loop and the check of a handoff.
pub mod Table
pub mod Check
pub mod Laws
pub mod Tables
pub mod InForce
pub mod Stored
pub mod Reread
