-- ===== src/Forge.antt =====
-- internal/forge: what LAYUP knows of a forge, and the stand-in that holds one in memory.
pub mod Types
pub mod Fake
pub mod Calls
pub mod Invariant
pub mod Numbering
pub mod KeepsPrs
pub mod Preserved
pub mod Laws
pub mod Life
pub mod Statuses
pub mod Once
