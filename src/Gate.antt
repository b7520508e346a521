-- ===== src/Gate.antt =====
-- internal/gate: the scope patterns, the manifest of the gates, and the result of a kind.
pub mod Scope
pub mod Manifest
pub mod Matching
pub mod Deciding
