-- ===== src/Records.antt =====
-- internal/records: the rules of the records beside their schemas.
pub mod Fields
pub mod Stalls
pub mod History
