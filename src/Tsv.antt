-- ===== src/Tsv.antt =====
-- internal/tsv: the records of LAYUP, each by its schema.
pub mod Schema
pub mod Types
pub mod Row
pub mod Blocks
pub mod BlocksGrowing
pub mod BlocksSound
pub mod Compare
pub mod Comparing
pub mod BlockFiles
pub mod Codec
pub mod Fields
pub mod Rows
pub mod ReadLines
pub mod RoundTrip
pub mod Conforms
pub mod Canonical
pub mod WriteBack
pub mod Sound
pub mod TypesFuel
