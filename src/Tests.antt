-- ===== src/Tests.antt =====
-- Runs of the modelled code on concrete inputs, one module for each component.
mod Tsv
mod Handoff
mod Forge
mod Lease
mod Records
mod Gate
mod Route
mod Posting
mod Loop
mod Blocks
mod Reread
mod Attempts
mod Cycles
mod Driver
