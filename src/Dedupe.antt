-- ===== src/Dedupe.antt =====
-- src/dedupe/mod.rs: the parts of the pipeline around the three phases.
pub mod Transitivity
pub mod Stream
pub mod Run
pub mod Sync
