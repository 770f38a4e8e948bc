-- ===== src/Extract.antt =====
-- The offset extraction pipeline of cli/src/extract.
pub mod Matcher
pub mod Prologue
pub mod Provenance
pub mod Report

-- `Architecture` of cli/src/extract/mod.rs
pub data Architecture : Type 0 where
  arm64 x86_64 : Architecture
