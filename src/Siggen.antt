-- ===== src/Siggen.antt =====
-- The signature generator, cli/src/siggen: one child for each of its files.
pub mod Signature
pub mod Scan
pub mod Mask
pub mod Generate
