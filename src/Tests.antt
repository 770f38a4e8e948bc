-- ===== src/Tests.antt =====
-- Runs of the model, and its theorems at concrete data.
pub mod Signatures
pub mod Offsets
pub mod Installation
pub mod Symbols
pub mod Reports
pub mod Installed
pub mod Executables
pub mod Removed
pub mod Prologues
pub mod Replaced
pub mod Codec
pub mod Catalogues
pub mod Bindings
pub mod Contributions
