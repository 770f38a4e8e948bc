-- ===== src/Installer.antt =====
-- The installer of the loader into a game bundle, cli/src/installer.rs: one child for each part.
pub mod Paths
pub mod Fs
pub mod Action
pub mod Backup
pub mod Recognize
pub mod Macho
pub mod Transaction
pub mod Load
pub mod Uninstall
pub mod Native
