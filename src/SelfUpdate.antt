-- ===== src/SelfUpdate.antt =====
-- internal/selfupdate: which release is newer, how the latest one is found, the periodic check
-- for it and the update of the installed binary.
pub mod Version
pub mod Release
pub mod Checker
pub mod Host
pub mod Download
pub mod Extract
pub mod Apply
