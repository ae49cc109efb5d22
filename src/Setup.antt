-- ===== src/Setup.antt =====
-- internal/setup/setup.go: the setup, from its dialogue to the candidate file.
pub mod Input
pub mod Port
pub mod Host
pub mod Flow
pub mod Candidate
pub mod Terminal
