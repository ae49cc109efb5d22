-- ===== src/Tests.antt =====
-- Runs of the definitions on concrete inputs, and the theorems at such inputs. Models no code.
mod Applied
mod Updates
mod Rollbacks
mod Versions
mod Releases
mod Discovery
mod Identity
mod Inputs
mod Dialogue
mod Announce
mod Service
mod Programs
mod Scans
mod Connections
mod Collectors
