-- ===== src/Command.antt =====
-- cmd/zimaos-monitor/main.go.
pub mod Info
pub mod Service
pub mod Start
pub mod Program
pub mod Main
