-- ===== src/Collector.antt =====
-- internal/collector: what the service measures.
pub mod OsInfo
pub mod Upstream
pub mod Disk
pub mod Cpu
pub mod Memory
