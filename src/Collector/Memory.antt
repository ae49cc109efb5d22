-- ===== src/Collector/Memory.antt =====
-- internal/collector/memory.go. The memory and the type of float64 are parameters.
use zimaos_monitor.Base.{ℕ, Option, none, some}

-- `mem.VirtualMemoryStat`
pub record VirtualMemory (F : Type 0) : Type 0 where
  pub total : ℕ
  pub available : ℕ
  pub used_percent : F

pub record MemoryStats (F : Type 0) : Type 0 where
  pub used_pct : F
  pub available_gb : F
  pub total_gb : F

-- The zero value stands for an error, which the caller only logs; `gigabytes n` is
-- `float64(n) / 1e9`.
abbrev pub collect_memory : {F : Type 0} → F → (ℕ → F) → Option (VirtualMemory F) → MemoryStats F
collect_memory zero_float gigabytes none = record {
  used_pct = zero_float;
  available_gb = zero_float;
  total_gb = zero_float;
}
collect_memory zero_float gigabytes (some v) = record {
  used_pct = v.used_percent;
  available_gb = gigabytes v.available;
  total_gb = gigabytes v.total;
}
