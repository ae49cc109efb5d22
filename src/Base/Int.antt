-- ===== src/Base/Int.antt =====
-- Signed numbers (Go's int64 durations and sizes, whose range the program never leaves).
use Prim.Native.Nat.{ℕ}
use mathlib.Core.Bool.{Bool, true}
use zimaos_monitor.Base.Tests.{ltb}

-- `negsuc n` is -(n + 1).
pub data ℤ : Type 0 where
  pos : ℕ → ℤ
  negsuc : ℕ → ℤ

-- `a < b` for a natural number `b`
abbrev pub ltb_ℕ : ℤ → ℕ → Bool
ltb_ℕ (pos n) b = ltb n b
ltb_ℕ (negsuc n) b = true
