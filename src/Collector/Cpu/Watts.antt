-- ===== src/Collector/Cpu/Watts.antt =====
-- What the power of a call is computed from.
use zimaos_monitor.Base.{
  ℕ, ◌-◌, Bool, true, false, ◌&&◌, List, [], ◌∷◌, ◌++◌, none, some, leb, if◌then◌else◌, Bytes, ◌≡◌,
  ◌⊎◌, All,
}
use zimaos_monitor.Text.{is_empty}
use zimaos_monitor.Collector.Cpu.{
  CpuCollector, Files, read_uint64_file, Floats, Sample, collect_cpu, energy_path,
}

module _ {F : Type 0} where
  -- The energy file shows a number, or none, at this call.
  abbrev pub Shows : Bytes → Sample F → ℕ → Type 0
  Shows path s e = read_uint64_file s.files path ≡ some e

  abbrev pub ShowsNone : Bytes → Sample F → Type 0
  ShowsNone path s = read_uint64_file s.files path ≡ none

  -- The energy and the time of the last call that could read the file, or those of the start if none
  -- could.
  abbrev pub Baseline : Bytes → ℕ → ℕ → List (Sample F) → ℕ → ℕ → Type 0
  Baseline path e₀ t₀ samples e t =
      ((before : List (Sample F)) × (s : Sample F) × (after : List (Sample F)) × (samples
          ≡ before ++ (s ∷ after))
        × Shows path s e
        × (t ≡ s.stored_at)
        × All (ShowsNone path) after)
      ⊎ (All (ShowsNone path) samples × (e ≡ e₀) × (t ≡ t₀))

-- The energy file was read when the collector was made.
abbrev pub IsPrimed : Files → (Bytes → Bool) → ℕ → Type 0
IsPrimed files exists e₀ =
    (exists energy_path ≡ true) × (read_uint64_file files energy_path ≡ some e₀)

module _ {F : Type 0} (floats : Floats F) where
  -- The collector after some calls.
  abbrev pub after_calls : CpuCollector → List (Sample F) → CpuCollector
  after_calls c [] = c
  after_calls c (s ∷ samples) = after_calls (collect_cpu floats c s).1 samples

  -- The collector reads this path and remembers this energy and time.
  record Remembers (c : CpuCollector) (path : Bytes) (e t : ℕ) : Type 0 where
    at_path : c.rapl_path ≡ path
    readable : is_empty path ≡ false
    energy : c.last_energy ≡ e
    time : c.last_time ≡ some t

  -- The power at a call is 0 if the file cannot be read, if no time has passed or if the counter is
  -- below the remembered one, and else the difference of the two over the time between.
  abbrev pub IsPower : Bytes → ℕ → ℕ → Sample F → F → Type 0
  IsPower path e t s w =
      (ShowsNone path s × (w ≡ floats.zero_float))
      ⊎ ((e' : ℕ) × Shows path s e'
          × (w ≡ (
              if floats.is_positive (floats.seconds (s.measured_at - t)) && leb e e'
              then floats.quotient (floats.millionths (e' - e)) (floats.seconds (s.measured_at - t))
              else floats.zero_float)))
