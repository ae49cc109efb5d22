-- ===== src/Collector/Cpu.antt =====
-- internal/collector/cpu.go. The files, the clock (nanoseconds, which never goes back), the CPU
-- percentages and the arithmetic of float64 are parameters.
pub mod Watts
use zimaos_monitor.Base.{
  ℕ, ◌-◌, Bool, true, false, not, ◌&&◌, List, [], ◌∷◌, ◌++◌, Option, none, some, leb, if◌then◌else◌,
  Bytes, codes, str_eq, ◌>>=◌,
}
use zimaos_monitor.Text.{is_empty, is_some, trim_space, parse_uint}
use zimaos_monitor.SelfUpdate.Version.{max_u64}

pub record CpuCollector : Type 0 where
  pub rapl_path : Bytes
  pub hwmon_temp_path : Bytes
  pub last_energy : ℕ
  pub last_time : Option ℕ

-- What a file holds, if it can be read.
abbrev pub Files : Type 0
Files = Bytes → Option Bytes

unfoldable pub read_uint64_file : Files → Bytes → Option ℕ
unfolding trim_space parse_uint
read_uint64_file files path = do contents ← files path; parse_uint max_u64 (trim_space contents)

-- A sensor directory, by what the star of the pattern stands for.
abbrev pub hwmon : Bytes → Bytes → Bytes
hwmon star file = codes "/sys/class/hwmon/hwmon" ++ (star ++ (b'/' ∷ file))

abbrev pub is_coretemp : Files → Bytes → Bool
is_coretemp files star = elim (files (hwmon star (codes "name"))) [
  | none ↦ false
  | some contents ↦ str_eq (trim_space contents) (codes "coretemp")
]

-- The loop of `findCoretempPath` over the matches of the pattern; `exists` is `os.Stat`.
unfoldable pub find_coretemp_path : Files → (Bytes → Bool) → List Bytes → Bytes
find_coretemp_path files exists [] = []
find_coretemp_path files exists (star ∷ stars) =
    let rest = find_coretemp_path files exists stars in
    if is_coretemp files star && exists (hwmon star (codes "temp1_input"))
    then hwmon star (codes "temp1_input")
    else rest

abbrev pub energy_path : Bytes
energy_path = codes "/sys/class/powercap/intel-rapl/intel-rapl:0/energy_uj"

-- The pattern matches `stars`, and `now` is the time behind the read. The percentages that are
-- primed here are parameters of `collect_cpu`.
unfoldable pub new_cpu_collector : Files → (Bytes → Bool) → List Bytes → ℕ → CpuCollector
unfolding find_coretemp_path read_uint64_file
new_cpu_collector files exists stars now =
    let energy = if exists energy_path then read_uint64_file files energy_path else none in
    record {
      rapl_path = if exists energy_path then energy_path else [];
      hwmon_temp_path = find_coretemp_path files exists stars;
      last_energy = elim energy [ none ↦ 0 | some e ↦ e ];
      last_time = elim energy [ none ↦ none | some _ ↦ some now ];
    }

-- `float64(v) / 1000.0`, `float64(n) / 1e6`, a quotient, the seconds of a duration, `> 0`
pub record Floats (F : Type 0) : Type 0 where
  pub zero_float : F
  pub thousandths : ℕ → F
  pub millionths : ℕ → F
  pub quotient : F → F → F
  pub seconds : ℕ → F
  pub is_positive : F → Bool

-- What one call meets: the files, the times of `time.Since` and of `time.Now`, and the percentages.
pub record Sample (F : Type 0) : Type 0 where
  pub files : Files
  pub measured_at : ℕ
  pub stored_at : ℕ
  pub total_percent : Option (List F)
  pub core_percents : Option (List F)

pub record CpuReading (F : Type 0) : Type 0 where
  pub temp_c : F
  pub watts : F
  pub usage_pct : F
  pub core_pcts : List F

module _ {F : Type 0} (floats : Floats F) where
  -- The power, from the last energy and the time since; 0 where the counter went back.
  unfoldable pub watts_between : ℕ → ℕ → ℕ → ℕ → F
  watts_between last_energy last_time energy now =
      let elapsed = floats.seconds (now - last_time) in
      if floats.is_positive elapsed && leb last_energy energy
      then floats.quotient (floats.millionths (energy - last_energy)) elapsed
      else floats.zero_float

  -- The energy that this call reads, if it does.
  unfoldable pub sampled : CpuCollector → Sample F → Option (ℕ × ℕ)
  unfolding read_uint64_file
  sampled c s = if is_empty c.rapl_path then none else do
    last_time ← c.last_time
    energy ← read_uint64_file s.files c.rapl_path
    some (energy, last_time)

  abbrev pub first_or_zero : Option (List F) → F
  first_or_zero none = floats.zero_float
  first_or_zero (some []) = floats.zero_float
  first_or_zero (some (x ∷ xs)) = x

  unfoldable pub collect_cpu : CpuCollector → Sample F → CpuReading F × CpuCollector
  unfolding watts_between sampled
  collect_cpu c s =
      let power = sampled c s in
      (
        record {
          temp_c =
              elim (if is_empty c.hwmon_temp_path
                then none
                else read_uint64_file s.files c.hwmon_temp_path) [
                  | none ↦ floats.zero_float
                  | some v ↦ floats.thousandths v
                ];
          watts = elim power [
            | none ↦ floats.zero_float
            | some (energy, last_time) ↦ watts_between c.last_energy last_time energy s.measured_at
          ];
          usage_pct = first_or_zero s.total_percent;
          core_pcts = elim s.core_percents [ none ↦ [] | some pcts ↦ pcts ];
        },
        elim power [
          | none ↦ c
          | some (energy, last_time) ↦ record c {
            last_energy = energy;
            last_time = some s.stored_at;
          }
        ],
      )
