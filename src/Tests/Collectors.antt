-- ===== src/Tests/Collectors.antt =====
-- The collectors on small machines, with numbers for floating point.
use zimaos_monitor.Base.{
  ℕ, ◌/◌, ◌≡◌, ◌⊎◌, ◌↔◌, refl, inl, true, List, [], ◌∷◌, Option, none, some, Bytes, codes, ltb, All,
  In, str_eq, if◌then◌else◌,
}
use zimaos_monitor.Base.Int.{pos}
use zimaos_monitor.Text.{split, or_default, Lacks}
use zimaos_monitor.Config.{DiskConfig}
use zimaos_monitor.SelfUpdate.Release.{response, no_response}
use zimaos_monitor.SelfUpdate.Checker.Laws.{AtLeastHour}
use zimaos_monitor.Mqtt.Discovery.{Sensor, disk_key, disk_sensor, disk_sensors}
use zimaos_monitor.Collector.OsInfo.{zimaos_version}
use zimaos_monitor.Collector.OsInfo.Entries.{entries, first_value, zimaos_version-eq-first_value}
use zimaos_monitor.Collector.Upstream.{
  UpstreamRelease, new_upstream_checker, shown, Event, tick, start,
}
use zimaos_monitor.Collector.Upstream.Laws.{IsLast, OffersNone, answers, upstream_latest}
use zimaos_monitor.Collector.Disk.{Usage, Partition, DiskStats, collect_disks, discover_disks}
use zimaos_monitor.Collector.Disk.Measured.{Measured}
use zimaos_monitor.Collector.Disk.Discovered.{IsShown, discover_disks_iff}
use zimaos_monitor.Collector.Disk.Sensors.{Reads, disk_sensors_lem}
use zimaos_monitor.Collector.Cpu.{
  Floats, Files, Sample, new_cpu_collector, collect_cpu, energy_path,
}
use zimaos_monitor.Collector.Cpu.Watts.{after_calls}
use zimaos_monitor.Tests.Announce.{config}

abbrev os_release : Bytes
os_release = codes "NAME=ZimaOS\nVERSION=\"1.4\"\nVERSION_ID=\"1.5.4\"\n"

zimaos_version-eq-first_value_example :
    zimaos_version (some os_release)
    ≡ or_default
        (first_value (codes "VERSION_ID") (entries (split b'\n' os_release)))
        (first_value (codes "VERSION") (entries (split b'\n' os_release)))
zimaos_version-eq-first_value_example = zimaos_version-eq-first_value os_release

abbrev decode : Bytes → Option (List UpstreamRelease)
decode body = some (
    record { tag_name = codes "1.6.0-beta1"; html_url = codes "u1" }
    ∷ record { tag_name = codes "1.5.4"; html_url = codes "u2" }
    ∷ [])

abbrev ticks : List Event
ticks = tick (response 200 none []) 8 ∷ tick no_response 9 ∷ []

upstream_latest_example :
    (IsLast decode
        (no_response ∷ answers decode ticks)
        (shown (start decode (new_upstream_checker (pos 0) []) no_response 7 ticks))
      ⊎ (All (OffersNone decode) (no_response ∷ answers decode ticks)
          × (shown (start decode (new_upstream_checker (pos 0) []) no_response 7 ticks)
              ≡ ([], []))))
    × AtLeastHour (pos 0) (new_upstream_checker (pos 0) []).interval
upstream_latest_example = upstream_latest decode (pos 0) [] no_response 7 ticks

abbrev usage : Bytes → Option (Usage ℕ)
usage path =
    if str_eq path (codes "/media/empty")
    then none
    else some (record { total = 4_000_000_000; used = 1; free = 3; used_percent = 25 })

abbrev gigabytes : ℕ → ℕ
gigabytes n = n / 1_000_000_000

abbrev spare : DiskConfig
spare = record { path = codes "/media/My Disk"; name = codes "My Disk" }

abbrev disks : List DiskConfig
disks = spare ∷ record { path = codes "/media/empty"; name = codes "empty" } ∷ []

abbrev partitions : List Partition
partitions =
    record { mountpoint = codes "/media/My Disk"; opts = codes "rw" ∷ [] }
    ∷ record { mountpoint = codes "/media/empty"; opts = codes "rw" ∷ [] }
    ∷ []

discover_disks_iff_example :
    In spare (discover_disks usage (some partitions))
    ↔ ((p : Partition) × In p partitions × IsShown usage p spare)
discover_disks_iff_example = discover_disks_iff usage partitions spare

abbrev first_sensor : Sensor
first_sensor =
    disk_sensor config spare (codes " Used %") (codes "used_pct") (codes " | round(1) }}")
      (codes "%")

disk_sensors_lem_example :
    (d : DiskConfig) × In d disks
    × Reads first_sensor (disk_key d.name)
    × (((entry : DiskStats ℕ) × (collect_disks usage gigabytes disks (disk_key d.name)
            ≡ some entry))
        ↔ ((e : DiskConfig) × In e disks × Measured usage e × (e.name ≡ disk_key d.name)))
    × ((disk_key d.name ≡ d.name) ↔ Lacks b' ' d.name)
unfolding disk_sensors
disk_sensors_lem_example = disk_sensors_lem usage gigabytes config disks first_sensor (inl refl)

abbrev floats : Floats ℕ
floats = record {
  zero_float = 0;
  thousandths = λ v. v / 1000;
  millionths = λ n. n / 1_000_000;
  quotient = λ a b. a / b;
  seconds = λ n. n / 1_000_000_000;
  is_positive = ltb 0;
}

abbrev energy : Bytes → Files
energy shown_ path = if str_eq path energy_path then some shown_ else none

abbrev sample : Bytes → ℕ → Sample ℕ
sample shown_ time = record {
  files = energy shown_;
  measured_at = time;
  stored_at = time;
  total_percent = none;
  core_percents = none;
}

abbrev samples : List (Sample ℕ)
samples = sample (codes "41000000") 1_000_000_000 ∷ sample [] 2_000_000_000 ∷ []

abbrev watts : ℕ
watts =
    (collect_cpu floats
      (after_calls floats (new_cpu_collector (energy (codes "1000000")) (λ _. true) [] 0) samples)
      (sample (codes "101000000") 3_000_000_000)).0.watts
