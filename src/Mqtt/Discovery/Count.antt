-- ===== src/Mqtt/Discovery/Count.antt =====
-- How many sensors there are.
use zimaos_monitor.Base.{
  ℕ, zero, suc, ◌+◌, ◌*◌, ◌≡◌, refl, arith, List, [], ◌∷◌, ◌++◌, length, length-append,
}
use zimaos_monitor.Config.{Config, DiskConfig}
use zimaos_monitor.Mqtt.Discovery.{fixed_sensors, disk_sensors, core_sensors, sensors}

length-disk_sensors :
    (cfg : Config) (disks : List DiskConfig) → length (disk_sensors cfg disks) ≡ 4 * length disks
unfolding disk_sensors
length-disk_sensors cfg [] = refl
length-disk_sensors cfg (d ∷ disks) = omega (arith, length-disk_sensors cfg disks)

length-core_sensors : (cfg : Config) (left i : ℕ) → length (core_sensors cfg left i) ≡ left
unfolding core_sensors
length-core_sensors cfg zero i = refl
length-core_sensors cfg (suc left) i = omega (arith, length-core_sensors cfg left (i + 1))

length-fixed_sensors : (cfg : Config) → length (fixed_sensors cfg) ≡ 10
unfolding fixed_sensors
length-fixed_sensors cfg = refl

-- There are ten fixed sensors, four for each disk and one for each core.
pub length-sensors :
    (cfg : Config) (disks : List DiskConfig) (cores : ℕ)
    → length (sensors cfg disks cores) ≡ 10 + 4 * length disks + cores
unfolding sensors
length-sensors cfg disks cores = omega (
  arith,
  length-append {0} (fixed_sensors cfg) (disk_sensors cfg disks ++ core_sensors cfg cores 0),
  length-append {0} (disk_sensors cfg disks) (core_sensors cfg cores 0),
  length-fixed_sensors cfg,
  length-disk_sensors cfg disks,
  length-core_sensors cfg cores 0,
)
