-- ===== src/Mqtt/Discovery/States.antt =====
-- The topic that the sensors read.
use zimaos_monitor.Base.{ℕ, zero, suc, ◌+◌, List, [], ◌∷◌, ◌≡◌, refl, All, All-append}
use zimaos_monitor.Config.{Config, DiskConfig}
use zimaos_monitor.Mqtt.Discovery.{
  Sensor, fixed_sensors, disk_sensors, core_sensors, sensors, state_topic_of,
}

-- The sensor reads the state topic of the device.
abbrev pub IsStateSensor : Config → Sensor → Type 0
IsStateSensor cfg s = s.state_topic ≡ state_topic_of cfg.device.id

module _ (cfg : Config) where
  fixed_sensors-IsStateSensor : All (IsStateSensor cfg) (fixed_sensors cfg)
  unfolding fixed_sensors
  fixed_sensors-IsStateSensor =
      (refl, (refl, (refl, (refl, (refl, (refl, (refl, (refl, (refl, (refl, tt))))))))))

  disk_sensors-IsStateSensor :
      (disks : List DiskConfig) → All (IsStateSensor cfg) (disk_sensors cfg disks)
  unfolding disk_sensors
  disk_sensors-IsStateSensor [] = tt
  disk_sensors-IsStateSensor (d ∷ disks) =
      (refl, (refl, (refl, (refl, disk_sensors-IsStateSensor disks))))

  core_sensors-IsStateSensor : (left i : ℕ) → All (IsStateSensor cfg) (core_sensors cfg left i)
  unfolding core_sensors
  core_sensors-IsStateSensor zero i = tt
  core_sensors-IsStateSensor (suc left) i = (refl, core_sensors-IsStateSensor left (i + 1))

  pub sensors-IsStateSensor :
      (disks : List DiskConfig) (cores : ℕ) → All (IsStateSensor cfg) (sensors cfg disks cores)
  unfolding sensors
  sensors-IsStateSensor disks cores =
      All-append (IsStateSensor cfg) (fixed_sensors cfg) _ fixed_sensors-IsStateSensor (
        All-append (IsStateSensor cfg) (disk_sensors cfg disks) _ (disk_sensors-IsStateSensor disks)
          (core_sensors-IsStateSensor cores 0))
