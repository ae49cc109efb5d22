-- ===== src/Mqtt/Discovery/Publish/Success.antt =====
-- Publishing succeeds where the encoder and the broker do.
use zimaos_monitor.Base.{
  ℕ, ◌+◌, ◌≡◌, refl, Bool, true, Bool-cases, inl, inr, List, [], ◌∷◌, Option, none, some, All,
  Bytes,
}
use zimaos_monitor.Config.{Config, DiskConfig, is_enabled}
use zimaos_monitor.Mqtt.Client.{Retained, Broker}
use zimaos_monitor.Mqtt.Cleanup.{Probe}
use zimaos_monitor.Mqtt.Discovery.{
  Sensor, UpdateEntity, sensors, zimaos_update_discovery, monitor_update_discovery, device_of,
  origin,
}
use zimaos_monitor.Mqtt.Discovery.Publish.{
  Encoder, DiscoveryError, Published, and_then, publish_payload, sensor_topic, publish_sensors,
  publish_monitor_update, publish_records, publish_discovery,
}
use zimaos_monitor.Mqtt.Discovery.Publish.Publication.{IsOurs}
use zimaos_monitor.Mqtt.Discovery.Publish.Desired.{sensors-IsOurs}

-- `json.Marshal` has no error for a record of this program for this device.
pub record CanEncode (encoder : Encoder) (cfg : Config) : Type 0 where
  pub sensor : (s : Sensor) → IsOurs cfg s → (p : Bytes) × (encoder.encode_sensor s ≡ some p)
  pub update :
      (u : UpdateEntity)
      → u.origin ≡ origin
      → u.device ≡ device_of cfg
      → (p : Bytes) × (encoder.encode_update u ≡ some p)

and_then-none :
    (r : Published) (g : Retained → Published)
    → r.0 ≡ none
    → ((store : Retained) → (g store).0 ≡ none)
    → (and_then r g).0 ≡ none
and_then-none (none, store) g h k = k store
and_then-none (some e, store) g h k = cc

module _ (broker : Broker) (encoder : Encoder)
    (delivers : (n : ℕ) (t : Bytes) → broker.delivers n t ≡ true) where
  payload-none :
      (n : ℕ) (o : Option Bytes) (t : Bytes) (e e' : DiscoveryError) (store : Retained)
      → (p : Bytes) × (o ≡ some p)
      → (publish_payload broker encoder n o t e e' store).0 ≡ none
  unfolding publish_payload
  payload-none n o t e e' store (p, same) = rw (same, delivers n t, publish_payload) refl

  module _ (cfg : Config) (can : CanEncode encoder cfg) where
    sensors-none :
        (n : ℕ) (list : List Sensor) (store : Retained)
        → All (IsOurs cfg) list
        → (publish_sensors broker encoder cfg n list store).0 ≡ none
    unfolding publish_sensors
    sensors-none n [] store h = refl
    sensors-none n (s ∷ list) store (ours, h) =
        and_then-none _ (publish_sensors broker encoder cfg (n + 1) list)
          (payload-none n (encoder.encode_sensor s) (sensor_topic cfg s) _ _ store
            (can.sensor s ours))
          (λ after. sensors-none (n + 1) list after h)

    monitor-none : (store : Retained) → (publish_monitor_update broker encoder cfg store).0 ≡ none
    unfolding publish_monitor_update
    monitor-none store = elim (Bool-cases (is_enabled cfg.monitor_updates)) [
      | inl e ↦
          rw e (payload-none 0 _ _ _ _ store (can.update (monitor_update_discovery cfg) refl refl))
      | inr e ↦ rw e refl
    ]

    -- On a broker that takes every message, records that can be encoded are published without an error.
    pub publish_discovery-none :
        (decode_probe : Bytes → Option Probe) (disks : List DiskConfig) (cores : ℕ)
        (purge_stale : Bool) (store : Retained)
        → (publish_discovery broker encoder decode_probe cfg disks cores purge_stale store).0 ≡ none
    unfolding publish_discovery publish_records
    publish_discovery-none decode_probe disks cores purge_stale store =
        and_then-none _ _
          (sensors-none 0 (sensors cfg disks cores) _ (sensors-IsOurs cfg disks cores))
          λ after.
            and_then-none _ (publish_monitor_update broker encoder cfg)
              (payload-none 0 _ _ _ _ after (can.update (zimaos_update_discovery cfg) refl refl))
              monitor-none
