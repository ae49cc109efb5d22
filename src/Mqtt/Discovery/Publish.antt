-- ===== src/Mqtt/Discovery/Publish.antt =====
-- internal/mqtt/autodiscovery.go: `PublishDiscovery`, over its records.
pub mod Publication
pub mod Desired
pub mod Success
pub mod Exact
use zimaos_monitor.Base.{
  ℕ, ◌+◌, Bool, true, false, ◌||◌, List, [], ◌∷◌, ◌++◌, map, Option, none, some, if◌then◌else◌,
  Bytes, codes, str_eq,
}
use zimaos_monitor.Config.{Config, DiskConfig, is_enabled}
use zimaos_monitor.Mqtt.Client.{Retained, Broker, publish}
use zimaos_monitor.Mqtt.Cleanup.{Probe, purge_stale_discovery}
use zimaos_monitor.Mqtt.Discovery.{
  Sensor, UpdateEntity, sensors, zimaos_update_discovery, monitor_update_discovery,
}

-- `json.Marshal`; none is an error.
pub record Encoder : Type 0 where
  pub encode_sensor : Sensor → Option Bytes
  pub encode_update : UpdateEntity → Option Bytes

pub data DiscoveryError : Type 0 where
  marshal_sensor publish_sensor : Bytes → DiscoveryError
  marshal_update publish_update marshal_monitor publish_monitor : DiscoveryError

-- The error, if there is one, and what the broker then retains.
abbrev pub Published : Type 0
Published = Option DiscoveryError × Retained

-- What follows `if err != nil { return err }`
abbrev pub and_then : Published → (Retained → Published) → Published
and_then (none, store) f = f store
and_then (some e, store) f = (some e, store)

abbrev pub sensor_topic : Config → Sensor → Bytes
sensor_topic cfg s =
    codes "homeassistant/sensor/" ++ (cfg.device.id ++ (b'/' ∷ (s.unique_id ++ codes "/config")))

abbrev pub zimaos_topic : Config → Bytes
zimaos_topic cfg =
    codes "homeassistant/update/" ++ (cfg.device.id ++ codes "/zimaos_version/config")

abbrev pub monitor_topic : Config → Bytes
monitor_topic cfg =
    codes "homeassistant/update/" ++ (cfg.device.id ++ codes "/zimaos_monitor/config")

-- The keys of the map `desired`
abbrev pub desired_topics : Config → List Sensor → List Bytes
desired_topics cfg list =
    map (sensor_topic cfg) list
    ++ (zimaos_topic cfg ∷ (if is_enabled cfg.monitor_updates then monitor_topic cfg ∷ [] else []))

-- `desired[topic]`
unfoldable pub is_key : List Bytes → Bytes → Bool
is_key [] topic = false
is_key (key ∷ keys) topic = str_eq topic key || is_key keys topic

module _ (broker : Broker) (encoder : Encoder) where
  -- `json.Marshal` and `Publish`, with the errors of the two
  unfoldable pub publish_payload :
      ℕ → Option Bytes → Bytes → DiscoveryError → DiscoveryError → Retained → Published
  publish_payload number none topic unmarshalled unsent store = (some unmarshalled, store)
  publish_payload number (some payload) topic unmarshalled unsent store =
      let (sent, store') = publish broker number topic payload true store in
      (if sent then none else some unsent, store')

  unfoldable pub publish_sensors : Config → ℕ → List Sensor → Retained → Published
  publish_sensors cfg number [] store = (none, store)
  publish_sensors cfg number (s ∷ rest) store =
      and_then
        (publish_payload number (encoder.encode_sensor s) (sensor_topic cfg s)
          (marshal_sensor s.unique_id) (publish_sensor s.unique_id) store)
        (publish_sensors cfg (number + 1) rest)

  abbrev pub publish_zimaos : Config → Retained → Published
  publish_zimaos cfg =
      publish_payload 0 (encoder.encode_update (zimaos_update_discovery cfg)) (zimaos_topic cfg)
        marshal_update publish_update

  unfoldable pub publish_monitor_update : Config → Retained → Published
  publish_monitor_update cfg store =
      if is_enabled cfg.monitor_updates
      then publish_payload 0 (encoder.encode_update (monitor_update_discovery cfg))
          (monitor_topic cfg) marshal_monitor publish_monitor store
      else (none, store)

  -- What follows the cleanup
  unfoldable pub publish_records : Config → List Sensor → Retained → Published
  publish_records cfg list store =
      and_then (publish_sensors cfg 0 list store)
        λ store₁. and_then (publish_zimaos cfg store₁) (publish_monitor_update cfg)

  unfoldable pub publish_discovery :
      (Bytes → Option Probe) → Config → List DiskConfig → ℕ → Bool → Retained → Published
  unfolding publish_records
  publish_discovery decode_probe cfg disks num_cores purge_stale store =
      let list = sensors cfg disks num_cores in
      let desired = is_key (desired_topics cfg list) in
      publish_records cfg list (
        if purge_stale
        then purge_stale_discovery broker decode_probe cfg.device.id desired store
        else store)
