-- ===== src/Mqtt/Discovery/Publish/Desired.antt =====
-- Publishing the records makes the broker retain one under each desired topic, and nothing else.
use zimaos_monitor.Base.{
  ℕ, zero, suc, ◌+◌, ◌≡◌, ◌↔◌, inl, refl, arith, Bool, true, false, List, [], ◌∷◌, Option, none,
  some, In, All, All-append, Bytes, map, if◌then◌else◌,
}
use zimaos_monitor.Config.{Config, DiskConfig, is_enabled}
use zimaos_monitor.Mqtt.Client.{Retained, Broker}
use zimaos_monitor.Mqtt.Cleanup.{Probe, purge_stale_discovery}
use zimaos_monitor.Mqtt.Discovery.{
  Sensor, fixed_sensors, disk_sensors, core_sensors, sensors, zimaos_update_discovery,
  monitor_update_discovery,
}
use zimaos_monitor.Mqtt.Discovery.Publish.{
  Encoder, and_then, publish_payload, sensor_topic, publish_sensors, publish_zimaos,
  publish_monitor_update, publish_records, publish_discovery, desired_topics, zimaos_topic,
  monitor_topic, is_key, marshal_sensor, publish_sensor, marshal_update, publish_update,
  marshal_monitor, publish_monitor,
}
use zimaos_monitor.Mqtt.Discovery.Publish.Publication.{
  IsOurs, IsJson, IsRecord, Advertised, IsPublication, nothing-IsPublication, then-IsPublication,
  payload-IsPublication,
}

disk_sensors-IsOurs :
    (cfg : Config) (disks : List DiskConfig) → All (IsOurs cfg) (disk_sensors cfg disks)
unfolding disk_sensors
disk_sensors-IsOurs cfg [] = tt
disk_sensors-IsOurs cfg (d ∷ disks) =
    ((refl, refl), ((refl, refl), ((refl, refl), ((refl, refl), disk_sensors-IsOurs cfg disks))))

core_sensors-IsOurs : (cfg : Config) (left i : ℕ) → All (IsOurs cfg) (core_sensors cfg left i)
unfolding core_sensors
core_sensors-IsOurs cfg zero i = tt
core_sensors-IsOurs cfg (suc left) i = ((refl, refl), core_sensors-IsOurs cfg left (i + 1))

fixed_sensors-IsOurs : (cfg : Config) → All (IsOurs cfg) (fixed_sensors cfg)
unfolding fixed_sensors
fixed_sensors-IsOurs cfg = ground arith

pub sensors-IsOurs :
    (cfg : Config) (disks : List DiskConfig) (cores : ℕ)
    → All (IsOurs cfg) (sensors cfg disks cores)
unfolding sensors
sensors-IsOurs cfg disks cores =
    All-append (IsOurs cfg) (fixed_sensors cfg) _ (fixed_sensors-IsOurs cfg) (
      All-append (IsOurs cfg) (disk_sensors cfg disks) _ (disk_sensors-IsOurs cfg disks)
        (core_sensors-IsOurs cfg cores 0))

module _ (broker : Broker) (encoder : Encoder) (decode_probe : Bytes → Option Probe) (cfg : Config)
    (json : IsJson encoder decode_probe cfg) where
  IsRecord-sensor :
      (s : Sensor) (p : Bytes)
      → IsOurs cfg s
      → encoder.encode_sensor s ≡ some p
      → IsRecord decode_probe cfg.device.id p
  IsRecord-sensor s p ours e =
      let (ne, read) = json.sensor s p ours e in (ne, (_, read, refl, inl refl))

  sensors-IsPublication :
      (number : ℕ) (list : List Sensor)
      → All (IsOurs cfg) list
      → IsPublication decode_probe cfg.device.id
          (map (sensor_topic cfg) list)
          (publish_sensors broker encoder cfg number list)
  unfolding publish_sensors
  sensors-IsPublication number [] h = nothing-IsPublication decode_probe cfg.device.id
  sensors-IsPublication number (s ∷ list) (ours, h) =
      then-IsPublication decode_probe cfg.device.id (sensor_topic cfg s ∷ [])
        (map (sensor_topic cfg) list) _ (publish_sensors broker encoder cfg (number + 1) list)
        (payload-IsPublication decode_probe cfg.device.id broker encoder number
          (encoder.encode_sensor s) (sensor_topic cfg s) (marshal_sensor s.unique_id)
          (publish_sensor s.unique_id) (λ p. IsRecord-sensor s p ours))
        (sensors-IsPublication (number + 1) list h)

  zimaos-IsPublication :
      IsPublication decode_probe cfg.device.id
        (zimaos_topic cfg ∷ [])
        (publish_zimaos broker encoder cfg)
  zimaos-IsPublication =
      payload-IsPublication decode_probe cfg.device.id broker encoder 0 _ (zimaos_topic cfg)
        marshal_update publish_update
        λ p e.
          let (ne, read) = json.update (zimaos_update_discovery cfg) p refl refl e in
          (ne, (_, read, refl, inl refl))

  monitor_topics : List Bytes
  monitor_topics = if is_enabled cfg.monitor_updates then monitor_topic cfg ∷ [] else []

  monitor-IsPublication :
      IsPublication decode_probe cfg.device.id monitor_topics
        (publish_monitor_update broker encoder cfg)
  unfolding publish_monitor_update monitor_topics
  monitor-IsPublication = go (is_enabled cfg.monitor_updates)
    where
      go :
          (b : Bool)
          → IsPublication decode_probe cfg.device.id
              (if b then monitor_topic cfg ∷ [] else [])
              (λ store.
                if b
                then publish_payload broker encoder 0
                    (encoder.encode_update (monitor_update_discovery cfg))
                    (monitor_topic cfg)
                    marshal_monitor
                    publish_monitor
                    store
                else (none, store))
      go true =
          payload-IsPublication decode_probe cfg.device.id broker encoder 0 _ (monitor_topic cfg)
            marshal_monitor publish_monitor
            λ p e.
              let (ne, read) = json.update (monitor_update_discovery cfg) p refl refl e in
              (ne, (_, read, refl, inl refl))
      go false = nothing-IsPublication decode_probe cfg.device.id

  pub records-IsPublication :
      (list : List Sensor)
      → All (IsOurs cfg) list
      → IsPublication decode_probe cfg.device.id
          (desired_topics cfg list)
          (publish_records broker encoder cfg list)
  unfolding publish_records monitor_topics
  records-IsPublication list h =
      then-IsPublication decode_probe cfg.device.id (map (sensor_topic cfg) list) _
        (publish_sensors broker encoder cfg 0 list)
        (λ store.
          and_then (publish_zimaos broker encoder cfg store)
            (publish_monitor_update broker encoder cfg))
        (sensors-IsPublication 0 list h)
        (then-IsPublication decode_probe cfg.device.id (zimaos_topic cfg ∷ []) monitor_topics
          (publish_zimaos broker encoder cfg) (publish_monitor_update broker encoder cfg)
          zimaos-IsPublication monitor-IsPublication)

pub is_key_iff : (keys : List Bytes) (t : Bytes) → (is_key keys t ≡ true) ↔ In t keys
unfolding is_key
is_key_iff [] t = ground arith
is_key_iff (k ∷ keys) t = ground (arith, is_key_iff keys t)

-- The topics that are to be published.
abbrev pub desired : Config → List DiskConfig → ℕ → Bytes → Bool
desired cfg disks cores = is_key (desired_topics cfg (sensors cfg disks cores))

module _ (broker : Broker) (encoder : Encoder) (decode_probe : Bytes → Option Probe) (cfg : Config)
    (disks : List DiskConfig) (cores : ℕ) where
  -- What is retained behind the cleanup, if it is asked for.
  abbrev pub cleaned : Bool → Retained → Retained
  cleaned purge_stale store =
      if purge_stale
      then purge_stale_discovery broker decode_probe cfg.device.id (desired cfg disks cores) store
      else store

  desired-IsPublication :
      (json : IsJson encoder decode_probe cfg)
      → IsPublication decode_probe cfg.device.id
          (desired_topics cfg (sensors cfg disks cores))
          (publish_records broker encoder cfg (sensors cfg disks cores))
  desired-IsPublication json =
      records-IsPublication broker encoder decode_probe cfg json (sensors cfg disks cores)
        (sensors-IsOurs cfg disks cores)

  module _ (purge_stale : Bool) (store : Retained) (json : IsJson encoder decode_probe cfg)
      (t : Bytes) where
    -- Publishing touches no topic but the desired ones.
    pub publish_discovery-others :
        desired cfg disks cores t ≡ false
        → (publish_discovery broker encoder decode_probe cfg disks cores purge_stale store).1 t
          ≡ cleaned purge_stale store t
    unfolding publish_discovery
    publish_discovery-others h =
        (desired-IsPublication json).others _ t λ i. let k = (is_key_iff _ t).1 i in cc (h, k)

    -- A record of this program for this device stays one, or becomes another one.
    pub publish_discovery-keeps :
        Advertised decode_probe cfg.device.id t (cleaned purge_stale store)
        → Advertised decode_probe cfg.device.id t
            (publish_discovery broker encoder decode_probe cfg disks cores purge_stale store).1
    unfolding publish_discovery
    publish_discovery-keeps h = (desired-IsPublication json).keeps _ t h

    -- Without an error, a record of this program for this device that is not empty is retained under
    -- each desired topic.
    pub publish_discovery-Advertised :
        (publish_discovery broker encoder decode_probe cfg disks cores purge_stale store).0 ≡ none
        → desired cfg disks cores t ≡ true
        → Advertised decode_probe cfg.device.id t
            (publish_discovery broker encoder decode_probe cfg disks cores purge_stale store).1
    unfolding publish_discovery
    publish_discovery-Advertised r h =
        (desired-IsPublication json).reaches _ t r ((is_key_iff _ t).0 h)
