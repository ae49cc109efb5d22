-- ===== src/Mqtt/Discovery/Publish/Exact.antt =====
-- A start of the service: what the broker retains of its device is what is desired.
use zimaos_monitor.Base.{
  ℕ, ◌≡◌, ◌↔◌, ◌⊎◌, inl, inr, refl, sym, ◌∙◌, Bool, true, false, List, [], Option, none, some, In,
  Bytes, Bool-cases,
}
use zimaos_monitor.Config.{Config, DiskConfig}
use zimaos_monitor.Mqtt.Client.{Retained, Message, Broker, collect_messages, collect_retained}
use zimaos_monitor.Mqtt.Client.Keyed.{collect_messages-Keyed}
use zimaos_monitor.Mqtt.Topic.{Address, discovery_topic_filter}
use zimaos_monitor.Mqtt.Topic.Parse.{IsAddress, topic_of}
use zimaos_monitor.Mqtt.Cleanup.{Probe, purge_stale_discovery}
use zimaos_monitor.Mqtt.Cleanup.Plan.{StaleIn}
use zimaos_monitor.Mqtt.Cleanup.Purge.{
  IsHonest, Holds-In, collect_messages-Holds, purge_stale_discovery_lem,
  purge_stale_discovery-clears,
}
use zimaos_monitor.Mqtt.Discovery.Publish.{Encoder, publish_discovery}
use zimaos_monitor.Mqtt.Discovery.Publish.Publication.{IsJson, Advertised}
use zimaos_monitor.Mqtt.Discovery.Publish.Success.{CanEncode, publish_discovery-none}
use zimaos_monitor.Mqtt.Discovery.Publish.Desired.{
  desired, publish_discovery-others, publish_discovery-Advertised,
}

-- What the broker retains of a device arrives at its filter before the scan ends.
abbrev pub IsComplete : Broker → Retained → Bytes → Type 0
IsComplete broker store device_id =
    (filter : Bytes)
    → discovery_topic_filter device_id ≡ some filter
    → (messages : List Message) × (broker.arrivals filter store ≡ some messages)
      × ((a : Address) (p : Bytes)
          → IsAddress a
          → a.node_id ≡ device_id
          → store (topic_of a) ≡ some p
          → In (record { topic = topic_of a; payload = p; retained = true }) messages)

module _ (broker : Broker) (decode_probe : Bytes → Option Probe) (device_id : Bytes)
    (desired : Bytes → Bool) (store : Retained) (filter : Bytes) where
  -- A record of the device that is not desired is cleared.
  pub purged_own :
      (a : Address)
      → discovery_topic_filter device_id ≡ some filter
      → IsHonest broker store
      → IsComplete broker store device_id
      → ((n : ℕ) → broker.delivers n (topic_of a) ≡ true)
      → IsAddress a
      → a.node_id ≡ device_id
      → desired (topic_of a) ≡ false
      → ¬ Advertised decode_probe device_id
          (topic_of a)
          (purge_stale_discovery broker decode_probe device_id desired store)
  unfolding collect_retained
  purged_own a safe honest complete delivered good node absent (p, kept, (ne, own)) =
      elim (purge_stale_discovery_lem broker decode_probe device_id desired store (topic_of a)
        honest) [ inl same ↦ left (sym same ∙ kept) | inr (gone, _, _, _) ↦ cc (gone, kept) ]
    where
      left : store (topic_of a) ≡ some p → ⊥
      left there =
          let (messages, arrived, each) = complete filter safe in
          let (q, i) =
            collect_messages-Keyed (record { topic = topic_of a; payload = p; retained = true })
              messages [] (each a p good node there) refl in
          let collected = collect_messages [] messages in
          let current : store (topic_of a) ≡ some q =
            Holds-In store (topic_of a) q collected
              (collect_messages-Holds store messages [] (honest filter messages arrived) tt) i in
          let same : q ≡ p = cc in
          let got : collect_retained broker filter store ≡ some collected =
            rw (arrived, collect_retained) refl in
          let stale : StaleIn decode_probe desired device_id (topic_of a) collected =
            (q, i, (a, refl, good, node, rw same ne, absent, rw same own)) in
          cc (
            kept,
            purge_stale_discovery-clears broker decode_probe device_id desired store (topic_of a)
                filter collected safe got stale delivered,
          )

module _ (broker : Broker) (encoder : Encoder) (decode_probe : Bytes → Option Probe) (cfg : Config)
    (disks : List DiskConfig) (cores : ℕ) (store : Retained) where
  -- What a start leaves.
  abbrev pub started : Retained
  started = (publish_discovery broker encoder decode_probe cfg disks cores true store).1

  -- A start whose records can be encoded has no error on a broker that takes every message, whose
  -- retain flags are right and which sends all that it has retained of the device, and behind it the
  -- discovery topics of the device under which a record of this program for it is retained are just
  -- the desired ones. The device ID is one level of a topic, and the JSON of these records gives back
  -- the name of the program and the device ID, as it does for an ID of valid UTF-8.
  pub publish_discovery_exact :
      (filter : Bytes)
      → IsJson encoder decode_probe cfg
      → IsHonest broker store
      → IsComplete broker store cfg.device.id
      → ((n : ℕ) (t : Bytes) → broker.delivers n t ≡ true)
      → discovery_topic_filter cfg.device.id ≡ some filter
      → CanEncode encoder cfg
      → (a : Address) → IsAddress a
      → a.node_id ≡ cfg.device.id
      → ((publish_discovery broker encoder decode_probe cfg disks cores true store).0 ≡ none)
        × (Advertised decode_probe cfg.device.id (topic_of a) started
            ↔ (desired cfg disks cores (topic_of a) ≡ true))
  publish_discovery_exact filter json honest complete delivers safe can a good node =
      let well =
        publish_discovery-none broker encoder delivers cfg can decode_probe disks cores true
          store in
      (
        well,
        (
          forward (Bool-cases _),
          publish_discovery-Advertised broker encoder decode_probe cfg disks cores true store json
              (topic_of a) well,
        ),
      )
    where
      forward :
          (desired cfg disks cores (topic_of a) ≡ true)
            ⊎ (desired cfg disks cores (topic_of a) ≡ false)
          → Advertised decode_probe cfg.device.id (topic_of a) started
          → desired cfg disks cores (topic_of a) ≡ true
      forward (inl in_) there = in_
      forward (inr out) (p, kept, own) =
          let unchanged =
            publish_discovery-others broker encoder decode_probe cfg disks cores true store json
              (topic_of a) out in
          absurd (
            purged_own broker decode_probe cfg.device.id (desired cfg disks cores) store filter a
              safe honest complete (λ n. delivers n (topic_of a)) good node out
              (p, sym unchanged ∙ kept, own))
