-- ===== src/Command/Service/Advertises.antt =====
-- What the broker retains while the service runs.
use zimaos_monitor.Base.{
  ℕ, ◌+◌, Bool, true, false, List, [], ◌∷◌, Option, none, some, if-eq-then, if-eq-else, subst,
  Bytes, Bool-cases, Option-cases, ◌≡◌, ◌↔◌, ◌⊎◌, inl, inr, refl, sym, ◌∙◌, leb,
}
use zimaos_monitor.Config.{is_enabled}
use zimaos_monitor.Mqtt.Client.{Retained, Broker}
use zimaos_monitor.Mqtt.Topic.{Address, discovery_topic_filter}
use zimaos_monitor.Mqtt.Topic.Parse.{IsAddress, topic_of}
use zimaos_monitor.Mqtt.Cleanup.Purge.{IsHonest}
use zimaos_monitor.Mqtt.Discovery.Publish.{publish_discovery}
use zimaos_monitor.Mqtt.Discovery.Publish.Publication.{IsJson, Advertised}
use zimaos_monitor.Mqtt.Discovery.Publish.Desired.{
  desired, publish_discovery-others, publish_discovery-keeps, publish_discovery-Advertised,
}
use zimaos_monitor.Mqtt.Discovery.Publish.Success.{CanEncode, publish_discovery-none}
use zimaos_monitor.Mqtt.Discovery.Publish.Exact.{IsComplete, started, publish_discovery_exact}
use zimaos_monitor.Collector.Cpu.{CpuCollector}
use zimaos_monitor.Command.Service.Steps.{
  measured, payload_of, collect-none, collect-dry, collect-wet, open_service-wet, serve-true,
}
use zimaos_monitor.Command.Service.{
  Settings, Codecs, Moment, Event, tick, signal, State, send, send_encoded, publish_monitor_state,
  announce, count_round, publish_round, collect, loop, open_service, serve,
}

send-retained :
    (b : Broker) (t p : Bytes) (st : State) (u : Bytes) → (send b t p st).retained u ≡ st.retained u
unfolding send
send-retained b t p st u = elim (Bool-cases (b.delivers 0 t)) [
  | inl e ↦ rw e refl
  | inr e ↦ rw e refl
]

-- The topics that are to be published.
abbrev pub wanted : Settings → Bytes → Bool
wanted settings = desired settings.cfg settings.cfg.disks settings.num_cores

module _ {F : Type 0} (codecs : Codecs F) (settings : Settings)
    (json : IsJson codecs.encoder codecs.decode_probe settings.cfg) (reference : Retained) where
  -- The topics that are wanted have records of this program for this device, and the others have what
  -- they have in the reference.
  record IsSettled (st : State) : Type 0 where
    others : (t : Bytes) → wanted settings t ≡ false → st.retained t ≡ reference t
    own :
        (t : Bytes)
        → wanted settings t ≡ true
        → Advertised codecs.decode_probe settings.cfg.device.id t st.retained

  send-IsSettled :
      (b : Broker) (t p : Bytes) (st : State) → IsSettled st → IsSettled (send b t p st)
  send-IsSettled b t p st h = record {
    others = λ u w. send-retained b t p st u ∙ h.others u w;
    own = λ u w. let (q, kept, good) = h.own u w in (q, send-retained b t p st u ∙ kept, good);
  }

  send_encoded-IsSettled :
      (b : Broker) (t : Bytes) (o : Option Bytes) (st : State)
      → IsSettled st
      → IsSettled (send_encoded b t o st)
  send_encoded-IsSettled b t none st h = h
  send_encoded-IsSettled b t (some p) st h = send-IsSettled b t p st h

  monitor-IsSettled :
      (m : Moment F) (st : State)
      → IsSettled st
      → IsSettled (publish_monitor_state codecs settings m st)
  unfolding publish_monitor_state
  monitor-IsSettled m st h = elim (Bool-cases (is_enabled settings.cfg.monitor_updates)) [
    | inl e ↦ subst IsSettled (sym (if-eq-then _ st e)) (send_encoded-IsSettled m.broker _ _ st h)
    | inr e ↦ subst IsSettled (sym (if-eq-else _ st e)) h
  ]

  announce-IsSettled :
      (b : Broker) (st : State) → IsSettled st → IsSettled (announce codecs settings b false st)
  unfolding announce
  announce-IsSettled b st h = record {
    others = λ t w.
        publish_discovery-others b codecs.encoder codecs.decode_probe settings.cfg
          settings.cfg.disks settings.num_cores false st.retained json t w
        ∙ h.others t w;
    own = λ t w.
        publish_discovery-keeps b codecs.encoder codecs.decode_probe settings.cfg settings.cfg.disks
          settings.num_cores false st.retained json t (h.own t w);
  }

  count_round-IsSettled :
      (b : Broker) (st : State) → IsSettled st → IsSettled (count_round codecs settings b st)
  unfolding count_round
  count_round-IsSettled b st h = elim (Bool-cases (leb 10 (st.counter + 1))) [
    | inl e ↦
        rw (e, count_round)
          (announce-IsSettled b (record st { counter = 0 })
            (record { others = h.others; own = h.own }))
    | inr e ↦ rw (e, count_round) (record { others = h.others; own = h.own })
  ]

  collect-IsSettled :
      (m : Moment F) (st : State) → IsSettled st → IsSettled (collect codecs settings st m)
  unfolding publish_round
  collect-IsSettled m st h =
      let h' : IsSettled (measured codecs settings m st) = record {
        others = h.others;
        own = h.own;
      } in
      elim (Option-cases (payload_of codecs settings m st)) [
        | inl e ↦ rw (collect-none codecs settings m st e) h'
        | inr (payload, e) ↦ elim (Bool-cases settings.dry_run) [
          | inl dry ↦
              rw (collect-dry codecs settings m st payload e dry)
                (record { others = h.others; own = h.own })
          | inr wet ↦ rw (collect-wet codecs settings m st payload e wet) (
              count_round-IsSettled m.broker _ (
                monitor-IsSettled m _ (
                  send_encoded-IsSettled m.broker _ _ _
                    (send-IsSettled m.broker _ payload (measured codecs settings m st) h'))))
        ]
      ]

  loop-IsSettled :
      (events : List (Event F)) (st : State)
      → IsSettled st
      → IsSettled (loop codecs settings st events)
  unfolding loop
  loop-IsSettled [] st h = h
  loop-IsSettled (signal ∷ events) st h = h
  loop-IsSettled (tick m ∷ events) st h =
      loop-IsSettled events (collect codecs settings st m) (collect-IsSettled m st h)

module _ {F : Type 0} (codecs : Codecs F) (settings : Settings)
    (json : IsJson codecs.encoder codecs.decode_probe settings.cfg) (b : Broker)
    (store : Retained) where
  -- What a start leaves of the retained messages.
  abbrev pub store_at_start : Retained
  store_at_start =
      started b codecs.encoder codecs.decode_probe settings.cfg settings.cfg.disks
        settings.num_cores store

  open_service-IsSettled :
      (cpu : CpuCollector)
      → settings.dry_run ≡ false
      → (publish_discovery b codecs.encoder codecs.decode_probe settings.cfg settings.cfg.disks
          settings.num_cores true store).0
        ≡ none
      → IsSettled codecs settings json store_at_start (open_service codecs settings cpu b store)
  unfolding announce
  open_service-IsSettled cpu wet well =
      rw (open_service-wet codecs settings cpu b store wet) (record {
        others = λ t w. refl;
        own = λ t w.
            publish_discovery-Advertised b codecs.encoder codecs.decode_probe settings.cfg
              settings.cfg.disks settings.num_cores true store json t well w;
      })

  -- A service that connects and is no dry run, and whose records can be encoded, is started on a
  -- broker that then takes every message, whose retain flags are right and which sends all that it
  -- has retained of the device. After any rounds, whatever fails in them, the discovery topics of the
  -- device under which a record of this program for it is retained are just the desired ones. The
  -- device ID is one level of a topic, and the JSON of these records gives back the name of the program
  -- and the device ID, as it does for an ID of valid UTF-8.
  pub serve-exact :
      (filter : Bytes)
      → settings.dry_run ≡ false
      → CanEncode codecs.encoder settings.cfg
      → IsHonest b store
      → IsComplete b store settings.cfg.device.id
      → ((n : ℕ) (t : Bytes) → b.delivers n t ≡ true)
      → discovery_topic_filter settings.cfg.device.id ≡ some filter
      → (cpu : CpuCollector) (first : Moment F) (events : List (Event F)) (a : Address)
      → IsAddress a
      → a.node_id ≡ settings.cfg.device.id
      → (st : State) × (serve codecs settings cpu true b store first events ≡ some st)
        × (Advertised codecs.decode_probe settings.cfg.device.id (topic_of a) st.retained
            ↔ (wanted settings (topic_of a) ≡ true))
  serve-exact filter wet can honest complete delivers safe cpu first events a good node =
      let opened = open_service codecs settings cpu b store in
      let st = loop codecs settings opened (tick first ∷ events) in
      let h = loop-IsSettled codecs settings json store_at_start (tick first ∷ events) opened (
        open_service-IsSettled cpu wet (
          publish_discovery-none b codecs.encoder delivers settings.cfg can codecs.decode_probe
            settings.cfg.disks settings.num_cores true store)) in
      (
        st,
        serve-true codecs settings cpu b store first events,
        (forward st h (Bool-cases _), h.own (topic_of a)),
      )
    where
      forward :
          (st : State)
          → IsSettled codecs settings json store_at_start st
          → (wanted settings (topic_of a) ≡ true) ⊎ (wanted settings (topic_of a) ≡ false)
          → Advertised codecs.decode_probe settings.cfg.device.id (topic_of a) st.retained
          → wanted settings (topic_of a) ≡ true
      forward st h (inl in_) there = in_
      forward st h (inr out) (p, kept, own) =
          (publish_discovery_exact b codecs.encoder codecs.decode_probe settings.cfg
              settings.cfg.disks settings.num_cores store filter json honest complete delivers safe
              can a good node).1.0
            (p, sym (h.others (topic_of a) out) ∙ kept, own)
