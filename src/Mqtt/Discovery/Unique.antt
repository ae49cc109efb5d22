-- ===== src/Mqtt/Discovery/Unique.antt =====
-- Which records get the same unique ID or the same discovery topic.
use mathlib.Core.List.{append_cancel_left, append_cancel_right, map-append}
use zimaos_monitor.Base.{
  ℕ, zero, suc, ◌+◌, ◌≡◌, ◌≢◌, ◌↔◌, inl, inr, refl, sym, ap, ◌∙◌, arith, Bool, true, false, List,
  [], ◌∷◌, ◌++◌, In, map, if◌then◌else◌, Bytes, codes,
}
use zimaos_monitor.Base.Distinct.{Distinct, Distinct-append, Distinct-map, In-map-cases, Disjoint}
use zimaos_monitor.Config.{Config, DiskConfig, is_enabled}
use zimaos_monitor.Mqtt.Discovery.{
  Sensor, fixed_sensors, disk_sensors, core_sensors, sensors, disk_key,
}
use zimaos_monitor.Mqtt.Discovery.Suffixes.{
  fixed_suffixes, disk_suffixes, core_suffixes, Distinct-suffixes_iff,
}
use zimaos_monitor.Mqtt.Discovery.Publish.{
  sensor_topic, zimaos_topic, monitor_topic, desired_topics,
}

abbrev pub unique_ids : List Sensor → List Bytes
unique_ids = map (λ s. s.unique_id)

abbrev pub disk_keys : List DiskConfig → List Bytes
disk_keys = map (λ d. disk_key d.name)

module _ (cfg : Config) where
  fixed_ids : unique_ids (fixed_sensors cfg) ≡ map (cfg.device.id ++◌) fixed_suffixes
  unfolding fixed_sensors fixed_suffixes
  fixed_ids = refl

  disk_ids :
      (disks : List DiskConfig)
      → unique_ids (disk_sensors cfg disks)
        ≡ map (cfg.device.id ++◌) (disk_suffixes (disk_keys disks))
  unfolding disk_sensors disk_suffixes
  disk_ids [] = refl
  disk_ids (d ∷ disks) = rw (disk_ids disks) refl

  core_ids :
      (left i : ℕ)
      → unique_ids (core_sensors cfg left i) ≡ map (cfg.device.id ++◌) (core_suffixes left i)
  unfolding core_sensors core_suffixes
  core_ids zero i = refl
  core_ids (suc left) i = rw (core_ids left (i + 1)) refl

  all_ids :
      (disks : List DiskConfig) (cores : ℕ)
      → unique_ids (sensors cfg disks cores)
        ≡ map
            (cfg.device.id ++◌)
            (fixed_suffixes ++ (disk_suffixes (disk_keys disks) ++ core_suffixes cores 0))
  unfolding sensors
  all_ids disks cores =
      map-append (λ (s : Sensor). s.unique_id) (fixed_sensors cfg)
        (disk_sensors cfg disks ++ core_sensors cfg cores 0)
      ∙ ap (◌++ unique_ids (disk_sensors cfg disks ++ core_sensors cfg cores 0)) fixed_ids
      ∙ ap (map (cfg.device.id ++◌) fixed_suffixes ++◌) (
          map-append (λ (s : Sensor). s.unique_id) (disk_sensors cfg disks)
            (core_sensors cfg cores 0)
          ∙ ap (◌++ unique_ids (core_sensors cfg cores 0)) (disk_ids disks)
          ∙ ap (map (cfg.device.id ++◌) (disk_suffixes (disk_keys disks)) ++◌) (core_ids cores 0)
          ∙ sym (
              map-append (cfg.device.id ++◌) (disk_suffixes (disk_keys disks))
                (core_suffixes cores 0)))
      ∙ sym (
          map-append (cfg.device.id ++◌) fixed_suffixes
            (disk_suffixes (disk_keys disks) ++ core_suffixes cores 0))

  Distinct-unique_ids_iff :
      (disks : List DiskConfig) (cores : ℕ)
      → Distinct (unique_ids (sensors cfg disks cores)) ↔ Distinct (disk_keys disks)
  Distinct-unique_ids_iff disks cores = rw (all_ids disks cores) (
      let (forth, back) =
        Distinct-map (cfg.device.id ++◌) (append_cancel_left cfg.device.id)
          (fixed_suffixes ++ (disk_suffixes (disk_keys disks) ++ core_suffixes cores 0)) in
      let (forth', back') = Distinct-suffixes_iff (disk_keys disks) cores in
      (λ h. forth' (forth h), λ h. back (back' h)))

  -- The topic of a sensor with this unique ID
  topic_for : Bytes → Bytes
  topic_for unique_id =
      codes "homeassistant/sensor/" ++ (cfg.device.id ++ (b'/' ∷ (unique_id ++ codes "/config")))

  topic_for-injective : (s t : Bytes) → topic_for s ≡ topic_for t → s ≡ t
  unfolding topic_for
  topic_for-injective s t e = append_cancel_right s t (codes "/config") (
      cc (
        append_cancel_left cfg.device.id (b'/' ∷ (s ++ codes "/config"))
          (b'/' ∷ (t ++ codes "/config"))
          (append_cancel_left (codes "homeassistant/sensor/") _ _ e)))

  sensor_topics-topic_for :
      (list : List Sensor) → map (sensor_topic cfg) list ≡ map topic_for (unique_ids list)
  unfolding topic_for
  sensor_topics-topic_for [] = refl
  sensor_topics-topic_for (s ∷ list) = rw (sensor_topics-topic_for list) refl

  Distinct-sensor_topics_iff :
      (list : List Sensor) → Distinct (map (sensor_topic cfg) list) ↔ Distinct (unique_ids list)
  Distinct-sensor_topics_iff list =
      rw (sensor_topics-topic_for list)
        (Distinct-map topic_for topic_for-injective (unique_ids list))

  update_topics : Bool → List Bytes
  update_topics b = zimaos_topic cfg ∷ (if b then monitor_topic cfg ∷ [] else [])

  Distinct-update_topics : (b : Bool) → Distinct (update_topics b)
  unfolding update_topics
  Distinct-update_topics true =
      (λ i. elim i [ inl e ↦ apart e | inr h ↦ absurd h ], ((λ i. absurd i), tt))
    where
      apart : zimaos_topic cfg ≢ monitor_topic cfg
      apart e = absurd (
          ground (
            arith,
            append_cancel_left cfg.device.id (codes "/zimaos_version/config")
                (codes "/zimaos_monitor/config")
                (append_cancel_left (codes "homeassistant/update/") _ _ e),
          ))
  Distinct-update_topics false = ((λ i. absurd i), tt)

  Disjoint-update_topics :
      (list : List Sensor) (b : Bool) → Disjoint (map (sensor_topic cfg) list) (update_topics b)
  unfolding update_topics
  Disjoint-update_topics list b x i j =
      let (s, _, e) = In-map-cases (sensor_topic cfg) x list i in apart s e b j
    where
      differ :
          (t u : Bytes) → codes "homeassistant/sensor/" ++ t ≢ codes "homeassistant/update/" ++ u
      differ t u e = ground arith

      apart :
          (s : Sensor)
          → x ≡ sensor_topic cfg s
          → (b : Bool) → ¬ In x (zimaos_topic cfg ∷ (if b then monitor_topic cfg ∷ [] else []))
      apart s e b (inl e') = differ _ _ (sym e ∙ e')
      apart s e true (inr (inl e')) = differ _ _ (sym e ∙ e')
      apart s e true (inr (inr h)) = h
      apart s e false (inr h) = h

  -- No two sensors share a unique ID, and no two records a discovery topic, exactly if no two disks
  -- have names that differ only in blanks against underscores.
  pub sensors-Distinct_iff :
      (disks : List DiskConfig) (cores : ℕ)
      → (Distinct (unique_ids (sensors cfg disks cores)) ↔ Distinct (disk_keys disks))
        × (Distinct (desired_topics cfg (sensors cfg disks cores)) ↔ Distinct (disk_keys disks))
  unfolding update_topics
  sensors-Distinct_iff disks cores =
      let list = sensors cfg disks cores in
      let updates = update_topics (is_enabled cfg.monitor_updates) in
      let ids = Distinct-unique_ids_iff disks cores in
      let topics = Distinct-sensor_topics_iff list in
      let both = Distinct-append (map (sensor_topic cfg) list) updates in
      (
        ids,
        (
          λ h. ids.0 (topics.0 (both.0 h).0),
          λ h. both.1 (
            topics.1 (ids.1 h),
            Distinct-update_topics (is_enabled cfg.monitor_updates),
            Disjoint-update_topics list (is_enabled cfg.monitor_updates),
          ),
        ),
      )
