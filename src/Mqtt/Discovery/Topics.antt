-- ===== src/Mqtt/Discovery/Topics.antt =====
-- The topics of the records are discovery topics of the device.
use zimaos_monitor.Base.{
  ℕ, zero, suc, ◌+◌, ◌≡◌, ◌≢◌, refl, sym, ◌∙◌, arith, Bool, true, false, List, [], ◌∷◌, ◌++◌, All,
  All-append, Bytes, codes, map, if◌then◌else◌,
}
use zimaos_monitor.Text.{format, Lacks, Digits, parse_uint_sound, parse_uint-format}
use zimaos_monitor.Config.{Config, DiskConfig, is_enabled}
use zimaos_monitor.Mqtt.Topic.{Address}
use zimaos_monitor.Mqtt.Topic.Parse.{IsAddress, IsLevel, topic_of}
use zimaos_monitor.Mqtt.Discovery.{
  Sensor, fixed_sensors, disk_sensors, core_sensors, sensors, disk_key,
}
use zimaos_monitor.Mqtt.Discovery.Publish.{sensor_topic, monitor_topic, desired_topics}

Lacks-append : (b : ℕ) (s t : Bytes) → Lacks b s → Lacks b t → Lacks b (s ++ t)
Lacks-append b s t = All-append (λ c. c ≢ b) s t

Lacks-disk_key : (s : Bytes) → Lacks b'/' s → Lacks b'/' (disk_key s)
Lacks-disk_key [] h = tt
Lacks-disk_key (c ∷ s) (h, hs) = ground (arith, Lacks-disk_key s hs)

Digits-Lacks : (s : Bytes) → Digits s → Lacks b'/' s
Digits-Lacks [] h = tt
Digits-Lacks (c ∷ s) (h, hs) = ground (arith, Digits-Lacks s hs)

Lacks-format : (n : ℕ) → Lacks b'/' (format n)
Lacks-format n =
    Digits-Lacks (format n) (parse_uint_sound n (format n) (parse_uint-format n n (omega arith))).1

-- The unique ID is the device's with a suffix that is no further level of a topic.
abbrev HasSuffix : Config → Sensor → Type 0
HasSuffix cfg s = (suffix : Bytes) × (s.unique_id ≡ cfg.device.id ++ suffix) × Lacks b'/' suffix

-- The name of a disk is no further level of a topic.
abbrev pub IsFlat : DiskConfig → Type 0
IsFlat d = Lacks b'/' d.name

fixed_sensors-HasSuffix : (cfg : Config) → All (HasSuffix cfg) (fixed_sensors cfg)
unfolding fixed_sensors
fixed_sensors-HasSuffix cfg = (
  at (codes "_cpu_temp") (ground arith),
  (
    at (codes "_cpu_watts") (ground arith),
    (
      at (codes "_cpu_usage_pct") (ground arith),
      (
        at (codes "_ram_used_pct") (ground arith),
        (
          at (codes "_ram_available_gb") (ground arith),
          (
            at (codes "_ram_total_gb") (ground arith),
            (
              at (codes "_load_avg_1") (ground arith),
              (
                at (codes "_load_avg_5") (ground arith),
                (
                  at (codes "_load_avg_15") (ground arith),
                  (at (codes "_uptime_seconds") (ground arith), tt),
                ),
              ),
            ),
          ),
        ),
      ),
    ),
  ),
)
  where
    at :
        (suffix : Bytes)
        → Lacks b'/' suffix
        → (t : Bytes) × (cfg.device.id ++ suffix ≡ cfg.device.id ++ t) × Lacks b'/' t
    at suffix h = (suffix, refl, h)

disk_sensors-HasSuffix :
    (cfg : Config) (disks : List DiskConfig)
    → All IsFlat disks
    → All (HasSuffix cfg) (disk_sensors cfg disks)
unfolding disk_sensors
disk_sensors-HasSuffix cfg [] h = tt
disk_sensors-HasSuffix cfg (d ∷ disks) (flat, h) = (
  field (codes "used_pct") (ground arith),
  (
    field (codes "used_gb") (ground arith),
    (
      field (codes "total_gb") (ground arith),
      (field (codes "free_gb") (ground arith), disk_sensors-HasSuffix cfg disks h),
    ),
  ),
)
  where
    field :
        (f : Bytes)
        → Lacks b'/' f
        → (suffix : Bytes) × (cfg.device.id ++ (codes "_disk_" ++ (disk_key d.name ++ (b'_' ∷ f)))
            ≡ cfg.device.id ++ suffix)
          × Lacks b'/' suffix
    field f g = (
      codes "_disk_" ++ (disk_key d.name ++ (b'_' ∷ f)),
      refl,
      Lacks-append b'/' (codes "_disk_") _ (ground arith) (
          Lacks-append b'/' (disk_key d.name) (b'_' ∷ f) (Lacks-disk_key d.name flat)
            (ground arith)),
    )

core_sensors-HasSuffix : (cfg : Config) (left i : ℕ) → All (HasSuffix cfg) (core_sensors cfg left i)
unfolding core_sensors
core_sensors-HasSuffix cfg zero i = tt
core_sensors-HasSuffix cfg (suc left) i = (
  (
    codes "_cpu_core_" ++ (format i ++ codes "_pct"),
    refl,
    Lacks-append b'/' (codes "_cpu_core_") _ (ground arith)
        (Lacks-append b'/' (format i) (codes "_pct") (Lacks-format i) (ground arith)),
  ),
  core_sensors-HasSuffix cfg left (i + 1),
)

-- The topic is a discovery topic of the device.
abbrev pub IsOwnTopic : Bytes → Bytes → Type 0
IsOwnTopic device_id t = (a : Address) × (t ≡ topic_of a) × IsAddress a × (a.node_id ≡ device_id)

module _ (cfg : Config) (level : IsLevel cfg.device.id) where
  sensor_topic-IsOwnTopic :
      (s : Sensor) → HasSuffix cfg s → IsOwnTopic cfg.device.id (sensor_topic cfg s)
  sensor_topic-IsOwnTopic s (suffix, e, lacks) = (
    record { component = codes "sensor"; node_id = cfg.device.id; object_id = s.unique_id },
    refl,
    record {
      component = (ground arith, ground arith);
      node_id = level;
      object_id = (
        λ empty. level.0 (append-ne-nil cfg.device.id suffix (sym e ∙ empty)),
        rw e (Lacks-append b'/' cfg.device.id suffix level.1 lacks),
      );
    },
    refl,
  )
    where
      append-ne-nil : (xs ys : Bytes) → xs ++ ys ≡ [] → xs ≡ []
      append-ne-nil [] ys h = refl
      append-ne-nil (x ∷ xs) ys h = cc

  sensor_topics-IsOwnTopic :
      (list : List Sensor)
      → All (HasSuffix cfg) list
      → All (IsOwnTopic cfg.device.id) (map (sensor_topic cfg) list)
  sensor_topics-IsOwnTopic [] h = tt
  sensor_topics-IsOwnTopic (s ∷ list) (h, hs) =
      (sensor_topic-IsOwnTopic s h, sensor_topics-IsOwnTopic list hs)

  update-IsOwnTopic :
      (object_id : Bytes)
      → IsLevel object_id
      → IsOwnTopic cfg.device.id (
          topic_of
            (record { component = codes "update"; node_id = cfg.device.id; object_id = object_id }))
  update-IsOwnTopic object_id l = (
    record { component = codes "update"; node_id = cfg.device.id; object_id = object_id },
    refl,
    record { component = (ground arith, ground arith); node_id = level; object_id = l },
    refl,
  )

  monitor-IsOwnTopic :
      (b : Bool) → All (IsOwnTopic cfg.device.id) (if b then monitor_topic cfg ∷ [] else [])
  monitor-IsOwnTopic true =
      (update-IsOwnTopic (codes "zimaos_monitor") (ground arith, ground arith), tt)
  monitor-IsOwnTopic false = tt

  -- For a device ID that is one level of a topic, and disk names without a slash, every desired
  -- topic is a discovery topic of the device, which the cleanup of this device recognizes.
  pub desired_topics-IsOwnTopic :
      (disks : List DiskConfig) (cores : ℕ)
      → All IsFlat disks
      → All (IsOwnTopic cfg.device.id) (desired_topics cfg (sensors cfg disks cores))
  unfolding sensors
  desired_topics-IsOwnTopic disks cores flat =
      All-append (IsOwnTopic cfg.device.id) (map (sensor_topic cfg) (sensors cfg disks cores)) _
        (sensor_topics-IsOwnTopic (sensors cfg disks cores) (
          All-append (HasSuffix cfg) (fixed_sensors cfg) _ (fixed_sensors-HasSuffix cfg) (
            All-append (HasSuffix cfg) (disk_sensors cfg disks) _
              (disk_sensors-HasSuffix cfg disks flat) (core_sensors-HasSuffix cfg cores 0))))
        (
          update-IsOwnTopic (codes "zimaos_version") (ground arith, ground arith),
          monitor-IsOwnTopic (is_enabled cfg.monitor_updates),
        )
