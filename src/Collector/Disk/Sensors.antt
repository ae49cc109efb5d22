-- ===== src/Collector/Disk/Sensors.antt =====
-- The keys that the templates of the disk sensors read, and the keys of the state.
use zimaos_monitor.Base.{
  ℕ, List, [], ◌∷◌, ◌++◌, Option, some, Bytes, codes, ◌≡◌, ◌↔◌, inl, inr, refl, sym, ap, arith, In,
  In-append-right,
}
use zimaos_monitor.Text.{Lacks}
use zimaos_monitor.Config.{Config, DiskConfig}
use zimaos_monitor.Mqtt.Discovery.{Sensor, disk_key, disk_sensors}
use zimaos_monitor.Collector.Disk.{Usage, DiskStats, collect_disks}
use zimaos_monitor.Collector.Disk.Measured.{Measured, collect_disks_lem, Measured-collect_disks}

disk_key-Lacks : (name : Bytes) → Lacks b' ' (disk_key name)
disk_key-Lacks [] = tt
disk_key-Lacks (c ∷ name) = (ground arith, disk_key-Lacks name)

disk_key-eq_self : (name : Bytes) → Lacks b' ' name → disk_key name ≡ name
disk_key-eq_self [] h = refl
disk_key-eq_self (c ∷ name) (h, hs) = ground (arith, h, disk_key-eq_self name hs)

-- The template reads a field of the entry of the state with this key.
abbrev pub Reads : Sensor → Bytes → Type 0
Reads s key =
    (field : Bytes) × (s.value_template
      ≡ codes "{{ value_json.disks['" ++ (key ++ (codes "']." ++ field)))

disk_sensors-Reads :
    (cfg : Config) (disks : List DiskConfig) (s : Sensor)
    → In s (disk_sensors cfg disks)
    → (d : DiskConfig) × In d disks × Reads s (disk_key d.name)
unfolding disk_sensors
disk_sensors-Reads cfg [] s i = absurd i
disk_sensors-Reads cfg (d ∷ disks) s (inl e) =
    (d, inl refl, (_, ap (λ (x : Sensor). x.value_template) e))
disk_sensors-Reads cfg (d ∷ disks) s (inr (inl e)) =
    (d, inl refl, (_, ap (λ (x : Sensor). x.value_template) e))
disk_sensors-Reads cfg (d ∷ disks) s (inr (inr (inl e))) =
    (d, inl refl, (_, ap (λ (x : Sensor). x.value_template) e))
disk_sensors-Reads cfg (d ∷ disks) s (inr (inr (inr (inl e)))) =
    (d, inl refl, (_, ap (λ (x : Sensor). x.value_template) e))
disk_sensors-Reads cfg (d ∷ disks) s (inr (inr (inr (inr i)))) =
    let (e, j, r) = disk_sensors-Reads cfg disks s i in (e, inr j, r)

-- Each disk sensor reads the entry of the state whose key is the name of a disk of the list with
-- `_` for each blank. That entry is there exactly if a disk of the list that can be measured has this
-- key as its name; the key is the disk's own name exactly if the name has no blank.
pub disk_sensors_lem :
    {F : Type 0} (usage : Bytes → Option (Usage F)) (gigabytes : ℕ → F) (cfg : Config)
    (disks : List DiskConfig) (s : Sensor)
    → In s (disk_sensors cfg disks)
    → (d : DiskConfig) × In d disks
      × Reads s (disk_key d.name)
      × (((entry : DiskStats F) × (collect_disks usage gigabytes disks (disk_key d.name)
              ≡ some entry))
          ↔ ((e : DiskConfig) × In e disks × Measured usage e × (e.name ≡ disk_key d.name)))
      × ((disk_key d.name ≡ d.name) ↔ Lacks b' ' d.name)
disk_sensors_lem {F} usage gigabytes cfg disks s i =
    let (d, j, r) = disk_sensors-Reads cfg disks s i in
    (
      d,
      j,
      r,
      (
        λ (entry, there). elim (collect_disks_lem usage gigabytes disks (disk_key d.name)) [
          | inl (_, (before, e, after, u, shape, named, good, _, _), _) ↦
              (e, rw shape (In-append-right e before (e ∷ after) (inl refl)), (u, good), sym named)
          | inr (_, gone) ↦ cc (gone, there)
        ],
        λ (e, k, m, named).
            let (entry, there) = Measured-collect_disks usage gigabytes disks e k m in
            (entry, rw named at there),
      ),
      (λ same. rw same at (disk_key-Lacks d.name), disk_key-eq_self d.name),
    )
