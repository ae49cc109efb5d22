-- ===== src/Collector/Disk/Discovered.antt =====
-- Which disks are found, and that each of them is measured.
use zimaos_monitor.Base.{
  ℕ, true, false, List, [], ◌∷◌, ◌++◌, Option, none, some, Bytes, bytes_discrete, codes, Bool-cases,
  Option-cases, ◌==◌, ==_iff, ◌≡◌, ◌↔◌, ◌⊎◌, inl, inr, refl, sym, ap, ◌∙◌, arith, In,
}
use zimaos_monitor.Text.{has_prefix, strip_prefix, strip_prefix-append}
use zimaos_monitor.Config.{DiskConfig}
use zimaos_monitor.SelfUpdate.Extract.{base}
use zimaos_monitor.Collector.Disk.{
  Usage, Partition, DiskStats, usable, volume_name, is_read_only, discover_disk, discover_onto,
  discover_disks, collect_disks,
}
use zimaos_monitor.Collector.Disk.Measured.{
  usable-Usable, Usable-usable, Measured, Measured-collect_disks,
}

-- The volumes that the user sees, and their names.
abbrev pub IsVolume : Bytes → Bytes → Type 0
IsVolume mountpoint name =
    (((rest : Bytes) × (mountpoint ≡ codes "/media/" ++ rest)) × (name ≡ base mountpoint))
    ⊎ ((mountpoint ≡ codes "/DATA") × (name ≡ codes "ZimaOS-HD"))

has_prefix_sound : (p s : Bytes) → has_prefix s p ≡ true → (rest : Bytes) × (s ≡ p ++ rest)
unfolding strip_prefix
has_prefix_sound [] s h = (s, refl)
has_prefix_sound (d ∷ p) [] h = cc
has_prefix_sound (d ∷ p) (c ∷ s) h = elim (Bool-cases (c == d)) [
  | inl e ↦
      let (rest, shape) = has_prefix_sound p s (rw e at h) in
      let same : c ≡ d = (==_iff c d).0 e in (rest, cc (shape, same))
  | inr e ↦ cc (rw e at h)
]

volume_name-internal : volume_name (codes "/DATA") ≡ some (codes "ZimaOS-HD")
unfolding volume_name strip_prefix bytes_discrete
volume_name-internal = refl

volume_name_iff :
    (mountpoint name : Bytes) → (volume_name mountpoint ≡ some name) ↔ IsVolume mountpoint name
unfolding volume_name
volume_name_iff mountpoint name = (sound, complete)
  where
    sound : volume_name mountpoint ≡ some name → IsVolume mountpoint name
    sound h = elim (Bool-cases (has_prefix mountpoint (codes "/media/"))) [
      | inl e ↦ inl (has_prefix_sound (codes "/media/") mountpoint e, cc (rw e at h))
      | inr e ↦ inr (ground (arith, rw e at h))
    ]

    complete : IsVolume mountpoint name → volume_name mountpoint ≡ some name
    complete (inl ((rest, e), n)) =
        let is_media : has_prefix mountpoint (codes "/media/") ≡ true =
          rw (e, strip_prefix-append (codes "/media/") rest) refl in
        rw is_media (ap some (sym n))
    complete (inr (e, n)) = rw e (volume_name-internal ∙ ap some (sym n))

is_read_only_iff : (opts : List Bytes) → (is_read_only opts ≡ true) ↔ In (codes "ro") opts
unfolding is_read_only
is_read_only_iff [] = ground arith
is_read_only_iff (o ∷ opts) = ground (arith, is_read_only_iff opts)

module _ {F : Type 0} (usage : Bytes → Option (Usage F)) where
  -- A volume of the user that is not mounted for reading only and has space.
  abbrev pub IsShown : Partition → DiskConfig → Type 0
  IsShown p d =
      (d.path ≡ p.mountpoint)
      × IsVolume p.mountpoint d.name
      × (¬ In (codes "ro") p.opts)
      × Measured usage d

  discover_disk_iff :
      (p : Partition) (d : DiskConfig) → (discover_disk usage p ≡ some d) ↔ IsShown p d
  unfolding discover_disk
  discover_disk_iff p d = (sound (Option-cases _) (Bool-cases _) (Option-cases _), complete)
    where
      sound :
          (volume_name p.mountpoint ≡ none) ⊎ ((n : Bytes) × (volume_name p.mountpoint ≡ some n))
          → (is_read_only p.opts ≡ true) ⊎ (is_read_only p.opts ≡ false)
          → (usable usage p.mountpoint ≡ none)
            ⊎ ((u : Usage F) × (usable usage p.mountpoint ≡ some u))
          → discover_disk usage p ≡ some d
          → IsShown p d
      sound (inl e) ro us h = cc (rw (e, discover_disk) at h)
      sound (inr (n, e)) (inl ro) us h = cc (rw (e, ro, discover_disk) at h)
      sound (inr (n, e)) (inr rw_) (inl us) h = cc (rw (e, rw_, us, discover_disk) at h)
      sound (inr (n, e)) (inr rw_) (inr (u, us)) h =
          let same : some (record { path = p.mountpoint; name = n }) ≡ some d =
            rw (e, rw_, us, discover_disk) at h in
          let same_path : d.path ≡ p.mountpoint = cc same in
          let same_name : n ≡ d.name = cc same in
          (
            same_path,
            rw same_name at ((volume_name_iff p.mountpoint n).0 e),
            λ i. cc (rw_, (is_read_only_iff p.opts).1 i),
            (u, rw same_path (usable-Usable usage p.mountpoint u us)),
          )

      complete : IsShown p d → discover_disk usage p ≡ some d
      complete (same_path, volume, writable, (u, good)) =
          let named = (volume_name_iff p.mountpoint d.name).1 volume in
          let not_ro : is_read_only p.opts ≡ false = elim (Bool-cases (is_read_only p.opts)) [
            | inl ro ↦ absurd (writable ((is_read_only_iff p.opts).0 ro))
            | inr e ↦ e
          ] in
          let seen = Usable-usable usage d.path u good in
          rw (named, not_ro, rw same_path at seen, discover_disk)
            (ap (λ path. some (record { path = path; name = d.name })) (sym same_path))

  discover_onto_iff :
      (partitions : List Partition) (d : DiskConfig)
      → In d (discover_onto usage partitions) ↔ ((p : Partition) × In p partitions × IsShown p d)
  unfolding discover_onto
  discover_onto_iff [] d = (λ i. absurd i, λ (_, i, _). absurd i)
  discover_onto_iff (p ∷ partitions) d = elim (Option-cases (discover_disk usage p)) [
    | inl e ↦
        rw (e, discover_onto)
          (
            λ i. let (q, j, h) = (discover_onto_iff partitions d).0 i in (q, inr j, h),
            λ (q, i, h). elim i [
              | inl same ↦ cc (e, (discover_disk_iff p d).1 (rw same at h))
              | inr j ↦ (discover_onto_iff partitions d).1 (q, j, h)
            ],
          )
    | inr (c, e) ↦
        rw (e, discover_onto)
          (
            λ i. elim i [
              | inl same ↦ (p, inl refl, (discover_disk_iff p d).0 (cc (e, same)))
              | inr j ↦ let (q, k, h) = (discover_onto_iff partitions d).0 j in (q, inr k, h)
            ],
            λ (q, i, h). elim i [
              | inl same ↦
                  inl (let found = (discover_disk_iff p d).1 (rw same at h) in cc (e, found))
              | inr j ↦ inr ((discover_onto_iff partitions d).1 (q, j, h))
            ],
          )
  ]

  -- A disk is found exactly if it is a partition mounted below /media/, under the last part of its
  -- mount point, or at /DATA, as ZimaOS-HD, which is not mounted for reading only, whose usage can be
  -- read and which has space at all.
  pub discover_disks_iff :
      (partitions : List Partition) (d : DiskConfig)
      → In d (discover_disks usage (some partitions))
        ↔ ((p : Partition) × In p partitions × IsShown p d)
  unfolding discover_disks
  discover_disks_iff = discover_onto_iff

  -- Each disk that is found is in the state, under its name, as long as the usage stays what it is.
  pub discover_disks-collect_disks :
      (gigabytes : ℕ → F) (partitions : List Partition) (d : DiskConfig)
      → In d (discover_disks usage (some partitions))
      → (s : DiskStats F) × (collect_disks usage gigabytes
            (discover_disks usage (some partitions))
            d.name
          ≡ some s)
  discover_disks-collect_disks gigabytes partitions d i =
      let (p, _, (_, _, _, m)) = (discover_disks_iff partitions d).0 i in
      Measured-collect_disks usage gigabytes (discover_disks usage (some partitions)) d i m
