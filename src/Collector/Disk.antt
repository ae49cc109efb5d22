-- ===== src/Collector/Disk.antt =====
-- internal/collector/disk.go. The file systems are parameters: the partitions, and the usage of a
-- mount point; so are the type `F` of float64 and `gigabytes n`, which is `float64(n) / 1e9`.
pub mod Measured
pub mod Discovered
pub mod Sensors
use zimaos_monitor.Base.{
  ℕ, Bool, true, false, ◌||◌, List, [], ◌∷◌, Option, none, some, ◌==◌, if◌then◌else◌, Bytes, codes,
  str_eq,
}
use zimaos_monitor.Text.{has_prefix}
use zimaos_monitor.Config.{DiskConfig}
use zimaos_monitor.SelfUpdate.Extract.{base}

-- `disk.UsageStat`
pub record Usage (F : Type 0) : Type 0 where
  pub total : ℕ
  pub used : ℕ
  pub free : ℕ
  pub used_percent : F

-- `disk.PartitionStat`
pub record Partition : Type 0 where
  pub mountpoint : Bytes
  pub opts : List Bytes

pub record DiskStats (F : Type 0) : Type 0 where
  pub path : Bytes
  pub used_pct : F
  pub used_gb : F
  pub total_gb : F
  pub free_gb : F

-- The `switch` on the mount point
unfoldable pub volume_name : Bytes → Option Bytes
volume_name mountpoint =
    if has_prefix mountpoint (codes "/media/")
    then some (base mountpoint)
    else if str_eq mountpoint (codes "/DATA")
    then some (codes "ZimaOS-HD")
    else none

unfoldable pub is_read_only : List Bytes → Bool
is_read_only [] = false
is_read_only (opt ∷ opts) = str_eq opt (codes "ro") || is_read_only opts

module _ {F : Type 0} (usage : Bytes → Option (Usage F)) where
  -- The usage of a path, where it can be read and there is space at all.
  unfoldable pub usable : Bytes → Option (Usage F)
  usable path = elim (usage path) [ none ↦ none | some u ↦ if u.total == 0 then none else some u ]

  module _ (gigabytes : ℕ → F) where
    abbrev pub stats_of : Bytes → Usage F → DiskStats F
    stats_of path u = record {
      path = path;
      used_pct = u.used_percent;
      used_gb = gigabytes u.used;
      total_gb = gigabytes u.total;
      free_gb = gigabytes u.free;
    }

    -- The loop of `CollectDisks`; the map is the function from keys to values.
    unfoldable pub collect_onto :
        List DiskConfig → (Bytes → Option (DiskStats F)) → Bytes → Option (DiskStats F)
    unfolding usable
    collect_onto [] result = result
    collect_onto (d ∷ disks) result = elim (usable d.path) [
      | none ↦ collect_onto disks result
      | some u ↦
          collect_onto disks
            λ key. if str_eq key d.name then some (stats_of d.path u) else result key
    ]

    unfoldable pub collect_disks : List DiskConfig → Bytes → Option (DiskStats F)
    unfolding collect_onto
    collect_disks disks = collect_onto disks (λ _. none)

  -- One round of the loop of `DiscoverDisks`
  unfoldable pub discover_disk : Partition → Option DiskConfig
  unfolding volume_name is_read_only usable
  discover_disk p = elim (volume_name p.mountpoint) [
    | none ↦ none
    | some name ↦ if is_read_only p.opts then none else elim (usable p.mountpoint) [
      | none ↦ none
      | some u ↦ some (record { path = p.mountpoint; name = name })
    ]
  ]

  unfoldable pub discover_onto : List Partition → List DiskConfig
  unfolding discover_disk
  discover_onto [] = []
  discover_onto (p ∷ partitions) =
      let rest = discover_onto partitions in
      elim (discover_disk p) [ none ↦ rest | some d ↦ d ∷ rest ]

  -- None where the partitions cannot be read.
  unfoldable pub discover_disks : Option (List Partition) → List DiskConfig
  unfolding discover_onto
  discover_disks none = []
  discover_disks (some partitions) = discover_onto partitions
