-- ===== src/Config/Load/Resolved.antt =====
-- Which identities and intervals a loaded configuration has, and when loading fails.
use zimaos_monitor.Base.{◌≡◌, ◌≢◌, ◌↔◌, ◌⊎◌, inl, inr, refl, arith, [], Option, none, Bytes}
use zimaos_monitor.Base.Int.{pos}
use zimaos_monitor.Config.{Config, IdentityProvenance, explicit, automatic}
use zimaos_monitor.Config.Identity.{
  IdentitySource, IdentityError, Checked, valid, refused, canonical_machine_id, derive_client_id,
  derive_device_id,
}
use zimaos_monitor.Config.Load.{
  decoded, Loaded, loaded, not_loaded, identity_error, default_times, resolve_identity,
  load_with_identity_source, describe_device, describe,
}

-- The ID is the one that is given, or derived from the machine ID where none is.
abbrev pub IsSettled :
    Option IdentitySource → (Bytes → Bytes) → Bytes → Bytes → IdentityProvenance → Type 0
IsSettled source derive given id provenance =
    ((given ≢ []) × (id ≡ given) × (provenance ≡ explicit))
    ⊎ ((given ≡ [])
        × (provenance ≡ automatic)
        × (machine_id : Bytes) × (canonical_machine_id source ≡ valid machine_id)
        × (id ≡ derive machine_id))

module _ (digest_base32 : Bytes → Bytes) (source : Option IdentitySource) where
  -- What holds of a loaded configuration, from the decoded one.
  pub record IsLoaded (raw cfg : Config) : Type 0 where
    pub client :
        IsSettled source
          (derive_client_id digest_base32)
          raw.mqtt.client_id
          cfg.mqtt.client_id
          cfg.identity.client_id_provenance
    pub device :
        IsSettled source
          (derive_device_id digest_base32)
          raw.device.id
          cfg.device.id
          cfg.identity.device_id_provenance
    pub broker : cfg.mqtt.broker ≡ raw.mqtt.broker
    pub disks : cfg.disks ≡ raw.disks
    pub interval : (cfg.interval ≢ pos 0) × ((raw.interval ≢ pos 0) → cfg.interval ≡ raw.interval)
    pub check_intervals :
        (cfg.updates.check_interval ≢ pos 0) × (cfg.monitor_updates.check_interval ≢ pos 0)
    pub enabled : (cfg.updates.enabled ≢ none) × (cfg.monitor_updates.enabled ≢ none)
    pub described : (cfg.device.name ≢ []) × (cfg.device.manufacturer ≢ [])

  -- What neither the identity nor the description of the device changes.
  kept :
      (raw cfg : Config)
      → resolve_identity digest_base32 source raw ≡ loaded cfg
      → (cfg.mqtt.broker ≡ raw.mqtt.broker)
        × (cfg.disks ≡ raw.disks)
        × (cfg.interval ≡ raw.interval)
        × (cfg.updates ≡ raw.updates)
        × (cfg.monitor_updates ≡ raw.monitor_updates)
  unfolding resolve_identity
  kept raw cfg h = ground arith

  -- `IsSettled`, with the machine ID that was found.
  abbrev SettledBy : (Bytes → Bytes) → Bytes → Bytes → Bytes → IdentityProvenance → Type 0
  SettledBy derive machine_id given id provenance =
      ((given ≢ []) × (id ≡ given) × (provenance ≡ explicit))
      ⊎ ((given ≡ []) × (provenance ≡ automatic) × (id ≡ derive machine_id))

  settled :
      (derive : Bytes → Bytes) (machine_id given id : Bytes) (provenance : IdentityProvenance)
      → canonical_machine_id source ≡ valid machine_id
      → SettledBy derive machine_id given id provenance
      → IsSettled source derive given id provenance
  settled derive machine_id given id provenance e (inl x) = inl x
  settled derive machine_id given id provenance e (inr (a, b, c)) = inr (a, b, machine_id, e, c)

  settled_client :
      (raw cfg : Config)
      → resolve_identity digest_base32 source raw ≡ loaded cfg
      → IsSettled source
          (derive_client_id digest_base32)
          raw.mqtt.client_id
          cfg.mqtt.client_id
          cfg.identity.client_id_provenance
  unfolding resolve_identity
  settled_client raw cfg h = go (canonical_machine_id source) refl
    where
      go :
          (r : Checked)
          → canonical_machine_id source ≡ r
          → IsSettled source
              (derive_client_id digest_base32)
              raw.mqtt.client_id
              cfg.mqtt.client_id
              cfg.identity.client_id_provenance
      go (valid machine_id) e =
          settled (derive_client_id digest_base32) machine_id _ _ _ e (ground arith)
      go (refused x) e = inl (ground arith)

  settled_device :
      (raw cfg : Config)
      → resolve_identity digest_base32 source raw ≡ loaded cfg
      → IsSettled source
          (derive_device_id digest_base32)
          raw.device.id
          cfg.device.id
          cfg.identity.device_id_provenance
  unfolding resolve_identity
  settled_device raw cfg h = go (canonical_machine_id source) refl
    where
      go :
          (r : Checked)
          → canonical_machine_id source ≡ r
          → IsSettled source
              (derive_device_id digest_base32)
              raw.device.id
              cfg.device.id
              cfg.identity.device_id_provenance
      go (valid machine_id) e =
          settled (derive_device_id digest_base32) machine_id _ _ _ e (ground arith)
      go (refused x) e = inl (ground arith)

  resolved :
      (raw cfg : Config)
      → resolve_identity digest_base32 source (default_times raw) ≡ loaded cfg
      → (read_file : Bytes → Option Bytes) → IsLoaded raw (describe_device read_file source cfg)
  resolved raw cfg h read_file =
      let (broker, disks, interval, updates, monitor) = kept (default_times raw) cfg h in
      record {
        client = settled_client (default_times raw) cfg h;
        device = settled_device (default_times raw) cfg h;
        broker = broker;
        disks = disks;
        interval = ground arith;
        check_intervals = ground arith;
        enabled = ground arith;
        described = ground arith;
      }

-- A configuration that is loaded has the IDs that the file gives; one that the file does not give
-- is derived from the machine ID, which is then valid. The provenance says which. Its broker and
-- its disks are the file's, no interval is zero and one that the file gives is kept, both update
-- switches are set, and the device has a name and a manufacturer.
pub load_with_identity_source-eq-loaded :
    (digest_base32 : Bytes → Bytes) (read_file : Bytes → Option Bytes)
    (source : Option IdentitySource) (raw cfg : Config)
    → load_with_identity_source digest_base32 read_file source (decoded raw) ≡ loaded cfg
    → IsLoaded digest_base32 source raw cfg
unfolding load_with_identity_source
load_with_identity_source-eq-loaded digest_base32 read_file source raw cfg h =
    go (resolve_identity digest_base32 source (default_times raw)) refl h
  where
    go :
        (r : Loaded)
        → resolve_identity digest_base32 source (default_times raw) ≡ r
        → describe digest_base32 read_file source r ≡ loaded cfg
        → IsLoaded digest_base32 source raw cfg
    go (loaded x) e h =
        let same : describe_device read_file source x ≡ cfg = cc in
        rw same at (resolved digest_base32 source raw x e read_file)
    go (not_loaded x) e h = cc

-- Loading fails for want of an identity exactly if the file leaves out an ID and there is no valid
-- machine ID; a file that gives both loads on any machine.
pub load_with_identity_source-refused_iff :
    (digest_base32 : Bytes → Bytes) (read_file : Bytes → Option Bytes)
    (source : Option IdentitySource) (raw : Config) (e : IdentityError)
    → (load_with_identity_source digest_base32 read_file source (decoded raw)
        ≡ not_loaded (identity_error e))
      ↔ (((raw.mqtt.client_id ≡ []) ⊎ (raw.device.id ≡ []))
          × (canonical_machine_id source ≡ refused e))
unfolding load_with_identity_source resolve_identity
load_with_identity_source-refused_iff digest_base32 read_file source raw e = ground arith
