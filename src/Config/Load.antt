-- ===== src/Config/Load.antt =====
-- internal/config/config.go: `LoadWithIdentitySource` and `readDMI`.
pub mod Resolved
use zimaos_monitor.Base.{
  ◌*◌, Bool, true, false, not, ◌&&◌, ◌||◌, List, [], ◌∷◌, ◌++◌, Option, none, some, ◌==◌,
  if◌then◌else◌, Bytes, codes, str_eq,
}
use zimaos_monitor.Base.Int.{ℤ, pos, negsuc}
use zimaos_monitor.Text.{trim_space, is_empty, or_default}
use zimaos_monitor.Config.{
  Config, UpdatesConfig, IdentityProvenance, explicit, automatic, Warning, client_id_omitted,
  device_id_omitted, unsafe_device_id, legacy_client_id,
}
use zimaos_monitor.Config.Identity.{
  IdentitySource, IdentityError, Checked, valid, refused, canonical_machine_id, derive_client_id,
  derive_device_id, safe_discovery_device_id,
}

-- What opening and decoding the file give.
pub data ConfigFile : Type 0 where
  open_failed parse_failed : ConfigFile
  decoded : Config → ConfigFile

pub data LoadError : Type 0 where
  open_error parse_error : LoadError
  identity_error : IdentityError → LoadError

pub data Loaded : Type 0 where
  loaded : Config → Loaded
  not_loaded : LoadError → Loaded

-- `d` where the duration is zero.
abbrev pub nonzero_or : ℤ → ℤ → ℤ
nonzero_or d (pos n) = if n == 0 then d else pos n
nonzero_or d (negsuc n) = negsuc n

abbrev pub second : ℤ
second = pos 1_000_000_000

abbrev pub default_interval : ℤ
default_interval = pos (30 * 1_000_000_000)

abbrev pub default_check_interval : ℤ
default_check_interval = pos (6 * 3_600 * 1_000_000_000)

abbrev pub default_updates : UpdatesConfig → UpdatesConfig
default_updates u = record u {
  enabled = elim u.enabled [ none ↦ some true | some b ↦ some b ];
  check_interval = nonzero_or default_check_interval u.check_interval;
}

abbrev pub default_times : Config → Config
default_times cfg = record cfg {
  interval = nonzero_or default_interval cfg.interval;
  updates = default_updates cfg.updates;
  monitor_updates = default_updates cfg.monitor_updates;
}

abbrev provenance_of : Bytes → IdentityProvenance
provenance_of [] = automatic
provenance_of (c ∷ s) = explicit

abbrev pub set_provenance : Config → Config
set_provenance cfg = record cfg {
  identity = record cfg.identity {
    client_id_provenance = provenance_of cfg.mqtt.client_id;
    device_id_provenance = provenance_of cfg.device.id;
  };
}

abbrev pub warn : Warning → Config → Config
warn w cfg = record cfg {
  identity = record cfg.identity { warnings = cfg.identity.warnings ++ (w ∷ []) };
}

-- Values that name no hardware.
abbrev pub is_generic : Bytes → Bool
is_generic s =
    is_empty s
    || str_eq s (codes "Default string")
    || str_eq s (codes "Not Specified")
    || str_eq s (codes "To Be Filled By O.E.M.")
    || str_eq s (codes "None")
    || str_eq s (codes "System Serial Number")

-- `os.ReadFile`, where it is no error
module _ (read_file : Bytes → Option Bytes) where
  unfoldable pub read_dmi : List Bytes → Bytes
  read_dmi [] = []
  read_dmi (path ∷ paths) =
      let rest = read_dmi paths in
      elim (read_file path) [
        | none ↦ rest
        | some content ↦ let s = trim_space content in if is_generic s then rest else s
      ]

  abbrev model_files : List Bytes
  model_files = codes "/sys/class/dmi/id/product_name" ∷ codes "/sys/class/dmi/id/board_name" ∷ []

  abbrev serial_files : List Bytes
  serial_files =
      codes "/sys/class/dmi/id/product_serial" ∷ codes "/sys/class/dmi/id/board_serial" ∷ []

  abbrev hostname_of : Option IdentitySource → Bytes
  hostname_of none = []
  hostname_of (some source) = elim source.hostname [ none ↦ [] | some name ↦ name ]

  abbrev name_for : Bytes → Bytes
  name_for host =
      if not (is_empty host) && not (str_eq host (codes "localhost"))
      then codes "ZimaOS " ++ host
      else codes "ZimaOS Monitor"

  -- The defaults of the device
  abbrev pub describe_device : Option IdentitySource → Config → Config
  describe_device source cfg = record cfg {
    device = record cfg.device {
      name = or_default cfg.device.name (name_for (trim_space (hostname_of source)));
      manufacturer = or_default cfg.device.manufacturer (codes "Pocho Labs");
      model = or_default cfg.device.model (read_dmi model_files);
      serial_number = or_default cfg.device.serial_number (read_dmi serial_files);
    };
  }

-- The digest of a text in base32
module _ (digest_base32 : Bytes → Bytes) where
  abbrev pub resolve_client : Bytes → Config → Config
  resolve_client machine_id cfg =
      let client_id = derive_client_id digest_base32 machine_id in
      warn (client_id_omitted client_id)
        (record cfg { mqtt = record cfg.mqtt { client_id = client_id } })

  abbrev pub resolve_device : Bytes → Config → Config
  resolve_device machine_id cfg =
      let id = derive_device_id digest_base32 machine_id in
      warn (device_id_omitted id) (record cfg { device = record cfg.device { id = id } })

  -- By the two tests for an empty ID, from the machine ID
  abbrev pub resolve : Bool → Bool → Bytes → Config → Config
  resolve client_automatic device_automatic machine_id cfg =
      let cfg₁ = if client_automatic then resolve_client machine_id cfg else cfg in
      if device_automatic then resolve_device machine_id cfg₁ else cfg₁

  abbrev pub warn_explicit : Bool → Bool → Config → Config
  warn_explicit client_automatic device_automatic cfg =
      let cfg₁ =
        if not client_automatic && str_eq cfg.mqtt.client_id (codes "zimaos-monitor")
        then warn legacy_client_id cfg
        else cfg in
      if not device_automatic && not (safe_discovery_device_id cfg₁.device.id)
      then warn (unsafe_device_id cfg₁.device.id) cfg₁
      else cfg₁

  -- The machine ID is read only where one of the two IDs is automatic.
  unfoldable pub resolve_identity : Option IdentitySource → Config → Loaded
  resolve_identity source cfg =
      let client_automatic = is_empty cfg.mqtt.client_id in
      let device_automatic = is_empty cfg.device.id in
      if client_automatic || device_automatic
      then elim (canonical_machine_id source) [
        | refused e ↦ not_loaded (identity_error e)
        | valid machine_id ↦ loaded (
            warn_explicit client_automatic device_automatic
              (resolve client_automatic device_automatic machine_id (set_provenance cfg)))
      ]
      else loaded (warn_explicit client_automatic device_automatic (set_provenance cfg))

  abbrev describe : (Bytes → Option Bytes) → Option IdentitySource → Loaded → Loaded
  describe read_file source (loaded cfg) = loaded (describe_device read_file source cfg)
  describe read_file source (not_loaded e) = not_loaded e

  unfoldable pub load_with_identity_source :
      (Bytes → Option Bytes) → Option IdentitySource → ConfigFile → Loaded
  load_with_identity_source read_file source open_failed = not_loaded open_error
  load_with_identity_source read_file source parse_failed = not_loaded parse_error
  load_with_identity_source read_file source (decoded cfg) =
      describe read_file source (resolve_identity source (default_times cfg))
