-- ===== src/Tests/Identity.antt =====
-- Machine IDs and loaded configurations.
use zimaos_monitor.Base.{◌≡◌, ◌↔◌, ◌⊎◌, [], none, some, Bytes, codes, refl}
use zimaos_monitor.Base.Int.{pos}
use zimaos_monitor.Config.{Config, UpdatesConfig, unset}
use zimaos_monitor.Config.Identity.{IdentitySource, no_source, valid, refused, canonical_machine_id}
use zimaos_monitor.Config.Identity.MachineId.{Found, canonical_machine_id_iff}
use zimaos_monitor.Config.Load.{
  Loaded, loaded, not_loaded, identity_error, decoded, load_with_identity_source, resolve_identity,
}
use zimaos_monitor.Config.Load.Resolved.{
  IsLoaded, load_with_identity_source-eq-loaded, load_with_identity_source-refused_iff,
}

abbrev machine_id : Bytes
machine_id = codes "0123456789abcdef0123456789abcdef"

abbrev source : IdentitySource
source = record {
  hostname = none;
  read_file = λ _. some (codes " 0123456789ABCDEF0123456789abcdef\n");
}

canonical_machine_id_iff_example :
    (canonical_machine_id (some source) ≡ valid machine_id) ↔ Found source machine_id
canonical_machine_id_iff_example = canonical_machine_id_iff source machine_id

abbrev updates : UpdatesConfig
updates = record { enabled = none; check_interval = pos 0 }

abbrev raw : Config
raw = record {
  mqtt = record {
    broker = codes "tcp://b:1883";
    username = [];
    password = [];
    client_id = codes "c";
  };
  device = record {
    name = [];
    id = codes "d";
    model = codes "m";
    manufacturer = [];
    serial_number = codes "s";
    sw_version = [];
  };
  interval = pos 0;
  disks = [];
  updates = updates;
  monitor_updates = updates;
  identity = record { client_id_provenance = unset; device_id_provenance = unset; warnings = [] };
}

config_of : Loaded → Config
config_of (loaded cfg) = cfg
config_of (not_loaded e) = raw

abbrev result : Loaded
result = load_with_identity_source (λ s. s) (λ _. none) none (decoded raw)

load_run : result ≡ loaded (config_of result)
unfolding load_with_identity_source resolve_identity config_of
load_run = refl

load_with_identity_source-eq-loaded_example : IsLoaded (λ s. s) none raw (config_of result)
load_with_identity_source-eq-loaded_example =
    load_with_identity_source-eq-loaded (λ s. s) (λ _. none) none raw (config_of result) load_run

load_with_identity_source-refused_iff_example :
    (load_with_identity_source (λ s. s) (λ _. none) none (decoded raw)
      ≡ not_loaded (identity_error no_source))
    ↔ (((raw.mqtt.client_id ≡ []) ⊎ (raw.device.id ≡ []))
        × (canonical_machine_id none ≡ refused no_source))
load_with_identity_source-refused_iff_example =
    load_with_identity_source-refused_iff (λ s. s) (λ _. none) none raw no_source
