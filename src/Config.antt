-- ===== src/Config.antt =====
-- internal/config: the configuration's data, the machine's identity, and the defaults of `Load`.
pub mod Identity
pub mod Load
use zimaos_monitor.Base.{Bool, true, List, Option, none, some, Bytes}
use zimaos_monitor.Base.Int.{ℤ}

pub record DiskConfig : Type 0 where
  pub path : Bytes
  pub name : Bytes

pub record MqttConfig : Type 0 where
  pub broker : Bytes
  pub username : Bytes
  pub password : Bytes
  pub client_id : Bytes

pub record DeviceConfig : Type 0 where
  pub name : Bytes
  pub id : Bytes
  pub model : Bytes
  pub manufacturer : Bytes
  pub serial_number : Bytes
  pub sw_version : Bytes

-- `Enabled *bool`: none is nil.
pub record UpdatesConfig : Type 0 where
  pub enabled : Option Bool
  pub check_interval : ℤ

pub data IdentityProvenance : Type 0 where
  unset explicit automatic : IdentityProvenance

-- The warnings of `Load`, each with the text that it quotes.
pub data Warning : Type 0 where
  client_id_omitted device_id_omitted unsafe_device_id : Bytes → Warning
  legacy_client_id : Warning

pub record IdentityStatus : Type 0 where
  pub client_id_provenance : IdentityProvenance
  pub device_id_provenance : IdentityProvenance
  pub warnings : List Warning

-- `MonitorUpdatesConfig` has the fields of `UpdatesConfig`.
pub record Config : Type 0 where
  pub mqtt : MqttConfig
  pub device : DeviceConfig
  pub interval : ℤ
  pub disks : List DiskConfig
  pub updates : UpdatesConfig
  pub monitor_updates : UpdatesConfig
  pub identity : IdentityStatus

-- `u.Enabled == nil || *u.Enabled`
abbrev pub is_enabled : UpdatesConfig → Bool
is_enabled u = elim u.enabled [ none ↦ true | some b ↦ b ]
