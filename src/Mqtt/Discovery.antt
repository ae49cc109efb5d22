-- ===== src/Mqtt/Discovery.antt =====
-- internal/mqtt/autodiscovery.go: the records of `PublishDiscovery`. The JSON encoder is a parameter.
pub mod Publish
pub mod Count
pub mod Topics
pub mod Suffixes
pub mod Unique
pub mod States
use zimaos_monitor.Base.{
  ℕ, zero, suc, ◌+◌, Bool, List, [], ◌∷◌, ◌++◌, map, ◌==◌, if◌then◌else◌, Bytes, codes,
}
use zimaos_monitor.Text.{format, or_default}
use zimaos_monitor.Config.{Config, DiskConfig}
use zimaos_monitor.Mqtt.Cleanup.{origin_name}

-- `haOrigin`
pub record Origin : Type 0 where
  pub name : Bytes

-- `haDevice`
pub record Device : Type 0 where
  pub identifiers : List Bytes
  pub name : Bytes
  pub model : Bytes
  pub manufacturer : Bytes
  pub serial_number : Bytes
  pub sw_version : Bytes

-- `haDiscovery`
pub record Sensor : Type 0 where
  pub name : Bytes
  pub unique_id : Bytes
  pub state_topic : Bytes
  pub value_template : Bytes
  pub unit_of_measurement : Bytes
  pub device_class : Bytes
  pub state_class : Bytes
  pub icon : Bytes
  pub device : Device
  pub origin : Origin

-- `haUpdate`
pub record UpdateEntity : Type 0 where
  pub name : Bytes
  pub title : Bytes
  pub unique_id : Bytes
  pub state_topic : Bytes
  pub device_class : Bytes
  pub device : Device
  pub origin : Origin

abbrev pub zimaos_update_title : Bytes
zimaos_update_title = codes "ZimaOS Operating System"

abbrev pub monitor_update_title : Bytes
monitor_update_title = codes "zimaos-monitor"

abbrev pub origin : Origin
origin = record { name = origin_name }

abbrev pub device_of : Config → Device
device_of cfg = record {
  identifiers = cfg.device.id ∷ [];
  name = cfg.device.name;
  model = or_default cfg.device.model (codes "ZimaOS");
  manufacturer = cfg.device.manufacturer;
  serial_number = cfg.device.serial_number;
  sw_version = cfg.device.sw_version;
}

abbrev pub state_topic_of : Bytes → Bytes
state_topic_of device_id = device_id ++ codes "/state"

abbrev pub update_topic_of : Bytes → Bytes
update_topic_of device_id = device_id ++ codes "/update"

abbrev pub monitor_update_topic_of : Bytes → Bytes
monitor_update_topic_of device_id = device_id ++ codes "/monitor/update"

abbrev pub measurement : Bytes
measurement = codes "measurement"

-- "°C" in UTF-8
abbrev pub celsius : Bytes
celsius = 0xc2 ∷ 0xb0 ∷ codes "C"

-- A sensor by its name, what follows the device ID in its unique ID, its template, unit, device
-- class and icon; the rest is the same for all.
abbrev sensor_of : Config → Bytes → Bytes → Bytes → Bytes → Bytes → Bytes → Sensor
sensor_of cfg name suffix template unit class icon = record {
  name = name;
  unique_id = cfg.device.id ++ suffix;
  state_topic = state_topic_of cfg.device.id;
  value_template = template;
  unit_of_measurement = unit;
  device_class = class;
  state_class = measurement;
  icon = icon;
  device = device_of cfg;
  origin = origin;
}

abbrev uptime_discovery : Config → Sensor
uptime_discovery cfg =
    sensor_of cfg (codes "Uptime") (codes "_uptime_seconds")
      (codes "{{ value_json.uptime_seconds }}") (codes "s") (codes "duration") []

-- The literal list of sensors
pub fixed_sensors : Config → List Sensor
fixed_sensors cfg =
    sensor_of cfg (codes "CPU Temperature") (codes "_cpu_temp")
      (codes "{{ value_json.cpu_temp | round(1) }}") celsius (codes "temperature") []
    ∷ sensor_of cfg (codes "CPU Power") (codes "_cpu_watts")
        (codes "{{ value_json.cpu_watts | round(1) }}") (codes "W") (codes "power") []
    ∷ sensor_of cfg (codes "CPU Usage") (codes "_cpu_usage_pct")
        (codes "{{ value_json.cpu_usage_pct | round(1) }}") (codes "%") [] (codes "mdi:cpu-64-bit")
    ∷ sensor_of cfg (codes "RAM Used") (codes "_ram_used_pct")
        (codes "{{ value_json.ram_used_pct | round(1) }}") (codes "%") [] (codes "mdi:memory")
    ∷ sensor_of cfg (codes "RAM Available") (codes "_ram_available_gb")
        (codes "{{ value_json.ram_available_gb | round(2) }}") (codes "GB") [] (codes "mdi:memory")
    ∷ sensor_of cfg (codes "RAM Total") (codes "_ram_total_gb")
        (codes "{{ value_json.ram_total_gb | round(2) }}") (codes "GB") [] (codes "mdi:memory")
    ∷ sensor_of cfg (codes "Load Average 1m") (codes "_load_avg_1")
        (codes "{{ value_json.load_avg_1 | round(2) }}") [] [] (codes "mdi:gauge")
    ∷ sensor_of cfg (codes "Load Average 5m") (codes "_load_avg_5")
        (codes "{{ value_json.load_avg_5 | round(2) }}") [] [] (codes "mdi:gauge")
    ∷ sensor_of cfg (codes "Load Average 15m") (codes "_load_avg_15")
        (codes "{{ value_json.load_avg_15 | round(2) }}") [] [] (codes "mdi:gauge")
    ∷ uptime_discovery cfg
    ∷ []

-- `strings.ReplaceAll(name, " ", "_")`
abbrev pub disk_key : Bytes → Bytes
disk_key = map (λ c. if c == b' ' then b'_' else c)

abbrev pub disk_sensor : Config → DiskConfig → Bytes → Bytes → Bytes → Bytes → Sensor
disk_sensor cfg d label field rounding unit =
    sensor_of cfg (d.name ++ label) (codes "_disk_" ++ (disk_key d.name ++ (b'_' ∷ field)))
      (codes "{{ value_json.disks['" ++ (disk_key d.name ++ (codes "']." ++ (field ++ rounding))))
      unit [] (codes "mdi:harddisk")

-- The loop over the disks
unfoldable pub disk_sensors : Config → List DiskConfig → List Sensor
disk_sensors cfg [] = []
disk_sensors cfg (d ∷ disks) =
    disk_sensor cfg d (codes " Used %") (codes "used_pct") (codes " | round(1) }}") (codes "%")
    ∷ disk_sensor cfg d (codes " Used") (codes "used_gb") (codes " | round(2) }}") (codes "GB")
    ∷ disk_sensor cfg d (codes " Total") (codes "total_gb") (codes " | round(2) }}") (codes "GB")
    ∷ disk_sensor cfg d (codes " Free") (codes "free_gb") (codes " | round(2) }}") (codes "GB")
    ∷ disk_sensors cfg disks

abbrev core_sensor : Config → ℕ → Sensor
core_sensor cfg i =
    sensor_of cfg (codes "CPU Core " ++ (format i ++ codes " Usage"))
      (codes "_cpu_core_" ++ (format i ++ codes "_pct"))
      (codes "{{ value_json.cpu_core_pct[" ++ (format i ++ codes "] | round(1) }}")) (codes "%") []
      (codes "mdi:cpu-64-bit")

-- The loop over the cores: the rounds that are left, from core `i` on.
pub core_sensors : Config → ℕ → ℕ → List Sensor
core_sensors cfg zero i = []
core_sensors cfg (suc left) i = core_sensor cfg i ∷ core_sensors cfg left (i + 1)

unfoldable pub sensors : Config → List DiskConfig → ℕ → List Sensor
unfolding fixed_sensors disk_sensors core_sensors
sensors cfg disks num_cores =
    fixed_sensors cfg ++ (disk_sensors cfg disks ++ core_sensors cfg num_cores 0)

abbrev pub zimaos_update_discovery : Config → UpdateEntity
zimaos_update_discovery cfg = record {
  name = codes "ZimaOS Operating System Update";
  title = zimaos_update_title;
  unique_id = cfg.device.id ++ codes "_zimaos_update";
  state_topic = update_topic_of cfg.device.id;
  device_class = codes "firmware";
  device = device_of cfg;
  origin = origin;
}

abbrev pub monitor_update_discovery : Config → UpdateEntity
monitor_update_discovery cfg = record {
  name = codes "zimaos-monitor Update";
  title = monitor_update_title;
  unique_id = cfg.device.id ++ codes "_zimaos_monitor_update";
  state_topic = monitor_update_topic_of cfg.device.id;
  device_class = codes "firmware";
  device = device_of cfg;
  origin = origin;
}
