-- ===== src/Command/Info.antt =====
-- cmd/zimaos-monitor/main.go: what the service publishes beside the discovery records.
use zimaos_monitor.Base.{ℕ, List, Option, Bytes}
use zimaos_monitor.Mqtt.Discovery.{zimaos_update_title, monitor_update_title}
use zimaos_monitor.Collector.Disk.{DiskStats}

pub record ZimaosInfo : Type 0 where
  pub installed_version : Bytes
  pub latest_version : Bytes
  pub release_url : Bytes
  pub title : Bytes

pub record MonitorUpdateInfo : Type 0 where
  pub installed_version : Bytes
  pub latest_version : Bytes
  pub release_url : Bytes
  pub title : Bytes

abbrev pub new_zimaos_update_info : Bytes → Bytes → Bytes → ZimaosInfo
new_zimaos_update_info installed latest url = record {
  installed_version = installed;
  latest_version = latest;
  release_url = url;
  title = zimaos_update_title;
}

abbrev pub new_monitor_update_info : Bytes → Bytes → Bytes → MonitorUpdateInfo
new_monitor_update_info installed latest url = record {
  installed_version = installed;
  latest_version = latest;
  release_url = url;
  title = monitor_update_title;
}

-- `metrics`, over the type of float64; the disks are a function from their names.
pub record Metrics (F : Type 0) : Type 0 where
  pub cpu_temp : F
  pub cpu_watts : F
  pub cpu_usage_pct : F
  pub cpu_core_pct : List F
  pub load_avg_1 : F
  pub load_avg_5 : F
  pub load_avg_15 : F
  pub uptime_seconds : ℕ
  pub ram_used_pct : F
  pub ram_available_gb : F
  pub ram_total_gb : F
  pub disks : Bytes → Option (DiskStats F)
  pub zimaos : ZimaosInfo
