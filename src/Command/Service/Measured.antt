-- ===== src/Command/Service/Measured.antt =====
-- What the published metrics have of the round that they were collected in.
use zimaos_monitor.Base.{List, Bytes, In, ◌≡◌, refl}
use zimaos_monitor.Collector.Cpu.{CpuCollector, collect_cpu}
use zimaos_monitor.Collector.Memory.{collect_memory}
use zimaos_monitor.Collector.Disk.{collect_disks}
use zimaos_monitor.Command.Info.{Metrics}
use zimaos_monitor.Command.Service.{Settings, Codecs, Moment, State, load_or_zero, metrics_of}

module _ {F : Type 0} (codecs : Codecs F) (settings : Settings) where
  -- Each of the metrics is what one of these rounds met: the CPU from a collector, the load, the
  -- uptime, the memory and the disks.
  pub record IsMeasured (met : List (Moment F)) (metrics : Metrics F) : Type 0 where
    pub moment : Moment F
    pub is_met : In moment met
    pub collector : CpuCollector
    pub cpu_temp : metrics.cpu_temp ≡ (collect_cpu codecs.floats collector moment.sample).0.temp_c
    pub cpu_watts : metrics.cpu_watts ≡ (collect_cpu codecs.floats collector moment.sample).0.watts
    pub cpu_usage :
        metrics.cpu_usage_pct ≡ (collect_cpu codecs.floats collector moment.sample).0.usage_pct
    pub cpu_cores :
        metrics.cpu_core_pct ≡ (collect_cpu codecs.floats collector moment.sample).0.core_pcts
    pub load_1 : metrics.load_avg_1 ≡ (load_or_zero codecs settings moment.load).0
    pub load_5 : metrics.load_avg_5 ≡ (load_or_zero codecs settings moment.load).1
    pub load_15 : metrics.load_avg_15 ≡ (load_or_zero codecs settings moment.load).2
    pub uptime : metrics.uptime_seconds ≡ moment.uptime
    pub ram_used :
        metrics.ram_used_pct
        ≡ (collect_memory codecs.floats.zero_float codecs.gigabytes moment.memory).used_pct
    pub ram_available :
        metrics.ram_available_gb
        ≡ (collect_memory codecs.floats.zero_float codecs.gigabytes moment.memory).available_gb
    pub ram_total :
        metrics.ram_total_gb
        ≡ (collect_memory codecs.floats.zero_float codecs.gigabytes moment.memory).total_gb
    pub disks :
        (name : Bytes)
        → metrics.disks name ≡ collect_disks moment.usage codecs.gigabytes settings.cfg.disks name

  -- The releases that the checkers show are no measurements.
  pub metrics_of-IsMeasured :
      (met : List (Moment F)) (m : Moment F) (zimaos monitor : Bytes × Bytes) (st : State)
      → In m met
      → IsMeasured met (
          metrics_of codecs settings
            (record m { zimaos_release = zimaos; monitor_release = monitor })
            st)
  unfolding metrics_of
  metrics_of-IsMeasured met m zimaos monitor st h = record {
    moment = m;
    is_met = h;
    collector = st.cpu;
    cpu_temp = refl;
    cpu_watts = refl;
    cpu_usage = refl;
    cpu_cores = refl;
    load_1 = refl;
    load_5 = refl;
    load_15 = refl;
    uptime = refl;
    ram_used = refl;
    ram_available = refl;
    ram_total = refl;
    disks = λ name. refl;
  }
