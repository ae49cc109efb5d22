-- ===== src/Command/Service.antt =====
-- cmd/zimaos-monitor/main.go: the rounds of the service. What a round meets (the sensors, the
-- latest releases that the two checkers show, the broker) is a parameter of the round, `json.Marshal`
-- and the arithmetic of float64 are parameters of all. Log lines are not modelled.
pub mod Steps
pub mod Outputs
pub mod Measured
pub mod Rounds
pub mod DryRun
pub mod Topics
pub mod Advertises
use zimaos_monitor.Base.{
  ℕ, ◌+◌, Bool, true, false, not, ◌&&◌, List, [], ◌∷◌, Option, none, some, leb, if◌then◌else◌,
  Bytes,
}
use zimaos_monitor.Config.{Config, is_enabled}
use zimaos_monitor.Mqtt.Client.{Retained, Broker, publish}
use zimaos_monitor.Mqtt.Cleanup.{Probe}
use zimaos_monitor.Mqtt.Discovery.{state_topic_of, update_topic_of, monitor_update_topic_of}
use zimaos_monitor.Mqtt.Discovery.Publish.{Encoder, DiscoveryError, publish_discovery}
use zimaos_monitor.Collector.Cpu.{CpuCollector, Floats, Sample, collect_cpu}
use zimaos_monitor.Collector.Memory.{VirtualMemory, collect_memory}
use zimaos_monitor.Collector.Disk.{Usage, collect_disks}
use zimaos_monitor.Command.Info.{
  ZimaosInfo, MonitorUpdateInfo, new_zimaos_update_info, new_monitor_update_info, Metrics,
}

-- What `main` fixes before the first round. A checker runs if its section of the configuration is
-- enabled.
pub record Settings : Type 0 where
  pub cfg : Config
  pub num_cores : ℕ
  pub dry_run : Bool
  pub zimaos_version : Bytes
  pub version : Bytes

-- The parameters: `gigabytes n` is `float64(n) / 1e9`, and none of an encoder is an error.
pub record Codecs (F : Type 0) : Type 0 where
  pub floats : Floats F
  pub gigabytes : ℕ → F
  pub encode_metrics : Metrics F → Option Bytes
  pub encode_zimaos : ZimaosInfo → Option Bytes
  pub encode_monitor : MonitorUpdateInfo → Option Bytes
  pub encoder : Encoder
  pub decode_probe : Bytes → Option Probe

-- What a round meets. The load is none on an error, the uptime what is returned beside an error; a
-- release is a version and a URL.
pub record Moment (F : Type 0) : Type 0 where
  pub sample : Sample F
  pub memory : Option (VirtualMemory F)
  pub load : Option (F × F × F)
  pub uptime : ℕ
  pub usage : Bytes → Option (Usage F)
  pub zimaos_release : Bytes × Bytes
  pub monitor_release : Bytes × Bytes
  pub broker : Broker

-- What the service does: it prints a payload, a message of it is taken, or it has published the
-- discovery records, with the error if there is one.
pub data Output : Type 0 where
  printed : Bytes → Output
  sent : Bytes → Bytes → Output
  announced : Option DiscoveryError → Output

-- `outputs` has the last one first.
pub record State : Type 0 where
  pub cpu : CpuCollector
  pub counter : ℕ
  pub retained : Retained
  pub outputs : List Output

-- `client.Publish` of a message that is not to be retained
unfoldable pub send : Broker → Bytes → Bytes → State → State
send broker topic payload st =
    let (taken, store) = publish broker 0 topic payload false st.retained in
    record st {
      retained = store;
      outputs = if taken then sent topic payload ∷ st.outputs else st.outputs;
    }

-- A payload that could not be encoded is not sent.
abbrev pub send_encoded : Broker → Bytes → Option Bytes → State → State
send_encoded broker topic none st = st
send_encoded broker topic (some payload) st = send broker topic payload st

-- A tick of the ticker, with what the round meets, or a signal.
pub data Event (F : Type 0) : Type 0 where
  tick : Moment F → Event F
  signal : Event F

module _ {F : Type 0} (codecs : Codecs F) (settings : Settings) where
  abbrev pub zimaos_info : Moment F → ZimaosInfo
  zimaos_info m =
      if is_enabled settings.cfg.updates
      then new_zimaos_update_info settings.zimaos_version m.zimaos_release.0 m.zimaos_release.1
      else new_zimaos_update_info settings.zimaos_version [] []

  abbrev pub monitor_state : Moment F → MonitorUpdateInfo
  monitor_state m =
      if is_enabled settings.cfg.monitor_updates
      then new_monitor_update_info settings.version m.monitor_release.0 m.monitor_release.1
      else new_monitor_update_info settings.version [] []

  unfoldable pub publish_monitor_state : Moment F → State → State
  publish_monitor_state m st =
      if is_enabled settings.cfg.monitor_updates
      then send_encoded m.broker (monitor_update_topic_of settings.cfg.device.id)
          (codecs.encode_monitor (monitor_state m)) st
      else st

  -- A load that cannot be read is `load.AvgStat{}`.
  abbrev pub load_or_zero : Option (F × F × F) → F × F × F
  load_or_zero none = (codecs.floats.zero_float, codecs.floats.zero_float, codecs.floats.zero_float)
  load_or_zero (some l) = l

  unfoldable pub metrics_of : Moment F → State → Metrics F
  metrics_of m st =
      let (cpu, _) = collect_cpu codecs.floats st.cpu m.sample in
      let memory = collect_memory codecs.floats.zero_float codecs.gigabytes m.memory in
      let (load_1, load_5, load_15) = load_or_zero m.load in
      record {
        cpu_temp = cpu.temp_c;
        cpu_watts = cpu.watts;
        cpu_usage_pct = cpu.usage_pct;
        cpu_core_pct = cpu.core_pcts;
        load_avg_1 = load_1;
        load_avg_5 = load_5;
        load_avg_15 = load_15;
        uptime_seconds = m.uptime;
        ram_used_pct = memory.used_pct;
        ram_available_gb = memory.available_gb;
        ram_total_gb = memory.total_gb;
        disks = collect_disks m.usage codecs.gigabytes settings.cfg.disks;
        zimaos = zimaos_info m;
      }

  -- `client.PublishDiscovery`, whose error is only logged
  unfoldable pub announce : Broker → Bool → State → State
  announce broker purge_stale st =
      let (error, store) =
        publish_discovery broker codecs.encoder codecs.decode_probe settings.cfg settings.cfg.disks
          settings.num_cores purge_stale st.retained in
      record st { retained = store; outputs = announced error ∷ st.outputs }

  unfoldable pub count_round : Broker → State → State
  unfolding announce
  count_round broker st =
      if leb 10 (st.counter + 1)
      then announce broker false (record st { counter = 0 })
      else record st { counter = st.counter + 1 }

  -- What follows the encoded metrics when a client is there
  unfoldable pub publish_round : Moment F → Bytes → State → State
  unfolding send publish_monitor_state count_round
  publish_round m payload st =
      let st₁ = send m.broker (state_topic_of settings.cfg.device.id) payload st in
      let st₂ =
        send_encoded m.broker (update_topic_of settings.cfg.device.id)
          (codecs.encode_zimaos (zimaos_info m)) st₁ in
      count_round m.broker (publish_monitor_state m st₂)

  -- The function `collect` of `main`
  unfoldable pub collect : State → Moment F → State
  unfolding metrics_of publish_round
  collect st m =
      let (_, cpu) = collect_cpu codecs.floats st.cpu m.sample in
      let st' = record st { cpu = cpu } in
      elim (codecs.encode_metrics (metrics_of m st)) [
        | none ↦ st'
        | some payload ↦
            if settings.dry_run
            then record st' { outputs = printed payload ∷ st'.outputs }
            else publish_round m payload st'
      ]

  -- The loop of `main`
  unfoldable pub loop : State → List (Event F) → State
  loop st [] = st
  loop st (signal ∷ events) = st
  loop st (tick m ∷ events) = loop (collect st m) events

  -- The state before the first round, if `NewClient` connects or is not called.
  unfoldable pub open_service : CpuCollector → Broker → Retained → State
  unfolding announce
  open_service cpu broker store =
      let st : State = record { cpu = cpu; counter = 0; retained = store; outputs = [] } in
      if settings.dry_run then st else announce broker true st

  -- `main` from the client on; none if it does not connect, which ends the program.
  unfoldable pub serve :
      CpuCollector → Bool → Broker → Retained → Moment F → List (Event F) → Option State
  unfolding collect loop open_service
  serve cpu connects broker store first events =
      if not settings.dry_run && not connects
      then none
      else some (loop (collect (open_service cpu broker store) first) events)
