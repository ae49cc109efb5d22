-- ===== src/Command/Service/Topics.antt =====
-- Where the service sends its payloads, and which topics its discovery records name.
use zimaos_monitor.Base.{true, false, List, [], ◌∷◌, some, ◌≡◌, ◌⊎◌, inl, inr, refl, All}
use zimaos_monitor.Config.{is_enabled}
use zimaos_monitor.Mqtt.Client.{Retained, Broker}
use zimaos_monitor.Mqtt.Discovery.{
  Sensor, sensors, zimaos_update_discovery, monitor_update_discovery,
}
use zimaos_monitor.Mqtt.Discovery.States.{sensors-IsStateSensor}
use zimaos_monitor.Collector.Cpu.{CpuCollector}
use zimaos_monitor.Command.Info.{ZimaosInfo, MonitorUpdateInfo, Metrics}
use zimaos_monitor.Command.Service.Outputs.{EachRound, Allows, loop-All, open_service-All}
use zimaos_monitor.Command.Service.Steps.{serve-true}
use zimaos_monitor.Command.Service.{
  Settings, Codecs, Moment, Event, tick, signal, Output, printed, sent, announced, State, loop,
  open_service, serve,
}

module _ {F : Type 0} (codecs : Codecs F) (settings : Settings) where
  -- The output is printed by a dry run, or is an announcement, or an encoding sent to the topic that
  -- the records of its kind name: the metrics to that of the sensors, the two versions to those of the
  -- update entities, the monitor's only if its checker is enabled.
  abbrev pub IsAddressed : Output → Type 0
  IsAddressed (printed p) = settings.dry_run ≡ true
  IsAddressed (announced e) = settings.dry_run ≡ false
  IsAddressed (sent t p) =
      (settings.dry_run ≡ false)
      × (((metrics : Metrics F) × (codecs.encode_metrics metrics ≡ some p)
            × All (λ (s : Sensor). s.state_topic ≡ t)
                (sensors settings.cfg settings.cfg.disks settings.num_cores))
          ⊎ ((info : ZimaosInfo) × (codecs.encode_zimaos info ≡ some p)
              × ((zimaos_update_discovery settings.cfg).state_topic ≡ t))
          ⊎ ((info : MonitorUpdateInfo) × (codecs.encode_monitor info ≡ some p)
              × ((monitor_update_discovery settings.cfg).state_topic ≡ t)
              × (is_enabled settings.cfg.monitor_updates ≡ true)))

  IsAddressed-Allows : (m : Moment F) → Allows codecs settings IsAddressed m
  IsAddressed-Allows m = record {
    of_print = λ st p dry e. dry;
    of_state = λ st p wet e.
        (wet, inl (_, e, sensors-IsStateSensor settings.cfg settings.cfg.disks settings.num_cores));
    of_update = λ p wet e. (wet, inr (inl (_, e, refl)));
    of_monitor = λ p wet enabled e. (wet, inr (inr (_, e, refl, enabled)));
  }

  each-Allows : (events : List (Event F)) → EachRound (Allows codecs settings IsAddressed) events
  each-Allows [] = tt
  each-Allows (signal ∷ events) = tt
  each-Allows (tick m ∷ events) = (IsAddressed-Allows m, each-Allows events)

  -- All that a service does that connects: in a dry run it only prints; otherwise it announces its
  -- records, and sends encodings of its metrics to the topic that each sensor record names, of the
  -- two versions to the topics that the records of the update entities name, of the monitor only if
  -- its checker is enabled.
  pub serve-IsAddressed :
      (cpu : CpuCollector) (b : Broker) (store : Retained) (first : Moment F)
      (events : List (Event F))
      → (st : State) × (serve codecs settings cpu true b store first events ≡ some st)
        × All IsAddressed st.outputs
  serve-IsAddressed cpu b store first events = (
    loop codecs settings (open_service codecs settings cpu b store) (tick first ∷ events),
    serve-true codecs settings cpu b store first events,
    loop-All codecs settings IsAddressed (λ e wet. wet) (tick first ∷ events) _
        (each-Allows (tick first ∷ events))
        (open_service-All codecs settings IsAddressed (λ e wet. wet) cpu b store),
  )
