-- ===== src/Command/Service/Outputs.antt =====
-- What holds of all that a service puts out, from what holds of the outputs of each round.
use zimaos_monitor.Base.{
  ◌+◌, true, false, List, [], ◌∷◌, Option, none, some, Bytes, if-eq-then, if-eq-else, subst,
  Bool-cases, Option-cases, ◌≡◌, inl, inr, refl, sym, All, leb,
}
use zimaos_monitor.Config.{is_enabled}
use zimaos_monitor.Mqtt.Client.{Retained, Broker}
use zimaos_monitor.Mqtt.Discovery.{state_topic_of, update_topic_of, monitor_update_topic_of}
use zimaos_monitor.Mqtt.Discovery.Publish.{DiscoveryError}
use zimaos_monitor.Collector.Cpu.{CpuCollector}
use zimaos_monitor.Command.Service.Steps.{
  measured, payload_of, collect-none, collect-dry, collect-wet, open_service-wet, open_service-dry,
}
use zimaos_monitor.Command.Service.{
  Settings, Codecs, Moment, Event, tick, signal, Output, printed, sent, announced, State, send,
  send_encoded, zimaos_info, monitor_state, publish_monitor_state, announce, count_round,
  publish_round, collect, loop, open_service,
}

-- Each round before the signal
abbrev pub EachRound : {F : Type 0} → (Moment F → Type 0) → List (Event F) → Type 0
EachRound P [] = Unit
EachRound P (signal ∷ events) = Unit
EachRound P (tick m ∷ events) = P m × EachRound P events

module _ {F : Type 0} (codecs : Codecs F) (settings : Settings) (P : Output → Type 0) where
  -- The outputs that a round may have pass `P`.
  pub record Allows (m : Moment F) : Type 0 where
    pub of_print :
        (st : State) (p : Bytes)
        → settings.dry_run ≡ true
        → payload_of codecs settings m st ≡ some p
        → P (printed p)
    pub of_state :
        (st : State) (p : Bytes)
        → settings.dry_run ≡ false
        → payload_of codecs settings m st ≡ some p
        → P (sent (state_topic_of settings.cfg.device.id) p)
    pub of_update :
        (p : Bytes)
        → settings.dry_run ≡ false
        → codecs.encode_zimaos (zimaos_info codecs settings m) ≡ some p
        → P (sent (update_topic_of settings.cfg.device.id) p)
    pub of_monitor :
        (p : Bytes)
        → settings.dry_run ≡ false
        → is_enabled settings.cfg.monitor_updates ≡ true
        → codecs.encode_monitor (monitor_state codecs settings m) ≡ some p
        → P (sent (monitor_update_topic_of settings.cfg.device.id) p)

  abbrev Kept : State → Type 0
  Kept st = All P st.outputs

  send-Kept :
      (b : Broker) (t p : Bytes) (st : State) → P (sent t p) → Kept st → Kept (send b t p st)
  unfolding send
  send-Kept b t p st a h = elim (Bool-cases (b.delivers 0 t)) [
    | inl e ↦ rw e (a, h)
    | inr e ↦ rw e h
  ]

  send_encoded-Kept :
      (b : Broker) (t : Bytes) (o : Option Bytes) (st : State)
      → ((p : Bytes) → o ≡ some p → P (sent t p))
      → Kept st
      → Kept (send_encoded b t o st)
  send_encoded-Kept b t none st a h = h
  send_encoded-Kept b t (some p) st a h = send-Kept b t p st (a p refl) h

  monitor-Kept :
      (m : Moment F) (st : State)
      → Allows m
      → settings.dry_run ≡ false
      → Kept st
      → Kept (publish_monitor_state codecs settings m st)
  unfolding publish_monitor_state
  monitor-Kept m st allows wet h = elim (Bool-cases (is_enabled settings.cfg.monitor_updates)) [
    | inl e ↦
        subst Kept (sym (if-eq-then _ st e))
          (send_encoded-Kept m.broker _ _ st (λ p k. allows.of_monitor p wet e k) h)
    | inr e ↦ subst Kept (sym (if-eq-else _ st e)) h
  ]

  module _
      (of_records : (e : Option DiscoveryError) → settings.dry_run ≡ false → P (announced e)) where
    count_round-Kept :
        (b : Broker) (st : State)
        → settings.dry_run ≡ false
        → Kept st
        → Kept (count_round codecs settings b st)
    unfolding count_round announce
    count_round-Kept b st wet h = elim (Bool-cases (leb 10 (st.counter + 1))) [
      | inl e ↦ rw (e, count_round) (of_records _ wet, h)
      | inr e ↦ rw (e, count_round) h
    ]

    collect-Kept :
        (m : Moment F) (st : State) → Allows m → Kept st → Kept (collect codecs settings st m)
    unfolding publish_round
    collect-Kept m st allows h = elim (Option-cases (payload_of codecs settings m st)) [
      | inl e ↦ rw (collect-none codecs settings m st e) h
      | inr (payload, e) ↦ elim (Bool-cases settings.dry_run) [
        | inl dry ↦
            rw (collect-dry codecs settings m st payload e dry)
              (allows.of_print st payload dry e, h)
        | inr wet ↦ rw (collect-wet codecs settings m st payload e wet) (
            count_round-Kept m.broker _ wet (
              monitor-Kept m _ allows wet (
                send_encoded-Kept m.broker _ _ _ (λ p k. allows.of_update p wet k)
                  (send-Kept m.broker _ payload (measured codecs settings m st)
                    (allows.of_state st payload wet e) h))))
      ]
    ]

    pub loop-All :
        (events : List (Event F)) (st : State)
        → EachRound Allows events
        → All P st.outputs
        → All P (loop codecs settings st events).outputs
    unfolding loop
    loop-All [] st allows h = h
    loop-All (signal ∷ events) st allows h = h
    loop-All (tick m ∷ events) st (a, allows) h =
        loop-All events (collect codecs settings st m) allows (collect-Kept m st a h)

    pub open_service-All :
        (cpu : CpuCollector) (b : Broker) (store : Retained)
        → All P (open_service codecs settings cpu b store).outputs
    unfolding announce
    open_service-All cpu b store = elim (Bool-cases settings.dry_run) [
      | inl dry ↦ rw (open_service-dry codecs settings cpu b store dry) tt
      | inr wet ↦ rw (open_service-wet codecs settings cpu b store wet) (of_records _ wet, tt)
    ]
