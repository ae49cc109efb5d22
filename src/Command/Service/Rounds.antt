-- ===== src/Command/Service/Rounds.antt =====
-- When the discovery records are published.
use zimaos_monitor.Base.{
  ℕ, suc, ◌+◌, ◌/◌, ◌%◌, ◌≤◌, ◌<◌, true, false, List, [], ◌∷◌, Option, none, some, leb,
  if◌then◌else◌, Bytes, Bool-cases, Option-cases, ◌≡◌, inl, inr, refl, subst, ◌∙◌, arith,
}
use zimaos_monitor.Text.{is_some}
use zimaos_monitor.Config.{is_enabled}
use zimaos_monitor.Mqtt.Client.{Retained, Broker}
use zimaos_monitor.Collector.Cpu.{CpuCollector}
use zimaos_monitor.Command.Service.Steps.{
  measured, payload_of, collect-none, collect-wet, open_service-wet, serve-true,
}
use zimaos_monitor.Command.Service.{
  Settings, Codecs, Moment, Event, tick, signal, Output, printed, sent, announced, State, send,
  send_encoded, publish_monitor_state, metrics_of, announce, count_round, publish_round, collect,
  loop, open_service, serve,
}

-- How often the discovery records were published.
abbrev pub announcements : List Output → ℕ
announcements [] = 0
announcements (announced e ∷ outputs) = suc (announcements outputs)
announcements (printed p ∷ outputs) = announcements outputs
announcements (sent t p ∷ outputs) = announcements outputs

send-counter : (b : Broker) (t p : Bytes) (st : State) → (send b t p st).counter ≡ st.counter
unfolding send
send-counter b t p st = refl

send-announcements :
    (b : Broker) (t p : Bytes) (st : State)
    → announcements (send b t p st).outputs ≡ announcements st.outputs
unfolding send
send-announcements b t p st = ground arith

module _ {F : Type 0} (codecs : Codecs F) (settings : Settings) where
  -- How many of the rounds before a signal can encode their metrics.
  abbrev pub encoded_rounds : State → List (Event F) → ℕ
  encoded_rounds st [] = 0
  encoded_rounds st (signal ∷ events) = 0
  encoded_rounds st (tick m ∷ events) =
      (if is_some (codecs.encode_metrics (metrics_of codecs settings m st)) then 1 else 0)
      + encoded_rounds (collect codecs settings st m) events

  -- `n` rounds with a client have been counted since the first publication of the records.
  record IsCounted (n : ℕ) (st : State) : Type 0 where
    counter : st.counter ≡ n % 10
    announced_times : announcements st.outputs ≡ 1 + n / 10

  send_encoded-IsCounted :
      {n : ℕ} (b : Broker) (t : Bytes) (p : Option Bytes) (st : State)
      → IsCounted n st
      → IsCounted n (send_encoded b t p st)
  send_encoded-IsCounted b t none st h = h
  send_encoded-IsCounted b t (some p) st h = record {
    counter = send-counter b t p st ∙ h.counter;
    announced_times = send-announcements b t p st ∙ h.announced_times;
  }

  monitor-IsCounted :
      {n : ℕ} (m : Moment F) (st : State)
      → IsCounted n st
      → IsCounted n (publish_monitor_state codecs settings m st)
  unfolding publish_monitor_state
  monitor-IsCounted m st h = elim (Bool-cases (is_enabled settings.cfg.monitor_updates)) [
    | inl e ↦ rw e (send_encoded-IsCounted m.broker _ _ st h)
    | inr e ↦ rw e h
  ]

  count_round-IsCounted :
      {n : ℕ} (b : Broker) (st : State)
      → IsCounted n st
      → IsCounted (n + 1) (count_round codecs settings b st)
  unfolding count_round announce
  count_round-IsCounted {n} b st h = elim (Bool-cases (leb 10 (st.counter + 1))) [
    | inl e ↦
        let wrap : 10 ≤ st.counter + 1 = ground arith in
        rw (e, count_round)
          (record {
            counter = omega (arith, h.counter, wrap);
            announced_times = omega (arith, h.counter, h.announced_times, wrap);
          })
    | inr e ↦
        let stay : st.counter + 1 < 10 = ground arith in
        rw (e, count_round)
          (record {
            counter = omega (arith, h.counter, stay);
            announced_times = omega (arith, h.counter, h.announced_times, stay);
          })
  ]

  publish_round-IsCounted :
      {n : ℕ} (m : Moment F) (payload : Bytes) (st : State)
      → IsCounted n st
      → IsCounted (n + 1) (publish_round codecs settings m payload st)
  unfolding publish_round
  publish_round-IsCounted m payload st h = count_round-IsCounted m.broker _ (
      monitor-IsCounted m _ (
        send_encoded-IsCounted m.broker _ _ _
          (send_encoded-IsCounted m.broker _ (some payload) st h)))

  IsCounted-eq : {n n' : ℕ} {st : State} → n ≡ n' → IsCounted n st → IsCounted n' st
  IsCounted-eq {n} {n'} {st} e h = subst (λ k. IsCounted k st) e h

  module _ (wet : settings.dry_run ≡ false) where
    collect-IsCounted :
        {n : ℕ} (m : Moment F) (st : State)
        → IsCounted n st
        → IsCounted
            (n + (if is_some (payload_of codecs settings m st) then 1 else 0))
            (collect codecs settings st m)
    collect-IsCounted {n} m st h = elim (Option-cases (payload_of codecs settings m st)) [
      | inl e ↦
          rw (e, collect-none codecs settings m st e)
            (IsCounted-eq (omega arith)
              (record { counter = h.counter; announced_times = h.announced_times }))
      | inr (payload, e) ↦
          rw (e, collect-wet codecs settings m st payload e wet)
            (publish_round-IsCounted m payload (measured codecs settings m st)
              (record { counter = h.counter; announced_times = h.announced_times }))
    ]

    loop-IsCounted :
        (events : List (Event F)) (st : State) (n : ℕ)
        → IsCounted n st
        → IsCounted (n + encoded_rounds st events) (loop codecs settings st events)
    unfolding loop
    loop-IsCounted [] st n h = IsCounted-eq (omega arith) h
    loop-IsCounted (signal ∷ events) st n h = IsCounted-eq (omega arith) h
    loop-IsCounted (tick m ∷ events) st n h =
        IsCounted-eq (omega arith)
          (loop-IsCounted events (collect codecs settings st m) _ (collect-IsCounted m st h))

    open-IsCounted :
        (cpu : CpuCollector) (b : Broker) (store : Retained)
        → IsCounted 0 (open_service codecs settings cpu b store)
    unfolding announce
    open-IsCounted cpu b store =
        rw (open_service-wet codecs settings cpu b store wet)
          (record { counter = refl; announced_times = refl })

    -- A service with a connection, which is no dry run, publishes its discovery records once at the
    -- start and then behind every tenth round whose metrics can be encoded, whatever else fails.
    pub serve-announcements :
        (cpu : CpuCollector) (b : Broker) (store : Retained) (first : Moment F)
        (events : List (Event F))
        → let n = encoded_rounds (open_service codecs settings cpu b store) (tick first ∷ events) in
          (st : State) × (serve codecs settings cpu true b store first events ≡ some st)
          × (announcements st.outputs ≡ 1 + n / 10)
          × (st.counter ≡ n % 10)
    serve-announcements cpu b store first events =
        let st = open_service codecs settings cpu b store in
        let h = loop-IsCounted (tick first ∷ events) st 0 (open-IsCounted cpu b store) in
        (
          loop codecs settings st (tick first ∷ events),
          serve-true codecs settings cpu b store first events,
          omega (arith, h.announced_times),
          omega (arith, h.counter),
        )
