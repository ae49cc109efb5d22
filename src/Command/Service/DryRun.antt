-- ===== src/Command/Service/DryRun.antt =====
-- What a dry run does.
use zimaos_monitor.Base.{
  ℕ, ◌+◌, Bool, true, List, [], ◌∷◌, some, if◌then◌else◌, Bytes, Option-cases, ◌≡◌, inl, inr, refl,
  subst, arith, All, length,
}
use zimaos_monitor.Text.{is_some}
use zimaos_monitor.Mqtt.Client.{Retained, Broker}
use zimaos_monitor.Collector.Cpu.{CpuCollector}
use zimaos_monitor.Command.Service.Steps.{
  payload_of, collect-none, collect-dry, blank, open_service-dry, serve-dry,
}
use zimaos_monitor.Command.Service.{
  Settings, Codecs, Moment, Event, tick, signal, Output, printed, State, collect, loop, serve,
}
use zimaos_monitor.Command.Service.Rounds.{encoded_rounds}

abbrev pub IsPrinted : Output → Type 0
IsPrinted o = (p : Bytes) × (o ≡ printed p)

module _ {F : Type 0} (codecs : Codecs F) (settings : Settings) where
  -- What a dry run leaves: `n` payloads printed and nothing else.
  record IsDry (store : Retained) (n : ℕ) (st : State) : Type 0 where
    untouched : st.retained ≡ store
    only_printed : All IsPrinted st.outputs
    printed_times : length st.outputs ≡ n

  module _ (store : Retained) (dry : settings.dry_run ≡ true) where
    IsDry-eq : {n n' : ℕ} {st : State} → n ≡ n' → IsDry store n st → IsDry store n' st
    IsDry-eq {n} {n'} {st} e h = subst (λ k. IsDry store k st) e h

    collect-IsDry :
        {n : ℕ} (m : Moment F) (st : State)
        → IsDry store n st
        → IsDry store
            (n + (if is_some (payload_of codecs settings m st) then 1 else 0))
            (collect codecs settings st m)
    collect-IsDry {n} m st h = elim (Option-cases (payload_of codecs settings m st)) [
      | inl e ↦
          rw (e, collect-none codecs settings m st e)
            (record {
              untouched = h.untouched;
              only_printed = h.only_printed;
              printed_times = omega (arith, h.printed_times);
            })
      | inr (payload, e) ↦
          rw (e, collect-dry codecs settings m st payload e dry)
            (record {
              untouched = h.untouched;
              only_printed = ((payload, refl), h.only_printed);
              printed_times = omega (arith, h.printed_times);
            })
    ]

    loop-IsDry :
        (events : List (Event F)) (st : State) (n : ℕ)
        → IsDry store n st
        → IsDry store
            (n + encoded_rounds codecs settings st events)
            (loop codecs settings st events)
    unfolding loop
    loop-IsDry [] st n h = IsDry-eq (omega arith) h
    loop-IsDry (signal ∷ events) st n h = IsDry-eq (omega arith) h
    loop-IsDry (tick m ∷ events) st n h =
        IsDry-eq (omega arith)
          (loop-IsDry events (collect codecs settings st m) _ (collect-IsDry m st h))

    -- A dry run needs no connection, sends nothing and changes no retained message: it prints one
    -- payload for each round whose metrics can be encoded.
    pub serve-dry_run :
        (cpu : CpuCollector) (connects : Bool) (b : Broker) (first : Moment F)
        (events : List (Event F))
        → (st : State) × (serve codecs settings cpu connects b store first events ≡ some st)
          × (st.retained ≡ store)
          × All IsPrinted st.outputs
          × (length st.outputs
              ≡ encoded_rounds codecs settings (blank cpu store) (tick first ∷ events))
    serve-dry_run cpu connects b first events =
        let opened = open_service-dry codecs settings cpu b store dry in
        let start = blank cpu store in
        let h : IsDry store 0 start = record {
          untouched = refl;
          only_printed = tt;
          printed_times = refl;
        } in
        let left = loop-IsDry (tick first ∷ events) start 0 h in
        (
          loop codecs settings start (tick first ∷ events),
          rw opened at (serve-dry codecs settings cpu b store connects first events dry),
          left.untouched,
          left.only_printed,
          omega (arith, left.printed_times),
        )
