-- ===== src/Command/Service/Steps.antt =====
-- One round of the service, by what it can encode.
use zimaos_monitor.Base.{
  Bool, true, false, not, ◌&&◌, ap, List, [], ◌∷◌, Option, none, some, Bytes, ◌≡◌, refl, if-eq-then,
  if-eq-else,
}
use zimaos_monitor.Mqtt.Client.{Retained, Broker}
use zimaos_monitor.Collector.Cpu.{CpuCollector, collect_cpu}
use zimaos_monitor.Command.Service.{
  Settings, Codecs, Moment, printed, State, metrics_of, publish_round, collect, Event, tick, loop,
  announce, open_service, serve,
}

module _ {F : Type 0} (codecs : Codecs F) (settings : Settings) (m : Moment F) (st : State) where
  -- The state with what the CPU collector remembers.
  abbrev pub measured : State
  measured = record st { cpu = (collect_cpu codecs.floats st.cpu m.sample).1 }

  abbrev pub payload_of : Option Bytes
  payload_of = codecs.encode_metrics (metrics_of codecs settings m st)

  pub collect-none : payload_of ≡ none → collect codecs settings st m ≡ measured
  unfolding collect
  collect-none e = rw (e, collect) refl

  module _ (payload : Bytes) (e : payload_of ≡ some payload) where
    pub collect-dry :
        settings.dry_run ≡ true
        → collect codecs settings st m ≡ record measured { outputs = printed payload ∷ st.outputs }
    unfolding collect
    collect-dry dry =
        rw (e, collect)
          (if-eq-then (record measured { outputs = printed payload ∷ st.outputs })
            (publish_round codecs settings m payload measured) dry)

    pub collect-wet :
        settings.dry_run ≡ false
        → collect codecs settings st m ≡ publish_round codecs settings m payload measured
    unfolding collect
    collect-wet wet =
        rw (e, collect)
          (if-eq-else (record measured { outputs = printed payload ∷ st.outputs })
            (publish_round codecs settings m payload measured) wet)

and_false : (b : Bool) → (b && false) ≡ false
and_false true = refl
and_false false = refl

-- The state before the discovery records are published.
abbrev pub blank : CpuCollector → Retained → State
blank cpu store = record { cpu = cpu; counter = 0; retained = store; outputs = [] }

module _ {F : Type 0} (codecs : Codecs F) (settings : Settings) (cpu : CpuCollector) (b : Broker)
    (store : Retained) where
  pub open_service-dry :
      settings.dry_run ≡ true → open_service codecs settings cpu b store ≡ blank cpu store
  unfolding open_service
  open_service-dry =
      if-eq-then (blank cpu store) (announce codecs settings b true (blank cpu store))

  pub open_service-wet :
      settings.dry_run ≡ false
      → open_service codecs settings cpu b store ≡ announce codecs settings b true (blank cpu store)
  unfolding open_service
  open_service-wet =
      if-eq-else (blank cpu store) (announce codecs settings b true (blank cpu store))

  -- A service that connects runs its rounds.
  pub serve-true :
      (first : Moment F) (events : List (Event F))
      → serve codecs settings cpu true b store first events
        ≡ some
            (loop codecs settings (open_service codecs settings cpu b store) (tick first ∷ events))
  unfolding serve
  serve-true first events = if-eq-else none _ (and_false (not settings.dry_run))

  -- A dry run needs no connection.
  pub serve-dry :
      (connects : Bool) (first : Moment F) (events : List (Event F))
      → settings.dry_run ≡ true
      → serve codecs settings cpu connects b store first events
        ≡ some
            (loop codecs settings (open_service codecs settings cpu b store) (tick first ∷ events))
  unfolding serve
  serve-dry connects first events dry = if-eq-else none _ (ap (λ d. not d && not connects) dry)
