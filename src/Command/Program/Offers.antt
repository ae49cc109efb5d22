-- ===== src/Command/Program/Offers.antt =====
-- The service with its checkers: which rounds it runs, and which versions it publishes.
use zimaos_monitor.Base.{
  ℕ, Bool, true, false, not, ◌&&◌, List, [], ◌∷◌, Option, none, some, Bytes, ◌≡◌, ◌⊎◌, inl, inr,
  refl, ap, if◌then◌else◌,
}
use zimaos_monitor.Config.{is_enabled}
use zimaos_monitor.Mqtt.Client.{Retained, Broker}
use zimaos_monitor.SelfUpdate.Version.Match.{IsStable}
use zimaos_monitor.SelfUpdate.Release.{
  GithubRelease, HttpAnswer, Fetched, found, failed, fetch_latest,
}
use zimaos_monitor.SelfUpdate.Checker
use zimaos_monitor.SelfUpdate.Checker.{new_checker}
use zimaos_monitor.SelfUpdate.Checker.Laws.{found_or, fetch-latest, found-IsStable}
use zimaos_monitor.Collector.Upstream
use zimaos_monitor.Collector.Upstream.{UpstreamRelease, UpstreamChecker, new_upstream_checker}
use zimaos_monitor.Collector.Upstream.Laws.{IsBare, fetch-cases}
use zimaos_monitor.Collector.Cpu.{CpuCollector}
use zimaos_monitor.Command.Service.{
  Settings, Codecs, Moment, Event, tick, signal, State, collect, loop, open_service, serve,
}
use zimaos_monitor.Command.Program.{
  fetch_upstream, fetch_monitor, user_agent_of, Checkers, new_checkers, upstream_latest,
  monitor_latest, observed, Answer, upstream_answer, monitor_answer, Happening, answered, round,
  interrupted, fetch, fetch_all, run, run_with_checkers,
}

-- No version yet, or a text `a.b.c`.
abbrev pub IsZimaosOffer : Bytes → Type 0
IsZimaosOffer latest = (latest ≡ []) ⊎ IsBare latest

-- No version yet, or a text `a.b.c` or `va.b.c`.
abbrev pub IsMonitorOffer : Bytes → Type 0
IsMonitorOffer latest =
    (latest ≡ []) ⊎ ((a : Bytes) × (b : Bytes) × (c : Bytes) × IsStable latest a b c)

-- What the checkers show may be offered.
abbrev pub Offers : Checkers → Type 0
Offers checkers =
    IsZimaosOffer (upstream_latest checkers.upstream).0
    × IsMonitorOffer (monitor_latest checkers.monitor).0

pub new_checkers-Offers : (settings : Settings) → Offers (new_checkers settings)
unfolding new_checkers new_upstream_checker new_checker
new_checkers-Offers settings =
    (zimaos (is_enabled settings.cfg.updates), monitor (is_enabled settings.cfg.monitor_updates))
  where
    upstream : UpstreamChecker
    upstream =
        new_upstream_checker settings.cfg.updates.check_interval (user_agent_of settings.version)

    checker : Checker.Checker
    checker =
        new_checker settings.cfg.monitor_updates.check_interval (user_agent_of settings.version)

    zimaos : (b : Bool) → IsZimaosOffer (upstream_latest (if b then some upstream else none)).0
    zimaos true = inl refl
    zimaos false = inl refl

    monitor : (b : Bool) → IsMonitorOffer (monitor_latest (if b then some checker else none)).0
    monitor true = inl refl
    monitor false = inl refl

module _ (decode_upstream : Bytes → Option (List UpstreamRelease))
    (decode_release : Bytes → Option GithubRelease) where
  upstream-Offers :
      (u : UpstreamChecker) (a : HttpAnswer) (now : ℕ)
      → IsZimaosOffer u.latest
      → IsZimaosOffer (Upstream.fetch decode_upstream u a now).latest
  upstream-Offers u a now h = elim (fetch-cases decode_upstream u a now) [
    | inl (r, (_, _, _, _, _, (_, _, _, _, bare)), e) ↦ rw e (inr bare)
    | inr (_, e) ↦ rw e h
  ]

  checker-Offers :
      (c : Checker.Checker) (a : HttpAnswer)
      → IsMonitorOffer c.latest.version
      → IsMonitorOffer (Checker.fetch decode_release c a).latest.version
  checker-Offers c a h =
      rw (fetch-latest decode_release c a) (go (fetch_latest decode_release a) refl)
    where
      go :
          (f : Fetched)
          → fetch_latest decode_release a ≡ f
          → IsMonitorOffer (found_or c.latest f).version
      go (failed e) same = h
      go (found release) same = inr (found-IsStable decode_release a release same)

  pub fetch-Offers :
      (checkers : Checkers) (a : Answer)
      → Offers checkers
      → Offers (fetch decode_upstream decode_release checkers a)
  unfolding fetch
  fetch-Offers checkers (upstream_answer a now) (z, m) = (go checkers.upstream z, m)
    where
      go :
          (u : Option UpstreamChecker)
          → IsZimaosOffer (upstream_latest u).0
          → IsZimaosOffer
              (upstream_latest (fetch_upstream decode_upstream decode_release a now u)).0
      go none h = h
      go (some u) h = upstream-Offers u a now h
  fetch-Offers checkers (monitor_answer a) (z, m) = (z, go checkers.monitor m)
    where
      go :
          (c : Option Checker.Checker)
          → IsMonitorOffer (monitor_latest c).0
          → IsMonitorOffer (monitor_latest (fetch_monitor decode_upstream decode_release a c)).0
      go none h = h
      go (some c) h = checker-Offers c a h

  pub fetch_all-Offers :
      (answers : List Answer) (checkers : Checkers)
      → Offers checkers
      → Offers (fetch_all decode_upstream decode_release checkers answers)
  unfolding fetch_all
  fetch_all-Offers [] checkers h = h
  fetch_all-Offers (a ∷ answers) checkers h =
      fetch_all-Offers answers (fetch decode_upstream decode_release checkers a)
        (fetch-Offers checkers a h)

  module _ {F : Type 0} (codecs : Codecs F) (settings : Settings) where
    -- The rounds of the loop, each with the releases that the checkers show in it
    abbrev pub rounds : Checkers → List (Happening F) → List (Event F)
    rounds checkers [] = []
    rounds checkers (interrupted ∷ happenings) = signal ∷ []
    rounds checkers (answered a ∷ happenings) =
        rounds (fetch decode_upstream decode_release checkers a) happenings
    rounds checkers (round m ∷ happenings) = tick (observed checkers m) ∷ rounds checkers happenings

    run-eq-loop :
        (happenings : List (Happening F)) (checkers : Checkers) (st : State)
        → run decode_upstream decode_release codecs settings checkers st happenings
          ≡ loop codecs settings st (rounds checkers happenings)
    unfolding run loop
    run-eq-loop [] checkers st = refl
    run-eq-loop (interrupted ∷ happenings) checkers st = refl
    run-eq-loop (answered a ∷ happenings) checkers st =
        run-eq-loop happenings (fetch decode_upstream decode_release checkers a) st
    run-eq-loop (round m ∷ happenings) checkers st =
        run-eq-loop happenings checkers (collect codecs settings st (observed checkers m))

    -- The service with its checkers beside it is the service whose rounds have the releases that the
    -- checkers then show.
    pub run_with_checkers-eq-serve :
        (cpu : CpuCollector) (connects : Bool) (b : Broker) (store : Retained) (early : List Answer)
        (first : Moment F) (happenings : List (Happening F))
        → let checkers = fetch_all decode_upstream decode_release (new_checkers settings) early in
          run_with_checkers decode_upstream decode_release codecs settings cpu connects b store
            early first happenings
          ≡ serve codecs settings cpu connects b store
              (observed checkers first)
              (rounds checkers happenings)
    unfolding run_with_checkers serve
    run_with_checkers-eq-serve cpu connects b store early first happenings =
        let checkers = fetch_all decode_upstream decode_release (new_checkers settings) early in
        ap (λ st. if not settings.dry_run && not connects then none else some st)
          (run-eq-loop happenings checkers (
            collect codecs settings (open_service codecs settings cpu b store)
              (observed checkers first)))
