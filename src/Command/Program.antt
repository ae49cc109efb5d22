-- ===== src/Command/Program.antt =====
-- cmd/zimaos-monitor/main.go: the service of `main` with the two checkers beside it, as one sequence
-- of what happens to the three. Both checkers are read at one moment of a round: what a checker
-- fetches between the two reads could as well have come before the round or behind it.
pub mod Offers
pub mod Published
use zimaos_monitor.Base.{
  ℕ, Bool, true, false, not, ◌&&◌, List, [], ◌∷◌, ◌++◌, Option, none, some, if◌then◌else◌, Bytes,
  codes,
}
use zimaos_monitor.Config.{is_enabled}
use zimaos_monitor.Mqtt.Client.{Retained, Broker}
use zimaos_monitor.SelfUpdate.Release.{GithubRelease, HttpAnswer}
use zimaos_monitor.SelfUpdate.Checker
use zimaos_monitor.SelfUpdate.Checker.{Checker, new_checker}
use zimaos_monitor.Collector.Upstream
use zimaos_monitor.Collector.Upstream.{
  UpstreamRelease, UpstreamChecker, new_upstream_checker, shown,
}
use zimaos_monitor.Collector.Cpu.{CpuCollector}
use zimaos_monitor.Command.Service.{Settings, Codecs, Moment, State, collect, open_service}

-- The variables `upstream` and `monitorChecker`; none is nil.
pub record Checkers : Type 0 where
  pub upstream : Option UpstreamChecker
  pub monitor : Option Checker

abbrev pub user_agent_of : Bytes → Bytes
user_agent_of version = codes "zimaos-monitor/" ++ version

unfoldable pub new_checkers : Settings → Checkers
new_checkers settings = record {
  upstream =
      if is_enabled settings.cfg.updates
      then some (
          new_upstream_checker settings.cfg.updates.check_interval (user_agent_of settings.version))
      else none;
  monitor =
      if is_enabled settings.cfg.monitor_updates
      then some
          (new_checker settings.cfg.monitor_updates.check_interval (user_agent_of settings.version))
      else none;
}

-- What `Latest` of a checker that runs returns, for `zi` and for `info` of `monitorState`
abbrev pub upstream_latest : Option UpstreamChecker → Bytes × Bytes
upstream_latest none = ([], [])
upstream_latest (some u) = shown u

abbrev pub monitor_latest : Option Checker → Bytes × Bytes
monitor_latest none = ([], [])
monitor_latest (some c) = (c.latest.version, c.latest.release_url)

-- A round with the releases that the checkers then show
abbrev pub observed : {F : Type 0} → Checkers → Moment F → Moment F
observed checkers m = record m {
  zimaos_release = upstream_latest checkers.upstream;
  monitor_release = monitor_latest checkers.monitor;
}

-- The answer that a checker gets to its request
pub data Answer : Type 0 where
  upstream_answer : HttpAnswer → ℕ → Answer
  monitor_answer : HttpAnswer → Answer

-- A checker gets an answer, the ticker of the service ticks, or a signal arrives.
pub data Happening (F : Type 0) : Type 0 where
  answered : Answer → Happening F
  round : Moment F → Happening F
  interrupted : Happening F

module _ (decode_upstream : Bytes → Option (List UpstreamRelease))
    (decode_release : Bytes → Option GithubRelease) where
  abbrev pub fetch_upstream : HttpAnswer → ℕ → Option UpstreamChecker → Option UpstreamChecker
  fetch_upstream a now none = none
  fetch_upstream a now (some u) = some (Upstream.fetch decode_upstream u a now)

  abbrev pub fetch_monitor : HttpAnswer → Option Checker → Option Checker
  fetch_monitor a none = none
  fetch_monitor a (some c) = some (Checker.fetch decode_release c a)

  -- An answer to a checker that does not run is none.
  unfoldable pub fetch : Checkers → Answer → Checkers
  fetch checkers (upstream_answer a now) = record checkers {
    upstream = fetch_upstream a now checkers.upstream;
  }
  fetch checkers (monitor_answer a) = record checkers { monitor = fetch_monitor a checkers.monitor }

  unfoldable pub fetch_all : Checkers → List Answer → Checkers
  unfolding fetch
  fetch_all checkers [] = checkers
  fetch_all checkers (a ∷ answers) = fetch_all (fetch checkers a) answers

  module _ {F : Type 0} (codecs : Codecs F) (settings : Settings) where
    -- The loop of `main`, with the goroutines of the checkers; the signal ends all.
    unfoldable pub run : Checkers → State → List (Happening F) → State
    run checkers st [] = st
    run checkers st (interrupted ∷ happenings) = st
    run checkers st (answered a ∷ happenings) = run (fetch checkers a) st happenings
    run checkers st (round m ∷ happenings) =
        run checkers (collect codecs settings st (observed checkers m)) happenings

    -- `main` from the checkers on: the answers that arrive before the first round, that round, and
    -- what happens then.
    unfoldable pub run_with_checkers :
        CpuCollector
        → Bool
        → Broker
        → Retained
        → List Answer
        → Moment F
        → List (Happening F)
        → Option State
    unfolding new_checkers fetch_all run
    run_with_checkers cpu connects broker store early first happenings =
        let checkers = fetch_all (new_checkers settings) early in
        if not settings.dry_run && not connects
        then none
        else some (
            run checkers
              (collect codecs settings (open_service codecs settings cpu broker store)
                (observed checkers first))
              happenings)
