-- ===== src/SelfUpdate/Checker.antt =====
-- internal/selfupdate/release.go: `Checker`. The goroutine of `Start` is a function of the answers
-- that its requests get and of the events that it waits for; `Latest` reads the state between two
-- steps, as the mutex has it. Log lines are not modelled.
pub mod Laws
use zimaos_monitor.Base.{
  ℕ, ◌*◌, ◌≤◌, Bool, true, false, List, [], ◌∷◌, Option, none, some, if◌then◌else◌, Bytes, codes,
  ◌≡◌, ◌⊎◌, inl, inr, refl, arith,
}
use zimaos_monitor.Base.Int.{ℤ, pos, negsuc, ltb_ℕ}
use zimaos_monitor.SelfUpdate.Version.Match.{IsStable}
use zimaos_monitor.SelfUpdate.Release.{
  Release, no_release, GithubRelease, HttpAnswer, Fetched, found, failed, fetch_latest,
}
use zimaos_monitor.SelfUpdate.Release.Assets.{fetch_latest_iff}

-- Without the HTTP client and the lock. Durations are in nanoseconds.
pub record Checker : Type 0 where
  pub endpoint : Bytes
  pub interval : ℤ
  pub user_agent : Bytes
  pub latest : Release

abbrev pub hour : ℕ
hour = 3_600_000_000_000

abbrev pub latest_release_endpoint : Bytes
latest_release_endpoint =
    codes "https://api.github.com/repos/Pocho-Labs/zimaos-monitor/releases/latest"

unfoldable pub new_checker : ℤ → Bytes → Checker
new_checker interval user_agent = record {
  endpoint = latest_release_endpoint;
  interval = if ltb_ℕ interval hour then pos hour else interval;
  user_agent = user_agent;
  latest = no_release;
}

-- What ends a wait of the goroutine: the ticker, with the answer that the request then gets, or
-- the end of the context.
pub data Event : Type 0 where
  tick : HttpAnswer → Event
  done : Event

module _ (decode : Bytes → Option GithubRelease) where
  unfoldable pub fetch : Checker → HttpAnswer → Checker
  fetch c answer = elim (fetch_latest decode answer) [
    | failed e ↦ c
    | found release ↦ record c { latest = release }
  ]

  -- The loop of the goroutine.
  serve : Checker → List Event → Checker
  serve c [] = c
  serve c (done ∷ events) = c
  serve c (tick answer ∷ events) = serve (fetch c answer) events

  unfoldable pub start : Checker → HttpAnswer → List Event → Checker
  unfolding serve
  start c first events = serve (fetch c first) events
