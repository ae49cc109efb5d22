-- ===== src/Collector/Upstream.antt =====
-- internal/collector/upstream.go: `UpstreamChecker`. The goroutine of `Start` is a function of the
-- answers that its requests get, each with the time of its arrival, and of the events that it waits
-- for; the HTTP client and the JSON decoder are parameters. Log lines are not modelled.
pub mod Laws
use zimaos_monitor.Base.{
  ℕ, Bool, List, [], ◌∷◌, Option, none, some, ◌==◌, if◌then◌else◌, Bytes, codes, ◌>>=◌,
}
use zimaos_monitor.Base.Int.{ℤ, pos, ltb_ℕ}
use zimaos_monitor.Text.{is_some}
use zimaos_monitor.SelfUpdate.Version.{three_numbers, at_end}
use zimaos_monitor.SelfUpdate.Release.{HttpAnswer, bad_request, no_response, response}
use zimaos_monitor.SelfUpdate.Checker.{hour}

-- `githubRelease`
pub record UpstreamRelease : Type 0 where
  pub tag_name : Bytes
  pub html_url : Bytes

-- Without the HTTP client and the lock. Durations are in nanoseconds; `last_fetch` is none for the
-- zero time.
pub record UpstreamChecker : Type 0 where
  pub url : Bytes
  pub interval : ℤ
  pub latest : Bytes
  pub release_url : Bytes
  pub last_fetch : Option ℕ
  pub user_agent : Bytes

unfoldable pub new_upstream_checker : ℤ → Bytes → UpstreamChecker
new_upstream_checker interval user_agent = record {
  url = codes "https://api.github.com/repos/IceWhaleTech/ZimaOS/releases?per_page=30";
  interval = if ltb_ℕ interval hour then pos hour else interval;
  latest = [];
  release_url = [];
  last_fetch = none;
  user_agent = user_agent;
}

-- `Latest`
abbrev pub shown : UpstreamChecker → Bytes × Bytes
shown u = (u.latest, u.release_url)

-- `^\d+\.\d+\.\d+$`
unfoldable pub is_bare_version : Bytes → Bool
is_bare_version s = is_some (do (_, rest) ← three_numbers s; at_end rest)

-- The loop of `fetch`
unfoldable pub take_release : List UpstreamRelease → ℕ → UpstreamChecker → UpstreamChecker
take_release [] now u = u
take_release (r ∷ releases) now u =
    let rest = take_release releases now u in
    if is_bare_version r.tag_name
    then record u { latest = r.tag_name; release_url = r.html_url; last_fetch = some now }
    else rest

-- A tick of the ticker, with the answer that the request then gets and its time, or the end of the
-- context.
pub data Event : Type 0 where
  tick : HttpAnswer → ℕ → Event
  done : Event

module _ (decode : Bytes → Option (List UpstreamRelease)) where
  unfoldable pub fetch : UpstreamChecker → HttpAnswer → ℕ → UpstreamChecker
  unfolding take_release
  fetch u bad_request now = u
  fetch u no_response now = u
  fetch u (response status size body) now =
      if status == 200
      then elim (decode body) [ none ↦ u | some releases ↦ take_release releases now u ]
      else u

  unfoldable pub serve : UpstreamChecker → List Event → UpstreamChecker
  serve u [] = u
  serve u (done ∷ events) = u
  serve u (tick answer now ∷ events) = serve (fetch u answer now) events

  unfoldable pub start : UpstreamChecker → HttpAnswer → ℕ → List Event → UpstreamChecker
  unfolding serve
  start u first now events = serve (fetch u first now) events
