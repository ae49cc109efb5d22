-- ===== src/SelfUpdate/Checker/Laws.antt =====
-- What a reader of `Latest` can see.
use zimaos_monitor.Base.{
  ◌≤◌, List, [], ◌∷◌, Option, Bytes, ◌≡◌, ◌⊎◌, inl, inr, refl, arith, ◌∙◌, ap, if◌then◌else◌,
}
use zimaos_monitor.Base.Int.{ℤ, pos, negsuc, ltb_ℕ}
use zimaos_monitor.SelfUpdate.Version.Match.{IsStable}
use zimaos_monitor.SelfUpdate.Release.{
  Release, no_release, GithubRelease, HttpAnswer, Fetched, found, failed, fetch_latest,
}
use zimaos_monitor.SelfUpdate.Release.Assets.{fetch_latest_iff}
use zimaos_monitor.SelfUpdate.Checker.{
  Checker, hour, new_checker, Event, tick, done, fetch, serve, start,
}

-- The answers that reach the goroutine before the context ends.
abbrev pub answers : List Event → List HttpAnswer
answers [] = []
answers (done ∷ events) = []
answers (tick answer ∷ events) = answer ∷ answers events

-- The number of nanoseconds, if it is not negative and at least an hour; an hour otherwise.
abbrev pub AtLeastHour : ℤ → ℤ → Type 0
AtLeastHour wanted (negsuc n) = ⊥
AtLeastHour wanted (pos n) = (hour ≤ n) × ((wanted ≡ pos n) ⊎ (n ≡ hour))

-- `fetch_latest` at one answer, with `r` where it gives nothing.
abbrev pub found_or : Release → Fetched → Release
found_or r (failed e) = r
found_or r (found release) = release

-- A release that may be shown: none yet, or one with a stable version.
abbrev pub IsOffer : Release → Type 0
IsOffer r = (r ≡ no_release) ⊎ ((a : Bytes) × (b : Bytes) × (c : Bytes) × IsStable r.version a b c)

-- The least interval is enforced.
pub interval-AtLeastHour :
    (interval : ℤ) → AtLeastHour interval (if ltb_ℕ interval hour then pos hour else interval)
interval-AtLeastHour (pos n) = ground arith
interval-AtLeastHour (negsuc n) = (omega arith, inr refl)

new_checker-AtLeastHour :
    (interval : ℤ) (user_agent : Bytes)
    → AtLeastHour interval (new_checker interval user_agent).interval
unfolding new_checker
new_checker-AtLeastHour interval user_agent = interval-AtLeastHour interval

new_checker-latest :
    (interval : ℤ) (user_agent : Bytes) → (new_checker interval user_agent).latest ≡ no_release
unfolding new_checker
new_checker-latest interval user_agent = refl

module _ (decode : Bytes → Option GithubRelease) where
  -- The release of the last answer that gives one.
  abbrev pub last_found : Release → List HttpAnswer → Release
  last_found r [] = r
  last_found r (answer ∷ rest) = last_found (found_or r (fetch_latest decode answer)) rest

  pub fetch-latest :
      (c : Checker) (answer : HttpAnswer)
      → (fetch decode c answer).latest ≡ found_or c.latest (fetch_latest decode answer)
  unfolding fetch
  fetch-latest c answer = ground arith

  serve-latest :
      (c : Checker) (events : List Event)
      → (serve decode c events).latest ≡ last_found c.latest (answers events)
  unfolding serve
  serve-latest c [] = refl
  serve-latest c (done ∷ events) = refl
  serve-latest c (tick answer ∷ events) =
      serve-latest (fetch decode c answer) events
      ∙ ap (λ r. last_found r (answers events)) (fetch-latest c answer)

  -- A release that an answer gives has a stable version.
  pub found-IsStable :
      (answer : HttpAnswer) (release : Release)
      → fetch_latest decode answer ≡ found release
      → (a : Bytes) × (b : Bytes) × (c : Bytes) × IsStable release.version a b c
  found-IsStable answer release same =
      let (size, body, raw, _, _, p, described) = (fetch_latest_iff decode answer release).0 same in
      rw described p.stable_tag

  found_or-IsOffer :
      (r : Release) (answer : HttpAnswer)
      → IsOffer r
      → IsOffer (found_or r (fetch_latest decode answer))
  found_or-IsOffer r answer h = go (fetch_latest decode answer) refl
    where
      go : (f : Fetched) → fetch_latest decode answer ≡ f → IsOffer (found_or r f)
      go (failed e) same = h
      go (found release) same = inr (found-IsStable answer release same)

  last_found-IsOffer :
      (r : Release) (rest : List HttpAnswer) → IsOffer r → IsOffer (last_found r rest)
  last_found-IsOffer r [] h = h
  last_found-IsOffer r (answer ∷ rest) h =
      last_found-IsOffer (found_or r (fetch_latest decode answer)) rest
        (found_or-IsOffer r answer h)

  start-latest :
      (c : Checker) (first : HttpAnswer) (events : List Event)
      → (start decode c first events).latest ≡ last_found c.latest (first ∷ answers events)
  unfolding start
  start-latest c first events = serve-latest c (tick first ∷ events)

  -- From a new checker on, whatever the server answers, `Latest` shows the release of the last
  -- answer that gave one: a failed request changes nothing. What it shows is no release or one with
  -- a stable version. Nothing changes after the context ends, and the interval is an hour or more.
  pub start_latest :
      (interval : ℤ) (user_agent : Bytes) (first : HttpAnswer) (events : List Event)
      → let c = start decode (new_checker interval user_agent) first events in
        (c.latest ≡ last_found no_release (first ∷ answers events))
        × IsOffer c.latest
        × AtLeastHour interval (new_checker interval user_agent).interval
  start_latest interval user_agent first events =
      let seen = start-latest (new_checker interval user_agent) first events in
      let fresh = new_checker-latest interval user_agent in
      let shown = seen ∙ ap (λ r. last_found r (first ∷ answers events)) fresh in
      (
        shown,
        rw shown (last_found-IsOffer no_release (first ∷ answers events) (inl refl)),
        new_checker-AtLeastHour interval user_agent,
      )
