-- ===== src/Tests/Releases.antt =====
-- Releases from answers of the server.
use zimaos_monitor.Base.{◌≡◌, ◌↔◌, ℕ, false, [], ◌∷◌, Option, none, some, Bytes, codes}
use zimaos_monitor.Base.Int.{negsuc}
use zimaos_monitor.SelfUpdate.Release.{
  GithubRelease, HttpAnswer, response, no_response, no_release, found, fetch_latest,
}
use zimaos_monitor.SelfUpdate.Release.Assets.{IsPublished, described, fetch_latest_iff}
use zimaos_monitor.SelfUpdate.Checker.{tick, done, new_checker, start}
use zimaos_monitor.SelfUpdate.Checker.Laws.{last_found, IsOffer, AtLeastHour, start_latest}

abbrev published : GithubRelease
published = record {
  tag_name = codes "v1.0.0";
  html_url = codes "h";
  draft = false;
  prerelease = false;
  assets =
      (record {
        name = codes "zimaos-monitor-v1.0.0-linux-amd64.tar.gz";
        browser_download_url = codes "u";
        digest = codes "sha256:ab";
      })
      ∷ [];
}

abbrev decode : Bytes → Option GithubRelease
decode [] = none
decode (c ∷ s) = some published

abbrev answer : HttpAnswer
answer = response 200 none (1 ∷ [])

fetch_latest_iff_example : (fetch_latest decode answer ≡ found (described published)) ↔ (
    (size : Option ℕ) × (body : Bytes) × (raw : GithubRelease) × (answer ≡ response 200 size body)
    × (decode body ≡ some raw)
    × IsPublished raw
    × (described published ≡ described raw))
fetch_latest_iff_example = fetch_latest_iff decode answer (described published)

start_latest_example :
    let c = start decode (new_checker (negsuc 0) []) no_response (tick answer ∷ done ∷ []) in
    (c.latest ≡ last_found decode no_release (no_response ∷ answer ∷ []))
    × IsOffer c.latest
    × AtLeastHour (negsuc 0) (new_checker (negsuc 0) []).interval
start_latest_example = start_latest decode (negsuc 0) [] no_response (tick answer ∷ done ∷ [])
