-- ===== src/SelfUpdate/Release/Assets.antt =====
-- Which release `FetchLatest` returns: the last asset of each name counts.
use zimaos_monitor.Base.{
  ℕ, true, false, List, [], ◌∷◌, Option, none, some, if◌then◌else◌, Bytes, codes, str_eq, ◌≡◌, ◌≢◌,
  ◌↔◌, refl, arith, ap, length, length-append, Option-cases, inl, inr,
}
use zimaos_monitor.Text.{is_some, trim_prefix}
use zimaos_monitor.SelfUpdate.Version.{stable_submatch}
use zimaos_monitor.SelfUpdate.Version.Match.{IsStable, stable_submatch_iff}
use zimaos_monitor.SelfUpdate.Release.{
  Release, GithubAsset, GithubRelease, HttpAnswer, bad_request, no_response, response, found,
  asset_name_of, checksum_name_of, take_asset, take_assets, named_release, is_stable_tag,
  read_release, fetch_latest,
}

-- The last asset of a name.
pub last_named : Bytes → List GithubAsset → Option GithubAsset
last_named name [] = none
last_named name (a ∷ rest) = elim (last_named name rest) [
  | some b ↦ some b
  | none ↦ if str_eq a.name name then some a else none
]

abbrev url_of : Option GithubAsset → Bytes
url_of none = []
url_of (some a) = a.browser_download_url

abbrev sha_of : Option GithubAsset → Bytes
sha_of none = []
sha_of (some a) = trim_prefix a.digest (codes "sha256:")

-- The release that the decoded answer describes.
abbrev pub described : GithubRelease → Release
described raw =
    let asset = last_named (asset_name_of raw.tag_name) raw.assets in
    let checksum = last_named (checksum_name_of (asset_name_of raw.tag_name)) raw.assets in
    record (named_release raw) {
      asset_url = url_of asset;
      sha256 = sha_of asset;
      checksum_url = url_of checksum;
    }

abbrev url_or : Bytes → Option GithubAsset → Bytes
url_or d none = d
url_or d (some a) = a.browser_download_url

abbrev sha_or : Bytes → Option GithubAsset → Bytes
sha_or d none = d
sha_or d (some a) = trim_prefix a.digest (codes "sha256:")

name-ne-checksum : (name : Bytes) → name ≢ checksum_name_of name
name-ne-checksum name e = absurd (omega (arith, ap length e, length-append name (codes ".sha256")))

take_assets-last :
    (r : Release) (rest : List GithubAsset)
    → r.asset_name ≢ r.checksum_name
    → take_assets r rest ≡ record r {
      asset_url = url_or r.asset_url (last_named r.asset_name rest);
      sha256 = sha_or r.sha256 (last_named r.asset_name rest);
      checksum_url = url_or r.checksum_url (last_named r.checksum_name rest);
    }
unfolding take_assets take_asset last_named
take_assets-last r [] h = refl
take_assets-last r (a ∷ rest) h = ground (arith, take_assets-last (take_asset r a) rest)

-- What `FetchLatest` asks of an answer before it returns a release.
pub record IsPublished (raw : GithubRelease) : Type 0 where
  pub not_draft : raw.draft ≡ false
  pub not_prerelease : raw.prerelease ≡ false
  pub stable_tag : (a : Bytes) × (b : Bytes) × (c : Bytes) × IsStable raw.tag_name a b c

is_stable_tag_iff :
    (tag : Bytes)
    → (is_stable_tag tag ≡ true) ↔ ((a : Bytes) × (b : Bytes) × (c : Bytes) × IsStable tag a b c)
is_stable_tag_iff tag = (
  λ h. elim (Option-cases (stable_submatch tag)) [
    | inl e ↦ cc (ap is_some e)
    | inr ((a, b, c), e) ↦ (a, b, c, (stable_submatch_iff tag a b c).0 e)
  ],
  λ (a, b, c, h). cc (ap is_some ((stable_submatch_iff tag a b c).1 h)),
)

take_assets-described :
    (raw : GithubRelease) → take_assets (named_release raw) raw.assets ≡ described raw
take_assets-described raw = ground (
  arith,
  take_assets-last (named_release raw) raw.assets (name-ne-checksum (asset_name_of raw.tag_name)),
)

read_release_iff :
    (raw : GithubRelease) (r : Release)
    → (read_release raw ≡ found r) ↔ (IsPublished raw × (r ≡ described raw))
unfolding read_release
read_release_iff raw r = (
  λ h. (
    record {
      not_draft = ground arith;
      not_prerelease = ground arith;
      stable_tag = (is_stable_tag_iff raw.tag_name).0 (ground arith);
    },
    ground (arith, take_assets-described raw),
  ),
  λ (p, e). ground (
    arith,
    p.not_draft,
    p.not_prerelease,
    (is_stable_tag_iff raw.tag_name).1 p.stable_tag,
    take_assets-described raw,
  ),
)

-- `FetchLatest` returns a release exactly if the answer has status 200 and decodes to a release
-- that is no draft and no prerelease, with a stable tag. The artifact and its digest are those of
-- the last asset with the archive's name, the checksum URL that of the last with the checksum's.
pub fetch_latest_iff :
    (decode : Bytes → Option GithubRelease) (answer : HttpAnswer) (r : Release)
    → (fetch_latest decode answer ≡ found r) ↔ (
        (size : Option ℕ) × (body : Bytes) × (raw : GithubRelease) × (answer
          ≡ response 200 size body)
        × (decode body ≡ some raw)
        × IsPublished raw
        × (r ≡ described raw))
unfolding fetch_latest
fetch_latest_iff decode bad_request r = (λ h. cc, λ (_, _, _, e, _, _, _). cc)
fetch_latest_iff decode no_response r = (λ h. cc, λ (_, _, _, e, _, _, _). cc)
fetch_latest_iff decode (response status size body) r = (
  λ h. elim (Option-cases (decode body)) [
    | inl e ↦ ground arith
    | inr (raw, e) ↦
        let (p, same) = (read_release_iff raw r).0 (ground arith) in
        (size, body, raw, ground arith, e, p, same)
  ],
  λ (size', body', raw, same, e, p, eq). ground (arith, (read_release_iff raw r).1 (p, eq)),
)
