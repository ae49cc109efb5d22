-- ===== src/SelfUpdate/Release.antt =====
-- internal/selfupdate/release.go: `FetchLatest`, from the answer of the server to the release.
-- The HTTP client and the JSON decoder are parameters.
pub mod Assets
use zimaos_monitor.Base.{
  ℕ, Bool, true, false, not, ◌||◌, List, [], ◌∷◌, ◌++◌, Option, none, some, ◌==◌, if◌then◌else◌,
  Bytes, codes, str_eq,
}
use zimaos_monitor.Text.{is_some, trim_prefix}
use zimaos_monitor.SelfUpdate.Version.{stable_submatch}

pub record Release : Type 0 where
  pub version : Bytes
  pub release_url : Bytes
  pub asset_url : Bytes
  pub checksum_url : Bytes
  pub sha256 : Bytes
  pub asset_name : Bytes
  pub checksum_name : Bytes

-- `Release{}`
abbrev pub no_release : Release
no_release = record {
  version = [];
  release_url = [];
  asset_url = [];
  checksum_url = [];
  sha256 = [];
  asset_name = [];
  checksum_name = [];
}

pub record GithubAsset : Type 0 where
  pub name : Bytes
  pub browser_download_url : Bytes
  pub digest : Bytes

pub record GithubRelease : Type 0 where
  pub tag_name : Bytes
  pub html_url : Bytes
  pub draft : Bool
  pub prerelease : Bool
  pub assets : List GithubAsset

-- What comes of a request: the URL is refused, no response comes, or a response with a status, the
-- declared content length, if there is one, and a body.
pub data HttpAnswer : Type 0 where
  bad_request : HttpAnswer
  no_response : HttpAnswer
  response : ℕ → Option ℕ → Bytes → HttpAnswer

pub data FetchError : Type 0 where
  create_request fetch_failed decode_failed : FetchError
  http_status : ℕ → FetchError
  not_stable : Bytes → FetchError

pub data Fetched : Type 0 where
  found : Release → Fetched
  failed : FetchError → Fetched

abbrev pub asset_name_of : Bytes → Bytes
asset_name_of tag = codes "zimaos-monitor-" ++ (tag ++ codes "-linux-amd64.tar.gz")

abbrev pub checksum_name_of : Bytes → Bytes
checksum_name_of name = name ++ codes ".sha256"

-- One round of the loop over the assets.
take_asset : Release → GithubAsset → Release
take_asset r a =
    if str_eq a.name r.asset_name
    then record r {
      asset_url = a.browser_download_url;
      sha256 = trim_prefix a.digest (codes "sha256:");
    }
    else if str_eq a.name r.checksum_name
    then record r { checksum_url = a.browser_download_url }
    else r

take_assets : Release → List GithubAsset → Release
take_assets r [] = r
take_assets r (a ∷ rest) = take_assets (take_asset r a) rest

abbrev pub named_release : GithubRelease → Release
named_release raw = record {
  version = raw.tag_name;
  release_url = raw.html_url;
  asset_url = [];
  checksum_url = [];
  sha256 = [];
  asset_name = asset_name_of raw.tag_name;
  checksum_name = checksum_name_of (asset_name_of raw.tag_name);
}

abbrev pub is_stable_tag : Bytes → Bool
is_stable_tag tag = is_some (stable_submatch tag)

-- What follows the decoding.
read_release : GithubRelease → Fetched
unfolding take_assets take_asset
read_release raw =
    if raw.draft || raw.prerelease || not (is_stable_tag raw.tag_name)
    then failed (not_stable raw.tag_name)
    else found (take_assets (named_release raw) raw.assets)

unfoldable pub fetch_latest : (Bytes → Option GithubRelease) → HttpAnswer → Fetched
unfolding read_release
fetch_latest decode bad_request = failed create_request
fetch_latest decode no_response = failed fetch_failed
fetch_latest decode (response status size body) =
    if not (status == 200)
    then failed (http_status status)
    else elim (decode body) [ none ↦ failed decode_failed | some raw ↦ read_release raw ]
