-- ===== src/Tests/Updates.antt =====
-- An update that succeeds from its start to its end.
use zimaos_monitor.Base.{
  true, false, [], ◌∷◌, none, some, Bytes, codes, if◌then◌else◌, str_eq, bytes_discrete, refl, ◌≡◌,
  take,
}
use zimaos_monitor.Base.Int.{pos}
use zimaos_monitor.Text.{
  strip_prefix, parse_uint, skip_space, wide_space, wide_space_end, trim_space,
}
use zimaos_monitor.SelfUpdate.Version.{is_newer, parse_version, stable_submatch}
use zimaos_monitor.SelfUpdate.Download.{download_file, verify_checksum}
use zimaos_monitor.SelfUpdate.Release.{fetch_latest, GithubRelease, Release, response}
use zimaos_monitor.SelfUpdate.Host.{
  Environment, Archive, World, ok, ◌>>=◌, as_error, attempt, read, create, write, rename, remove,
  run, remove_all, finally, on_error,
}
use zimaos_monitor.SelfUpdate.Extract.{
  binary_name, extract_binary, extract_entries, extract_entry, base,
}
use zimaos_monitor.SelfUpdate.Extract.Found.{TheBinary, extract_binary-eq-ok}
use zimaos_monitor.SelfUpdate.Apply.{
  apply_with, select_release, acquire_lock, approve, make_dir, update_in, expected_digest, install,
  copy_file, switch, replace, finish, check_or_rollback, restart_and_check, remove_if_there,
  ApplyOptions, apply, set_apply_defaults, prepare, candidate_path,
}
use zimaos_monitor.SelfUpdate.Apply.Spec.{Outcome}
use zimaos_monitor.SelfUpdate.Apply.Select.{IsFresh, IsUpdate}
use zimaos_monitor.SelfUpdate.Apply.Prepare.{Verified, prepare-eq-ok}
use zimaos_monitor.SelfUpdate.Apply.Safety.{apply_lem}

abbrev pub tag : Bytes
tag = codes "1.2.0"

abbrev pub published : GithubRelease
published = record {
  tag_name = tag;
  html_url = codes "h";
  draft = false;
  prerelease = false;
  assets =
      (record {
        name = codes "zimaos-monitor-1.2.0-linux-amd64.tar.gz";
        browser_download_url = codes "u";
        digest = codes "sha256:ab";
      })
      ∷ [];
}

abbrev pub packed : Archive
packed = record {
  entries =
      (record {
        name = binary_name;
        is_regular = true;
        size = pos 1;
        content = 7 ∷ [];
        intact = true;
      })
      ∷ [];
  complete = true;
}

-- A machine on which nothing fails.
abbrev pub env : Environment
env = record {
  fails = λ _. false;
  partial = λ _ content. content;
  answer = λ _ _. response 200 none [];
  decode_release = λ _. some published;
  sha256_hex = λ _. codes "ab";
  unpack = λ _. some packed;
  new_dir = λ _. codes "/t";
  removes = λ _ _. true;
  version_output = λ _ _. some tag;
  command_succeeds = λ _ _. true;
  cancelled = λ _. false;
}

abbrev pub opts : ApplyOptions
opts = record {
  current_version = codes "1.1.9";
  executable_path = codes "/z";
  service_name = [];
  user_agent = [];
  endpoint = [];
  health_delay = pos 0;
}

abbrev pub old : Bytes
old = 1 ∷ []

abbrev pub world : World
world = record {
  clock = 0;
  files = λ p. if str_eq p (codes "/z") then some old else none;
  calls = [];
}

fresh : IsFresh env opts
unfolding strip_prefix
fresh t = (refl, refl)

apply_lem_example :
    Outcome
      (set_apply_defaults opts)
      (IsUpdate env (set_apply_defaults opts))
      old
      (apply env opts world).0
      (apply env opts world).1
unfolding bytes_discrete
apply_lem_example = apply_lem env opts old world fresh refl

-- The binary is replaced, the backup is gone, and the service ran on the new binary.
apply_run :
    let (r, w) = apply env opts world in
    (r ≡ ok tt) × (w.files (codes "/z") ≡ some (7 ∷ [])) × (w.files (codes "/z.previous") ≡ none)
unfolding apply apply_with select_release acquire_lock approve make_dir update_in prepare
    expected_digest install copy_file switch replace finish check_or_rollback restart_and_check
    remove_if_there as_error attempt read create write rename remove run remove_all finally on_error
    ◌>>=◌ download_file verify_checksum extract_binary fetch_latest is_newer parse_version
    stable_submatch parse_uint strip_prefix skip_space wide_space wide_space_end trim_space
    bytes_discrete take extract_entries base extract_entry
apply_run = (refl, refl, refl)

abbrev release : Release
release = record {
  version = tag;
  release_url = codes "h";
  asset_url = codes "u";
  checksum_url = [];
  sha256 = codes "ab";
  asset_name = codes "a";
  checksum_name = codes "a.sha256";
}

abbrev prepared : World
prepared = (prepare env release (codes "/t") world).1

prepare_run : prepare env release (codes "/t") world ≡ (ok tt, prepared)
unfolding prepare expected_digest attempt read create write rename ◌>>=◌ download_file
    verify_checksum extract_binary strip_prefix skip_space wide_space wide_space_end trim_space
    bytes_discrete take extract_entries base extract_entry
prepare_run = refl

prepare-eq-ok_example :
    (new : Bytes) × Verified env release new
    × (prepared.files (candidate_path (codes "/t")) ≡ some new)
prepare-eq-ok_example = prepare-eq-ok env release (codes "/t") world prepared tt prepare_run

abbrev extracted : World
extracted = (extract_binary env (codes "/z") (codes "/n") world).1

extract_run : extract_binary env (codes "/z") (codes "/n") world ≡ (ok tt, extracted)
unfolding attempt read create write ◌>>=◌ extract_binary bytes_discrete take extract_entries base
    extract_entry
extract_run = refl

extract_binary-eq-ok_example :
    (file : Bytes) × (archive : Archive) × (new : Bytes) × (world.files (codes "/z") ≡ some file)
    × (env.unpack file ≡ some archive)
    × (archive.complete ≡ true)
    × TheBinary archive.entries new
    × (extracted.files (codes "/n") ≡ some new)
extract_binary-eq-ok_example =
    extract_binary-eq-ok env (codes "/z") (codes "/n") world extracted tt extract_run
