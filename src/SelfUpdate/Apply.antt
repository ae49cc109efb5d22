-- ===== src/SelfUpdate/Apply.antt =====
-- internal/selfupdate/updater.go: `Apply`, which replaces the installed binary by the one of the
-- latest release, and goes back to the old one if the service does not come up with it.
pub mod Prepare
pub mod Spec
pub mod Install
pub mod Outcome
pub mod Select
pub mod Safety
pub mod Progress
pub mod Interrupted
pub mod Completes
pub mod Whole
use zimaos_monitor.Base.{
  ℕ, ◌+◌, ◌*◌, Bool, true, false, not, ◌&&◌, ◌||◌, List, [], ◌∷◌, ◌++◌, Option, none, some, ◌==◌,
  if◌then◌else◌, Bytes, codes, str_eq,
}
use zimaos_monitor.Base.Int.{ℤ, pos, negsuc}
use zimaos_monitor.Text.{trim_space, value_or, is_empty, or_default}
use zimaos_monitor.SelfUpdate.Version.{is_newer}
use zimaos_monitor.SelfUpdate.Release.{Release, Fetched, found, failed, fetch_latest}
use zimaos_monitor.SelfUpdate.Checker.{latest_release_endpoint}
use zimaos_monitor.SelfUpdate.Host.{
  Environment, World, Result, ok, err, Io, ◌>>=◌, ◌>>◌, pure, raise, check, or_raise, ask,
  content_of, put, as_error, join_path, attempt, read, write, rename, remove, remove_all, run,
  finally, on_error,
}
use zimaos_monitor.SelfUpdate.Download.{
  PrepareError, lock_open, lock_held, not_newer, lacks_artifact, create_directory, fetch_error,
  candidate_run, candidate_version, download_file, download_checksum, verify_checksum,
}
use zimaos_monitor.SelfUpdate.Extract.{max_binary_size, binary_name, extract_binary}

-- The HTTP client and the command runner are the environment's. The user agent has no effect on
-- the model.
pub record ApplyOptions : Type 0 where
  pub current_version : Bytes
  pub executable_path : Bytes
  pub service_name : Bytes
  pub user_agent : Bytes
  pub endpoint : Bytes
  pub health_delay : ℤ

pub data HealthError : Type 0 where
  restart_error not_active stopped : HealthError

pub data RollbackError : Type 0 where
  restore_failed restart_failed : RollbackError

pub data UpdateError : Type 0 where
  prepare_error : PrepareError → UpdateError
  backup_failed replace_failed remove_backup : UpdateError
  rolled_back : HealthError → UpdateError
  rollback_failed : HealthError → RollbackError → UpdateError

abbrev is_zero : ℤ → Bool
is_zero (pos n) = n == 0
is_zero (negsuc n) = false

abbrev pub set_apply_defaults : ApplyOptions → ApplyOptions
set_apply_defaults opts = record opts {
  endpoint = or_default opts.endpoint latest_release_endpoint;
  service_name = or_default opts.service_name (codes "zimaos-monitor.service");
  health_delay = if is_zero opts.health_delay then pos 10_000_000_000 else opts.health_delay;
}

abbrev pub lock_path : ApplyOptions → Bytes
lock_path opts = opts.executable_path ++ codes ".update.lock"

abbrev pub backup_path : ApplyOptions → Bytes
backup_path opts = opts.executable_path ++ codes ".previous"

abbrev pub archive_path : Bytes → Release → Bytes
archive_path dir release = join_path dir release.asset_name

abbrev pub candidate_path : Bytes → Bytes
candidate_path dir = join_path dir binary_name

-- The error of an update whose restart failed with `e`, by what came of the rollback.
abbrev pub report_rollback :
    HealthError → Result RollbackError (Unit {0}) → Result UpdateError (Unit {0})
report_rollback e (ok _) = err (rolled_back e)
report_rollback e (err f) = err (rollback_failed e f)

module _ (env : Environment) where
  -- The lock file is made if there is none, and stays.
  unfoldable pub acquire_lock : Bytes → Io PrepareError (Unit {0})
  acquire_lock path = do
    attempt env lock_open
    content ← content_of path
    put path (some (value_or [] content))
    attempt env lock_held

  abbrev pub release_or_raise : Fetched → Io PrepareError Release
  release_or_raise (found release) = pure release
  release_or_raise (failed e) = raise (fetch_error e)

  -- The version test and the artifact test
  unfoldable pub approve : ApplyOptions → Release → Io PrepareError Release
  approve opts release = do
    check (is_newer opts.current_version release.version) not_newer
    check
        (not (
          is_empty release.asset_url || (is_empty release.sha256 && is_empty release.checksum_url)))
        lacks_artifact
    pure release

  -- `Apply` up to the artifact test
  unfoldable pub select_release : ApplyOptions → Io PrepareError Release
  select_release opts = do
    acquire_lock (lock_path opts)
    answer ← ask λ t. env.answer t opts.endpoint
    release ← release_or_raise (fetch_latest env.decode_release answer)
    approve opts release

  -- `os.MkdirTemp`
  unfoldable pub make_dir : Io PrepareError Bytes
  make_dir = do attempt env create_directory; ask env.new_dir

  -- The digest that the artifact must have.
  unfoldable pub expected_digest : Release → Io PrepareError Bytes
  expected_digest release =
      if is_empty release.sha256
      then download_checksum env release.checksum_url
      else pure release.sha256

  -- `Apply` between the new directory and the backup
  unfoldable pub prepare : Release → Bytes → Io PrepareError (Unit {0})
  prepare release dir = do
    download_file env release.asset_url (archive_path dir release) (max_binary_size * 2)
    expected ← expected_digest release
    verify_checksum env (archive_path dir release) expected
    extract_binary env (archive_path dir release) (candidate_path dir)
    content ← read env (candidate_path dir) candidate_run
    output ← ask λ t. env.version_output t content
    printed ← or_raise output candidate_run
    check (str_eq (trim_space printed) release.version) candidate_version

  unfoldable pub copy_file : Bytes → Bytes → Io UpdateError (Unit {0})
  unfolding ◌>>=◌ read attempt write
  copy_file source target = do
    content ← read env source backup_failed
    attempt env backup_failed
    put target (some [])
    write env target content backup_failed
    attempt env backup_failed
    attempt env backup_failed

  unfoldable pub restart_and_check : ApplyOptions → Io HealthError (Unit {0})
  unfolding ◌>>=◌ run
  restart_and_check opts = do
    run env (codes "systemctl" ∷ codes "restart" ∷ opts.service_name ∷ []) restart_error
    cancelled ← ask env.cancelled
    check (not cancelled) stopped
    run env (codes "systemctl" ∷ codes "is-active" ∷ codes "--quiet" ∷ opts.service_name ∷ [])
        not_active

  unfoldable pub rollback : ApplyOptions → Io RollbackError (Unit {0})
  unfolding ◌>>=◌ run rename
  rollback opts = do
    rename env (backup_path opts) opts.executable_path restore_failed
    run env (codes "systemctl" ∷ codes "restart" ∷ opts.service_name ∷ []) restart_failed

  -- What `os.Remove` returns is dropped.
  abbrev remove_quietly : Bytes → World → World
  remove_quietly path w = (remove env path tt tt w).1

  -- The replacement of the binary; if it fails the backup goes.
  unfoldable pub replace : ApplyOptions → Bytes → Io UpdateError (Unit {0})
  unfolding on_error rename remove
  replace opts candidate =
      on_error (rename env candidate opts.executable_path replace_failed)
        λ e w. (err e, remove_quietly (backup_path opts) w)

  -- The restart with the new binary, or with the old one if that fails
  unfoldable pub check_or_rollback : ApplyOptions → Io UpdateError (Unit {0})
  unfolding on_error
  check_or_rollback opts =
      on_error (restart_and_check opts)
        λ e w. let (r, w') = rollback opts w in (report_rollback e r, w')

  -- `err != nil && !os.IsNotExist(err)`
  unfoldable pub remove_if_there : Bytes → Io UpdateError (Unit {0})
  unfolding remove
  remove_if_there path w = elim (w.files path) [
    | none ↦ (ok tt, w)
    | some _ ↦ remove env path remove_backup remove_backup w
  ]

  -- `Apply` from the restart on
  unfoldable pub finish : ApplyOptions → Io UpdateError (Unit {0})
  finish opts = check_or_rollback opts >> remove_if_there (backup_path opts)

  -- `Apply` from the replacement on
  unfoldable pub switch : ApplyOptions → Bytes → Io UpdateError (Unit {0})
  switch opts candidate = replace opts candidate >> finish opts

  -- `Apply` from the backup on
  unfoldable pub install : ApplyOptions → Bytes → Io UpdateError (Unit {0})
  install opts candidate =
      copy_file opts.executable_path (backup_path opts) >> switch opts candidate

  -- What runs with the deferred `os.RemoveAll(workDir)` behind it
  unfoldable pub update_in : ApplyOptions → Release → Bytes → Io UpdateError (Unit {0})
  update_in opts release dir = do
    as_error prepare_error (prepare release dir)
    install opts (candidate_path dir)

  unfoldable pub apply_with : ApplyOptions → Io UpdateError (Unit {0})
  apply_with opts = do
    release ← as_error prepare_error (select_release opts)
    dir ← as_error prepare_error make_dir
    finally (remove_all env dir) (update_in opts release dir)

  unfoldable pub apply : ApplyOptions → Io UpdateError (Unit {0})
  apply opts = apply_with (set_apply_defaults opts)
