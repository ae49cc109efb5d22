-- ===== src/SelfUpdate/Apply/Interrupted.antt =====
-- An update whose context ends while it waits for the service.
use zimaos_monitor.Base.{ℕ, ◌+◌, true, false, List, ◌∷◌, Option, Bytes, ◌≡◌, ◌⊎◌, arith}
use zimaos_monitor.SelfUpdate.Host.{Environment, World, Call, Result, err}
use zimaos_monitor.SelfUpdate.Apply.{
  ApplyOptions, stopped, restore_failed, restart_failed, UpdateError, rollback_failed, backup_path,
  restart_and_check, rollback, check_or_rollback,
}
use zimaos_monitor.SelfUpdate.Apply.Spec.{restart_args, done}

-- What `context` and `exec.CommandContext` promise: a context that has ended stays so, and no
-- command succeeds that is started with it.
pub record ObeysContext (env : Environment) : Type 0 where
  pub stays : (t : ℕ) → env.cancelled t ≡ true → env.cancelled (t + 1) ≡ true
  pub no_command :
      (t : ℕ) (args : List Bytes) → env.cancelled t ≡ true → env.command_succeeds t args ≡ false

-- A command that failed on these files.
abbrev pub refused : List Bytes → (Bytes → Option Bytes) → Call
refused args files = record { args = args; found = files; succeeded = false }

-- The rollback failed: the backup was not moved back, or it was and the service was not restarted.
-- The last command that succeeded is the restart on the files of the world `w`.
abbrev pub Interrupted : ApplyOptions → World → Result UpdateError (Unit {0}) → World → Type 0
Interrupted opts w r w' =
    (r ≡ err (rollback_failed stopped restore_failed)
      × (w'.files ≡ w.files)
      × (w'.calls ≡ done (restart_args opts) w.files ∷ w.calls))
    ⊎ (r ≡ err (rollback_failed stopped restart_failed)
        × (w'.files opts.executable_path ≡ w.files (backup_path opts))
        × (w'.calls
            ≡ refused (restart_args opts) w'.files ∷ done (restart_args opts) w.files ∷ w.calls))

-- If the context ends while the update waits for the service that it restarted, the rollback fails:
-- whether or not the old binary is moved back, the last restart that succeeded is the one with the
-- new binary.
pub check_or_rollback-Interrupted :
    (env : Environment) (opts : ApplyOptions) (w : World)
    → ObeysContext env
    → env.command_succeeds w.clock (restart_args opts) ≡ true
    → env.cancelled (w.clock + 1) ≡ true
    → let (r, w') = check_or_rollback env opts w in Interrupted opts w r w'
unfolding check_or_rollback restart_and_check rollback
check_or_rollback-Interrupted env opts w obeys restarted ended = ground (
  arith,
  restarted,
  ended,
  obeys.no_command (w.clock + 1 + 1 + 1) (restart_args opts)
      (obeys.stays (w.clock + 1 + 1) (obeys.stays (w.clock + 1) ended)),
)
