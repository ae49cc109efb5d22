-- ===== src/SelfUpdate/Apply/Spec.antt =====
-- What an update comes to: the state of the installed binary, of its backup and of the service,
-- for each result of `Apply`.
use zimaos_monitor.Base.{List, [], ◌∷◌, Option, none, some, Bytes, codes, true, ◌≡◌}
use zimaos_monitor.SelfUpdate.Host.{World, Call, Result, ok, err}
use zimaos_monitor.SelfUpdate.Apply.{
  ApplyOptions, restore_failed, UpdateError, remove_backup, rolled_back, rollback_failed,
  backup_path,
}

abbrev pub restart_args : ApplyOptions → List Bytes
restart_args opts = codes "systemctl" ∷ codes "restart" ∷ opts.service_name ∷ []

abbrev pub is_active_args : ApplyOptions → List Bytes
is_active_args opts =
    codes "systemctl" ∷ codes "is-active" ∷ codes "--quiet" ∷ opts.service_name ∷ []

-- A command that succeeded on these files.
abbrev pub done : List Bytes → (Bytes → Option Bytes) → Call
done args files = record { args = args; found = files; succeeded = true }

-- The last command succeeded, on the files as they are.
abbrev pub LastDone : List Bytes → World → Type 0
LastDone args w = (calls : List Call) × (w.calls ≡ done args w.files ∷ calls)

-- The service was restarted and found active on files whose binary has the content `new`.
abbrev pub RunsOn : ApplyOptions → Bytes → World → Type 0
RunsOn opts new w =
    (files : (Bytes → Option Bytes)) × (before : List Call) × (files opts.executable_path
      ≡ some new)
    × (w.calls ≡ done (is_active_args opts) files ∷ done (restart_args opts) files ∷ before)

-- The last command is the successful restart on files whose binary has the content `old`.
abbrev pub RestartedOn : ApplyOptions → Bytes → World → Type 0
RestartedOn opts old w =
    (files : (Bytes → Option Bytes)) × (before : List Call) × (files opts.executable_path
      ≡ some old)
    × (w.calls ≡ done (restart_args opts) files ∷ before)

-- What an update comes to, from an installed binary with the content `old`, where `Good` is what
-- is known of a new one.
abbrev pub Outcome :
    ApplyOptions → (Bytes → Type 0) → Bytes → Result UpdateError (Unit {0}) → World → Type 0
Outcome opts Good old (ok _) w =
    (new : Bytes) × Good new
    × (w.files opts.executable_path ≡ some new)
    × (w.files (backup_path opts) ≡ none)
    × RunsOn opts new w
Outcome opts Good old (err remove_backup) w =
    (new : Bytes) × Good new
    × (w.files opts.executable_path ≡ some new)
    × (w.files (backup_path opts) ≡ some old)
    × RunsOn opts new w
Outcome opts Good old (err (rolled_back e)) w =
    (w.files opts.executable_path ≡ some old) × RestartedOn opts old w
Outcome opts Good old (err (rollback_failed e restore_failed)) w =
    w.files (backup_path opts) ≡ some old
Outcome opts Good old (err _) w = w.files opts.executable_path ≡ some old
