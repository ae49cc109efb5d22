-- ===== src/SelfUpdate/Apply/Outcome.antt =====
-- The steps from the backup on, together: what every result of `install` leaves behind.
use zimaos_monitor.Base.{some, Bytes, codes, ◌≡◌, ◌≢◌, ap, sym, ◌∙◌}
use zimaos_monitor.SelfUpdate.Host.{Environment, World, Result, ok, err, bind_result, ◌>>=◌}
use zimaos_monitor.SelfUpdate.Apply.{
  ApplyOptions, restore_failed, restart_failed, UpdateError, backup_failed, replace_failed,
  remove_backup, rolled_back, rollback_failed, backup_path, copy_file, replace, check_or_rollback,
  remove_if_there, finish, switch, install,
}
use zimaos_monitor.SelfUpdate.Apply.Spec.{RunsOn, Outcome}
use zimaos_monitor.SelfUpdate.Apply.Install.{
  ne-append, Copied, copy_file_lem, Replaced, replace_lem, Settled, check_or_rollback_lem, Cleared,
  remove_if_there_lem,
}

module _ (env : Environment) (opts : ApplyOptions) (Good : Bytes → Type 0) (old new : Bytes) where
  exe-ne-backup : opts.executable_path ≢ backup_path opts
  exe-ne-backup = ne-append opts.executable_path (codes ".previous") (cc)

  finish_lem :
      (w : World)
      → Good new
      → w.files opts.executable_path ≡ some new
      → w.files (backup_path opts) ≡ some old
      → let (r, w') = finish env opts w in Outcome opts Good old r w'
  unfolding finish ◌>>=◌
  finish_lem w good exe backup =
      go (check_or_rollback env opts w).0 (check_or_rollback env opts w).1
        (check_or_rollback_lem env opts w)
    where
      clear :
          (r : Result UpdateError (Unit {0})) (w₁ w₂ : World)
          → w₁.files opts.executable_path ≡ some new
          → w₁.files (backup_path opts) ≡ some old
          → RunsOn opts new w₁
          → Cleared env (backup_path opts) w₁ r w₂
          → Outcome opts Good old r w₂
      clear (ok _) w₁ w₂ e b (files, before, on, ran) (gone, calls, kept) =
          (new, good, kept _ exe-ne-backup ∙ e, gone, (files, before, on, calls ∙ ran))
      clear (err remove_backup) w₁ w₂ e b (files, before, on, ran) (kept, calls) = (
        new,
        good,
        ap (λ f. f opts.executable_path) kept ∙ e,
        ap (λ f. f (backup_path opts)) kept ∙ b,
        (files, before, on, calls ∙ ran),
      )
      clear (err _) w₁ w₂ e b ran h = absurd h

      go :
          (r : Result UpdateError (Unit {0})) (w₁ : World)
          → Settled env opts w r w₁
          → let (r', w₂) = bind_result r w₁ (λ _. remove_if_there env (backup_path opts)) in
            Outcome opts Good old r' w₂
      go (ok _) w₁ (same, calls) =
          clear (remove_if_there env (backup_path opts) w₁).0 w₁
            (remove_if_there env (backup_path opts) w₁).1
            (ap (λ f. f opts.executable_path) same ∙ exe)
            (ap (λ f. f (backup_path opts)) same ∙ backup) (w.files, w.calls, exe, calls)
            (remove_if_there_lem env (backup_path opts) w₁)
      go (err (rolled_back e)) w₁ (back, there, (calls, ran)) =
          (back ∙ backup, (w₁.files, calls, back ∙ backup, ran))
      go (err (rollback_failed e restart_failed)) w₁ back = back ∙ backup
      go (err (rollback_failed e restore_failed)) w₁ same =
          ap (λ f. f (backup_path opts)) same ∙ backup
      go (err _) w₁ h = absurd h

  switch_lem :
      (candidate : Bytes) (w : World)
      → Good new
      → candidate ≢ opts.executable_path
      → candidate ≢ backup_path opts
      → w.files opts.executable_path ≡ some old
      → w.files candidate ≡ some new
      → w.files (backup_path opts) ≡ some old
      → let (r, w') = switch env opts candidate w in Outcome opts Good old r w'
  unfolding switch ◌>>=◌
  switch_lem candidate w good ne ne' exe cand backup =
      go (replace env opts candidate w).0 (replace env opts candidate w).1
        (replace_lem env opts candidate w)
    where
      go :
          (r : Result UpdateError (Unit {0})) (w₁ : World)
          → Replaced env opts.executable_path (backup_path opts) candidate w r w₁
          → let (r', w₂) = bind_result r w₁ (λ _. finish env opts) in Outcome opts Good old r' w₂
      go (ok _) w₁ (moved, _, kept) =
          finish_lem w₁ good (moved ∙ cand)
            (kept (backup_path opts) (λ e. exe-ne-backup (sym e)) (λ e. ne' (sym e)) ∙ backup)
      go (err replace_failed) w₁ kept = kept opts.executable_path exe-ne-backup ∙ exe
      go (err _) w₁ h = absurd h

  -- From an installed binary and a candidate in another file, every result of the steps from the
  -- backup on leaves the state that `Outcome` describes.
  pub install_lem :
      (candidate : Bytes) (w : World)
      → Good new
      → candidate ≢ opts.executable_path
      → candidate ≢ backup_path opts
      → w.files opts.executable_path ≡ some old
      → w.files candidate ≡ some new
      → let (r, w') = install env opts candidate w in Outcome opts Good old r w'
  unfolding install ◌>>=◌
  install_lem candidate w good ne ne' exe cand =
      go (copy_file env opts.executable_path (backup_path opts) w).0
        (copy_file env opts.executable_path (backup_path opts) w).1
        (copy_file_lem env opts.executable_path (backup_path opts) w)
    where
      go :
          (r : Result UpdateError (Unit {0})) (w₁ : World)
          → Copied env opts.executable_path (backup_path opts) w r w₁
          → let (r', w₂) = bind_result r w₁ (λ _. switch env opts candidate) in
            Outcome opts Good old r' w₂
      go (ok _) w₁ (copied, kept) =
          switch_lem candidate w₁ good ne ne' (kept opts.executable_path exe-ne-backup ∙ exe)
            (kept candidate ne' ∙ cand) (copied ∙ exe)
      go (err backup_failed) w₁ kept = kept opts.executable_path exe-ne-backup ∙ exe
      go (err _) w₁ h = absurd h
