-- ===== src/SelfUpdate/Apply/Install.antt =====
-- What the steps from the backup on do to the installed binary and to its backup.
use zimaos_monitor.Base.{
  [], ◌∷◌, none, Bytes, ◌≡◌, ◌≢◌, refl, arith, ◌++◌, ap, length, length-append, ◌∙◌,
}
use zimaos_monitor.SelfUpdate.Host.{Environment, World, Result, ok, err, handle_result}
use zimaos_monitor.SelfUpdate.Apply.{
  ApplyOptions, HealthError, RollbackError, restore_failed, restart_failed, UpdateError,
  backup_failed, replace_failed, remove_backup, rolled_back, rollback_failed, report_rollback,
  backup_path, copy_file, replace, restart_and_check, rollback, check_or_rollback, remove_if_there,
}
use zimaos_monitor.SelfUpdate.Apply.Spec.{restart_args, is_active_args, done, LastDone}

-- A text and the same with something behind it differ.
pub ne-append : (p s : Bytes) → s ≢ [] → p ≢ p ++ s
ne-append p [] h e = h refl
ne-append p (c ∷ s) h e = absurd (omega (arith, ap length e, length-append p (c ∷ s)))

module _ (env : Environment) where
  -- After a copy the target has the source's content, and nothing else changed; after a failure
  -- only the target may have changed.
  abbrev pub Copied : Bytes → Bytes → World → Result UpdateError (Unit {0}) → World → Type 0
  Copied source target w (ok _) w' =
      (w'.files target ≡ w.files source) × ((p : Bytes) → p ≢ target → w'.files p ≡ w.files p)
  Copied source target w (err backup_failed) w' = (p : Bytes) → p ≢ target → w'.files p ≡ w.files p
  Copied source target w (err _) w' = ⊥

  pub copy_file_lem :
      (source target : Bytes) (w : World)
      → let (r, w') = copy_file env source target w in Copied source target w r w'
  unfolding copy_file
  copy_file_lem source target w = ground arith

  -- After a replacement the binary has the candidate's content; after a failure nothing but the
  -- backup may have changed.
  abbrev pub Replaced :
      Bytes → Bytes → Bytes → World → Result UpdateError (Unit {0}) → World → Type 0
  Replaced exe backup candidate w (ok _) w' =
      (w'.files exe ≡ w.files candidate)
      × (w.files candidate ≢ none)
      × ((p : Bytes) → p ≢ exe → p ≢ candidate → w'.files p ≡ w.files p)
  Replaced exe backup candidate w (err replace_failed) w' =
      (p : Bytes) → p ≢ backup → w'.files p ≡ w.files p
  Replaced exe backup candidate w (err _) w' = ⊥

  pub replace_lem :
      (opts : ApplyOptions) (candidate : Bytes) (w : World)
      → let (r, w') = replace env opts candidate w in
        Replaced opts.executable_path (backup_path opts) candidate w r w'
  unfolding replace
  replace_lem opts candidate w = ground arith

  abbrev Restarted : ApplyOptions → World → Result HealthError (Unit {0}) → World → Type 0
  Restarted opts w (ok _) w' =
      (w'.files ≡ w.files)
      × (w'.calls ≡ done (is_active_args opts) w.files ∷ done (restart_args opts) w.files ∷ w.calls)
  Restarted opts w (err e) w' = w'.files ≡ w.files

  restart_and_check_lem :
      (opts : ApplyOptions) (w : World)
      → let (r, w') = restart_and_check env opts w in Restarted opts w r w'
  unfolding restart_and_check
  restart_and_check_lem opts w = ground arith

  abbrev RolledBack : ApplyOptions → World → Result RollbackError (Unit {0}) → World → Type 0
  RolledBack opts w (ok _) w' =
      (w'.files opts.executable_path ≡ w.files (backup_path opts))
      × (w.files (backup_path opts) ≢ none)
      × (w'.calls ≡ done (restart_args opts) w'.files ∷ w.calls)
  RolledBack opts w (err restart_failed) w' =
      w'.files opts.executable_path ≡ w.files (backup_path opts)
  RolledBack opts w (err restore_failed) w' = w'.files ≡ w.files

  rollback_lem :
      (opts : ApplyOptions) (w : World)
      → let (r, w') = rollback env opts w in RolledBack opts w r w'
  unfolding rollback
  rollback_lem opts w = ground arith

  abbrev pub Settled : ApplyOptions → World → Result UpdateError (Unit {0}) → World → Type 0
  Settled opts w (ok _) w' =
      (w'.files ≡ w.files)
      × (w'.calls ≡ done (is_active_args opts) w.files ∷ done (restart_args opts) w.files ∷ w.calls)
  Settled opts w (err (rolled_back e)) w' =
      (w'.files opts.executable_path ≡ w.files (backup_path opts))
      × (w.files (backup_path opts) ≢ none)
      × LastDone (restart_args opts) w'
  Settled opts w (err (rollback_failed e restart_failed)) w' =
      w'.files opts.executable_path ≡ w.files (backup_path opts)
  Settled opts w (err (rollback_failed e restore_failed)) w' = w'.files ≡ w.files
  Settled opts w (err _) w' = ⊥

  pub check_or_rollback_lem :
      (opts : ApplyOptions) (w : World)
      → let (r, w') = check_or_rollback env opts w in Settled opts w r w'
  unfolding check_or_rollback
  check_or_rollback_lem opts w =
      settle (restart_and_check env opts w).0 (restart_and_check env opts w).1
        (restart_and_check_lem opts w)
    where
      back :
          (e : HealthError) (w₁ w₂ : World) (r : Result RollbackError (Unit {0}))
          → w₁.files ≡ w.files
          → RolledBack opts w₁ r w₂
          → Settled opts w (report_rollback e r) w₂
      back e w₁ w₂ (ok _) same (exe, there, calls) =
          (exe ∙ ap (λ f. f (backup_path opts)) same, rw same at there, (w₁.calls, calls))
      back e w₁ w₂ (err restart_failed) same exe = exe ∙ ap (λ f. f (backup_path opts)) same
      back e w₁ w₂ (err restore_failed) same kept = kept ∙ same

      settle :
          (r : Result HealthError (Unit {0})) (w₁ : World)
          → Restarted opts w r w₁
          → let (r', w₂) =
              handle_result r w₁
                (λ e w₃. let (back, w₄) = rollback env opts w₃ in (report_rollback e back, w₄)) in
            Settled opts w r' w₂
      settle (ok tt) w₁ h = h
      settle (err e) w₁ same =
          back e w₁ (rollback env opts w₁).1 (rollback env opts w₁).0 same (rollback_lem opts w₁)

  abbrev pub Cleared : Bytes → World → Result UpdateError (Unit {0}) → World → Type 0
  Cleared path w (ok _) w' =
      (w'.files path ≡ none)
      × (w'.calls ≡ w.calls)
      × ((p : Bytes) → p ≢ path → w'.files p ≡ w.files p)
  Cleared path w (err remove_backup) w' = (w'.files ≡ w.files) × (w'.calls ≡ w.calls)
  Cleared path w (err _) w' = ⊥

  pub remove_if_there_lem :
      (path : Bytes) (w : World) → let (r, w') = remove_if_there env path w in Cleared path w r w'
  unfolding remove_if_there
  remove_if_there_lem path w = ground arith
