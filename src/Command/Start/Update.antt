-- ===== src/Command/Start/Update.antt =====
-- What the command `update` leaves of the installed binary.
use zimaos_monitor.Base.{
  Bool, true, false, List, [], ◌∷◌, some, Bytes, ◌≡◌, ◌≢◌, ◌⊎◌, inl, inr, refl,
}
use zimaos_monitor.SelfUpdate.Host.{Environment, World, Result, ok, err}
use zimaos_monitor.SelfUpdate.Apply.{UpdateError, apply, set_apply_defaults}
use zimaos_monitor.SelfUpdate.Apply.Spec.{Outcome}
use zimaos_monitor.SelfUpdate.Apply.Select.{IsFresh, IsUpdate}
use zimaos_monitor.SelfUpdate.Apply.Safety.{apply_lem}
use zimaos_monitor.Command.Start.{
  Exit, finished, update_error, update_options, report_update, run_update_command,
}

module _ (env : Environment) (version path old : Bytes) where
  -- What an update from the installed binary `old` comes to.
  abbrev pub Ends : Result UpdateError (Unit {0}) → World → Type 0
  Ends =
      Outcome (set_apply_defaults (update_options version path))
        (IsUpdate env (set_apply_defaults (update_options version path))) old

  -- The command reports how the update ended.
  abbrev pub Reported : Exit × World → Type 0
  Reported (exit, w) =
      ((exit ≡ finished) × Ends (ok tt) w)
      ⊎ ((e : UpdateError) × (exit ≡ update_error e) × Ends (err e) w)

  report_update-Reported :
      (r : Result UpdateError (Unit {0})) (w : World) → Ends r w → Reported (report_update (r, w))
  report_update-Reported (ok tt) w h = inl (refl, h)
  report_update-Reported (err e) w h = inr (e, refl, h)

  -- The command `update` of a binary that is installed at its own path, if new directories hold
  -- neither it nor its backup: with a positional argument or without root it fails and changes
  -- nothing; otherwise it finishes exactly if the update succeeds, and leaves what the update does.
  pub run_update_command-Reported :
      (is_root : Bool) (args : List Bytes) (w : World)
      → IsFresh env (update_options version path)
      → w.files path ≡ some old
      → let done = run_update_command env version is_root (some path) args w in
        (((args ≢ []) ⊎ (is_root ≡ false)) × (done.0 ≢ finished) × (done.1 ≡ w))
        ⊎ ((args ≡ []) × (is_root ≡ true) × Reported done)
  unfolding run_update_command
  run_update_command-Reported is_root (arg ∷ args) w fresh exe =
      inl (inl (λ e. cc e), λ e. cc e, refl)
  run_update_command-Reported false [] w fresh exe = inl (inr refl, λ e. cc e, refl)
  run_update_command-Reported true [] w fresh exe =
      let result = apply env (update_options version path) w in
      inr (
        refl,
        refl,
        report_update-Reported result.0 result.1
            (apply_lem env (update_options version path) old w fresh exe),
      )
