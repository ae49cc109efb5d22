-- ===== src/SelfUpdate/Apply/Safety.antt =====
-- `Apply` from its start to its end, whatever the network, the disk and the service do.
use zimaos_monitor.Base.{ℕ, false, [], some, Bytes, codes, ◌≡◌, ◌≢◌, refl, arith, ap, sym, ◌∙◌}
use zimaos_monitor.Text.{has_prefix}
use zimaos_monitor.SelfUpdate.Release.{Release}
use zimaos_monitor.SelfUpdate.Host.{
  Environment, World, Result, ok, err, bind_result, ◌>>=◌, relabel, as_error, join_path, remove_all,
  finally,
}
use zimaos_monitor.SelfUpdate.Download.{PrepareError}
use zimaos_monitor.SelfUpdate.Apply.{
  ApplyOptions, UpdateError, prepare_error, remove_backup, rolled_back, rollback_failed,
  restore_failed, restart_failed, backup_failed, replace_failed, set_apply_defaults, lock_path,
  backup_path, candidate_path, select_release, make_dir, prepare, install, update_in, apply_with,
  apply,
}
use zimaos_monitor.SelfUpdate.Apply.Spec.{Outcome}
use zimaos_monitor.SelfUpdate.Apply.Install.{ne-append}
use zimaos_monitor.SelfUpdate.Apply.Outcome.{install_lem}
use zimaos_monitor.SelfUpdate.Apply.Prepare.{Keeps-prepare, prepare-eq-ok}
use zimaos_monitor.SelfUpdate.Apply.Select.{
  IsFresh, Selected, IsUpdate, join_path-ne, Keeps-select_release, select_release-eq-ok,
  Keeps-make_dir, make_dir-eq-ok,
}

module _ (env : Environment) (opts : ApplyOptions) (Good : Bytes → Type 0) (old : Bytes) where
  -- The deferred removal of the directory does not touch what `Outcome` speaks of.
  Outcome-remove_all :
      (dir : Bytes) (r : Result UpdateError (Unit {0})) (w : World)
      → has_prefix opts.executable_path (join_path dir []) ≡ false
      → has_prefix (backup_path opts) (join_path dir []) ≡ false
      → Outcome opts Good old r w
      → Outcome opts Good old r (remove_all env dir w)
  Outcome-remove_all dir r w fresh fresh' h = go r h
    where
      same : (remove_all env dir w).files opts.executable_path ≡ w.files opts.executable_path
      same = unfold remove_all in ground arith

      same' : (remove_all env dir w).files (backup_path opts) ≡ w.files (backup_path opts)
      same' = unfold remove_all in ground arith

      calls : (remove_all env dir w).calls ≡ w.calls
      calls = unfold remove_all in refl

      go :
          (r : Result UpdateError (Unit {0}))
          → Outcome opts Good old r w
          → Outcome opts Good old r (remove_all env dir w)
      go (ok _) (new, good, exe, gone, (files, before, on, ran)) =
          (new, good, same ∙ exe, same' ∙ gone, (files, before, on, calls ∙ ran))
      go (err remove_backup) (new, good, exe, kept, (files, before, on, ran)) =
          (new, good, same ∙ exe, same' ∙ kept, (files, before, on, calls ∙ ran))
      go (err (rolled_back e)) (exe, (files, before, on, ran)) =
          (same ∙ exe, (files, before, on, calls ∙ ran))
      go (err (rollback_failed e restore_failed)) back = same' ∙ back
      go (err (rollback_failed e restart_failed)) exe = same ∙ exe
      go (err (prepare_error e)) exe = same ∙ exe
      go (err backup_failed) exe = same ∙ exe
      go (err replace_failed) exe = same ∙ exe

module _ (env : Environment) (opts : ApplyOptions) (fresh : IsFresh env opts) (old : Bytes) where
  update_in_lem :
      (release : Release) (dir : Bytes) (t : ℕ) (w : World)
      → env.new_dir t ≡ dir
      → Selected env opts release
      → w.files opts.executable_path ≡ some old
      → let (r, w') = update_in env opts release dir w in Outcome opts (IsUpdate env opts) old r w'
  unfolding update_in ◌>>=◌ as_error
  update_in_lem release dir t w made selected exe =
      go (prepare env release dir w).0 (prepare env release dir w).1 refl
    where
      clear : has_prefix opts.executable_path (join_path dir []) ≡ false
      clear = rw made at (fresh t).0

      clear' : has_prefix (backup_path opts) (join_path dir []) ≡ false
      clear' = rw made at (fresh t).1

      kept : (prepare env release dir w).1.files opts.executable_path ≡ w.files opts.executable_path
      kept =
          (Keeps-prepare env opts.executable_path release dir (join_path-ne _ dir _ clear)
              (join_path-ne _ dir _ clear)).at_end
            w

      go :
          (r : Result PrepareError (Unit {0})) (w₁ : World)
          → prepare env release dir w ≡ (r, w₁)
          → let (r', w₂) =
              bind_result
                (relabel prepare_error r)
                w₁
                (λ _. install env opts (candidate_path dir)) in
            Outcome opts (IsUpdate env opts) old r' w₂
      go (ok u) w₁ e =
          let (new, verified, there) = prepare-eq-ok env release dir w w₁ u e in
          install_lem env opts (IsUpdate env opts) old new (candidate_path dir) w₁
            (release, selected, verified) (λ q. join_path-ne _ dir _ clear (sym q))
            (λ q. join_path-ne _ dir _ clear' (sym q))
            (cc (
              kept,
              exe,
              ap (λ (x : Result PrepareError (Unit {0}) × World). x.1.files opts.executable_path) e,
            ))
            there
      go (err x) w₁ e = cc (
        kept,
        exe,
        ap (λ (x : Result PrepareError (Unit {0}) × World). x.1.files opts.executable_path) e,
      )

  -- The steps behind the choice of the release, with their directory removed again.
  within_dir_lem :
      (release : Release) (r : Result PrepareError Bytes) (w w₁ : World)
      → make_dir env w ≡ (r, w₁)
      → Selected env opts release
      → w₁.files opts.executable_path ≡ some old
      → let (r', w₂) =
          bind_result
            (relabel prepare_error r)
            w₁
            (λ dir. finally (remove_all env dir) (update_in env opts release dir)) in
        Outcome opts (IsUpdate env opts) old r' w₂
  unfolding finally
  within_dir_lem release (ok dir) w w₁ e selected exe =
      let (t, made) = make_dir-eq-ok env opts w w₁ dir e in
      Outcome-remove_all env opts (IsUpdate env opts) old dir _ _ (rw made at (fresh t).0)
        (rw made at (fresh t).1) (update_in_lem release dir t w₁ made selected exe)
  within_dir_lem release (err x) w w₁ e selected exe = exe

  exe-ne-lock : opts.executable_path ≢ lock_path opts
  exe-ne-lock = ne-append opts.executable_path (codes ".update.lock") (cc)

  apply_with_lem :
      (w : World)
      → w.files opts.executable_path ≡ some old
      → let (r, w') = apply_with env opts w in Outcome opts (IsUpdate env opts) old r w'
  unfolding apply_with ◌>>=◌ as_error
  apply_with_lem w exe = go (select_release env opts w).0 (select_release env opts w).1 refl
    where
      start : (select_release env opts w).1.files opts.executable_path ≡ some old
      start = (Keeps-select_release env opts _ exe-ne-lock).at_end w ∙ exe

      go :
          (r : Result PrepareError Release) (w₁ : World)
          → select_release env opts w ≡ (r, w₁)
          → let (r', w₂) = bind_result (relabel prepare_error r) w₁ (λ release w₃.
            let (r, w₄) = make_dir env w₃ in
            bind_result
              (relabel prepare_error r)
              w₄
              (λ dir. finally (remove_all env dir) (update_in env opts release dir))) in
            Outcome opts (IsUpdate env opts) old r' w₂
      go (ok release) w₁ e =
          within_dir_lem release (make_dir env w₁).0 w₁ (make_dir env w₁).1 refl
            (select_release-eq-ok env opts w w₁ release e)
            ((Keeps-make_dir env opts opts.executable_path).at_end w₁
              ∙ sym (
                  ap (λ (x : Result PrepareError Release × World). x.1.files opts.executable_path)
                    e)
              ∙ start)
      go (err x) w₁ e =
          sym (ap (λ (x : Result PrepareError Release × World). x.1.files opts.executable_path) e)
          ∙ start

-- `Apply` from an installed binary `old`, whatever the network, the disk, the service and the
-- context do, if new directories hold neither the binary nor its backup. On success the installed
-- binary is a verified one of a newer release, the backup is gone, and the service was restarted
-- and found active with that binary. If only the removal of the backup fails, the same holds with
-- `old` in the backup. After a rollback the installed binary is `old` and the service was restarted
-- with it. If the backup cannot be moved back, it holds `old`. After every other error the
-- installed binary is `old`.
pub apply_lem :
    (env : Environment) (opts : ApplyOptions) (old : Bytes) (w : World)
    → IsFresh env opts
    → w.files opts.executable_path ≡ some old
    → let (r, w') = apply env opts w in
      Outcome (set_apply_defaults opts) (IsUpdate env (set_apply_defaults opts)) old r w'
unfolding apply
apply_lem env opts old w fresh exe = apply_with_lem env (set_apply_defaults opts) fresh old w exe
