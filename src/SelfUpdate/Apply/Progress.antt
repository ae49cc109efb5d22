-- ===== src/SelfUpdate/Apply/Progress.antt =====
-- The steps from the backup on, on a machine where nothing fails.
use mathlib.Core.Path.{subst}
use zimaos_monitor.Base.{
  ℕ, ◌+◌, true, false, List, [], ◌∷◌, none, some, Bytes, codes, ◌≡◌, ◌≢◌, refl, arith, ap, ◌∙◌,
}
use zimaos_monitor.SelfUpdate.Host.{
  Environment, World, Result, ok, err, Io, bind_result, ◌>>=◌, ◌>>◌,
}
use zimaos_monitor.SelfUpdate.Apply.{
  ApplyOptions, UpdateError, backup_path, copy_file, replace, restart_and_check, check_or_rollback,
  remove_if_there, finish, switch, install,
}
use zimaos_monitor.SelfUpdate.Apply.Install.{Copied, copy_file_lem}
use zimaos_monitor.SelfUpdate.Apply.Spec.{Outcome, RunsOn}
use zimaos_monitor.SelfUpdate.Apply.Outcome.{install_lem}

-- No system call and no command fails, and the context is not cancelled.
pub record IsSmooth (env : Environment) : Type 0 where
  pub calls : (t : ℕ) → env.fails t ≡ false
  pub commands : (t : ℕ) (args : List Bytes) → env.command_succeeds t args ≡ true
  pub live : (t : ℕ) → env.cancelled t ≡ false

module _ (env : Environment) (smooth : IsSmooth env) where
  copy_file-ok :
      (source target content : Bytes) (w : World)
      → w.files source ≡ some content
      → (copy_file env source target w).0 ≡ ok tt
  unfolding copy_file
  copy_file-ok source target content w there = ground (
    arith,
    smooth.calls w.clock,
    smooth.calls (w.clock + 1),
    smooth.calls (w.clock + 1 + 1),
    smooth.calls (w.clock + 1 + 1 + 1),
    smooth.calls (w.clock + 1 + 1 + 1 + 1),
    smooth.calls (w.clock + 1 + 1 + 1 + 1 + 1),
  )

  replace-ok :
      (opts : ApplyOptions) (candidate new : Bytes) (w : World)
      → w.files candidate ≡ some new
      → (replace env opts candidate w).0 ≡ ok tt
  unfolding replace
  replace-ok opts candidate new w there =
      ground (arith, smooth.calls w.clock, smooth.calls (w.clock + 1))

  check_or_rollback-ok :
      (opts : ApplyOptions) (w : World) → (check_or_rollback env opts w).0 ≡ ok tt
  unfolding check_or_rollback restart_and_check
  check_or_rollback-ok opts w = ground (
    arith,
    smooth.commands w.clock (codes "systemctl" ∷ codes "restart" ∷ opts.service_name ∷ []),
    smooth.live (w.clock + 1),
    smooth.commands (w.clock + 1 + 1)
        (codes "systemctl" ∷ codes "is-active" ∷ codes "--quiet" ∷ opts.service_name ∷ []),
  )

  remove_if_there-ok : (path : Bytes) (w : World) → (remove_if_there env path w).0 ≡ ok tt
  unfolding remove_if_there
  remove_if_there-ok path w = ground (arith, smooth.calls w.clock)

  then-ok :
      (m k : Io UpdateError (Unit {0})) (w : World)
      → (m w).0 ≡ ok tt
      → (k (m w).1).0 ≡ ok tt
      → ((m >> k) w).0 ≡ ok tt
  unfolding ◌>>=◌
  then-ok m k w first second = go (m w).0 first
    where
      go :
          (r : Result UpdateError (Unit {0}))
          → r ≡ ok tt
          → (bind_result r (m w).1 (λ _. k)).0 ≡ ok tt
      go (ok _) e = second
      go (err x) e = cc

  kept_candidate :
      (source target candidate : Bytes) (w w₁ : World) (r : Result UpdateError (Unit {0}))
      → candidate ≢ target
      → Copied env source target w r w₁
      → r ≡ ok tt
      → w₁.files candidate ≡ w.files candidate
  kept_candidate source target candidate w w₁ (ok _) ne (_, kept) e = kept candidate ne
  kept_candidate source target candidate w w₁ (err x) ne h e = cc

  install_result :
      (opts : ApplyOptions) (candidate old new : Bytes) (w : World)
      → candidate ≢ backup_path opts
      → w.files opts.executable_path ≡ some old
      → w.files candidate ≡ some new
      → (install env opts candidate w).0 ≡ ok tt
  unfolding install switch finish
  install_result opts candidate old new w ne exe cand =
      let w₁ = (copy_file env opts.executable_path (backup_path opts) w).1 in
      let copied = copy_file-ok opts.executable_path (backup_path opts) old w exe in
      let there =
        kept_candidate opts.executable_path (backup_path opts) candidate w w₁ _ ne
          (copy_file_lem env opts.executable_path (backup_path opts) w) copied in
      let w₂ = (replace env opts candidate w₁).1 in
      let w₃ = (check_or_rollback env opts w₂).1 in
      then-ok (copy_file env opts.executable_path (backup_path opts)) _ w copied (
        then-ok (replace env opts candidate) _ w₁ (replace-ok opts candidate new w₁ (there ∙ cand))
          (then-ok (check_or_rollback env opts) _ w₂ (check_or_rollback-ok opts w₂)
            (remove_if_there-ok (backup_path opts) w₃)))

-- Where no system call and no command fails and the context lives on, the steps from the backup on
-- succeed: the candidate's content is installed, the backup is gone, and the service was restarted
-- and found active with it.
pub install-ok :
    (env : Environment) (opts : ApplyOptions) (candidate old new : Bytes) (w : World)
    → IsSmooth env
    → candidate ≢ opts.executable_path
    → candidate ≢ backup_path opts
    → w.files opts.executable_path ≡ some old
    → w.files candidate ≡ some new
    → let (r, w') = install env opts candidate w in
      (r ≡ ok tt)
      × (w'.files opts.executable_path ≡ some new)
      × (w'.files (backup_path opts) ≡ none)
      × RunsOn opts new w'
install-ok env opts candidate old new w smooth ne ne' exe cand =
    go (install env opts candidate w).0
      (install_result env smooth opts candidate old new w ne' exe cand)
      (install_lem env opts (λ x. x ≡ new) old new candidate w refl ne ne' exe cand)
  where
    go :
        (r : Result UpdateError (Unit {0}))
        → r ≡ ok tt
        → Outcome opts (λ x. x ≡ new) old r (install env opts candidate w).1
        → let w' = (install env opts candidate w).1 in
          (r ≡ ok tt)
          × (w'.files opts.executable_path ≡ some new)
          × (w'.files (backup_path opts) ≡ none)
          × RunsOn opts new w'
    go (ok _) e (x, same, installed, gone, runs) = (
      e,
      installed ∙ ap some same,
      gone,
      subst (λ y. RunsOn opts y (install env opts candidate w).1) same runs,
    )
    go (err x) e h = cc
