-- ===== src/SelfUpdate/Apply/Whole.antt =====
-- `Apply` from its start to its end, on a machine where nothing fails and with a release in order.
use mathlib.Core.List.{append_cancel_left}
use zimaos_monitor.Base.{
  codes, ℕ, ◌+◌, true, false, [], ◌∷◌, none, some, Bytes, ◌≡◌, ◌≢◌, refl, arith, ap, sym, ◌∙◌,
}
use zimaos_monitor.Text.{has_prefix, is_empty}
use zimaos_monitor.SelfUpdate.Version.{is_newer}
use zimaos_monitor.SelfUpdate.Release.{Release, found, fetch_latest}
use zimaos_monitor.SelfUpdate.Host.{
  Environment, World, Result, ok, err, Io, bind_result, ◌>>=◌, as_error, relabel, join_path,
  attempt, remove_all, finally,
}
use zimaos_monitor.SelfUpdate.Download.{PrepareError}
use zimaos_monitor.SelfUpdate.Extract.{binary_name}
use zimaos_monitor.SelfUpdate.Apply.{
  ApplyOptions, UpdateError, prepare_error, set_apply_defaults, lock_path, backup_path,
  archive_path, candidate_path, acquire_lock, approve, select_release, make_dir, prepare, install,
  update_in, apply_with, apply,
}
use zimaos_monitor.SelfUpdate.Apply.Select.{IsFresh, join_path-ne}
use zimaos_monitor.SelfUpdate.Apply.Prepare.{Keeps-prepare}
use zimaos_monitor.SelfUpdate.Apply.Install.{ne-append}
use zimaos_monitor.SelfUpdate.Apply.Spec.{RunsOn}
use zimaos_monitor.SelfUpdate.Apply.Progress.{IsSmooth, install-ok}
use zimaos_monitor.SelfUpdate.Apply.Completes.{InOrder, prepare-ok}

-- The server offers this release, which is newer and has an artifact under another name than the
-- binary's.
pub record Offered (env : Environment) (opts : ApplyOptions) (release : Release) : Type 0 where
  pub answered :
      (t : ℕ) → fetch_latest env.decode_release (env.answer t opts.endpoint) ≡ found release
  pub newer : is_newer opts.current_version release.version ≡ true
  pub artifact : release.asset_url ≢ []
  pub other_name : binary_name ≢ release.asset_name

-- New directories are empty, and hold neither the binary nor its backup nor its lock.
pub record IsEmptyDir (env : Environment) (opts : ApplyOptions) (w : World) : Type 0 where
  pub fresh : IsFresh env opts
  pub no_lock : (t : ℕ) → has_prefix (lock_path opts) (join_path (env.new_dir t) []) ≡ false
  pub empty : (t : ℕ) (name : Bytes) → w.files (join_path (env.new_dir t) name) ≡ none

is_empty-eq-false : (s : Bytes) → s ≢ [] → is_empty s ≡ false
is_empty-eq-false [] h = absurd (h refl)
is_empty-eq-false (c ∷ s) h = refl

module _ (env : Environment) (smooth : IsSmooth env) (opts : ApplyOptions) where
  select_release-ok :
      (release : Release) (w : World)
      → Offered env opts release
      → release.sha256 ≢ []
      → let (r, w') = select_release env opts w in
        (r ≡ ok release) × ((p : Bytes) → p ≢ lock_path opts → w'.files p ≡ w.files p)
  unfolding select_release acquire_lock approve attempt ◌>>=◌
  select_release-ok release w o stated =
      let no_digest = is_empty-eq-false release.sha256 stated in
      let no_artifact = is_empty-eq-false release.asset_url o.artifact in
      rw
        (
          smooth.calls w.clock,
          smooth.calls (w.clock + 1),
          o.answered (w.clock + 1 + 1),
          o.newer,
          no_artifact,
          no_digest,
        )
        (refl, λ p ne. ground arith)

  make_dir-ok :
      (w : World)
      → (t : ℕ) × ((make_dir env w).0 ≡ ok (env.new_dir t)) × ((make_dir env w).1.files ≡ w.files)
  unfolding make_dir attempt ◌>>=◌
  make_dir-ok w = (w.clock + 1, rw (smooth.calls w.clock) refl, rw (smooth.calls w.clock) refl)

  -- The new binary is installed, the backup is gone, and the service runs on the new binary.
  unfoldable Installed : Bytes → Result UpdateError (Unit {0}) × World → Type 0
  Installed new (r, w) =
      (r ≡ ok tt)
      × (w.files opts.executable_path ≡ some new)
      × (w.files (backup_path opts) ≡ none)
      × RunsOn opts new w

  bind-as_error :
      {A : Type 0} (P : Result UpdateError (Unit {0}) × World → Type 0) (m : Io PrepareError A)
      (f : A → Io UpdateError (Unit {0})) (a : A) (w : World)
      → (m w).0 ≡ ok a
      → P (f a (m w).1)
      → P ((as_error prepare_error m >>= f) w)
  unfolding ◌>>=◌ as_error
  bind-as_error {A} P m f a w e h = go (m w).0 e
    where
      go :
          (r : Result PrepareError A)
          → r ≡ ok a
          → P (bind_result (relabel prepare_error r) (m w).1 f)
      go (ok x) k = let same : x ≡ a = cc k in rw same h
      go (err x) k = absurd (cc k)

  candidate-ne-archive :
      (dir : Bytes) (release : Release)
      → binary_name ≢ release.asset_name
      → candidate_path dir ≢ archive_path dir release
  candidate-ne-archive dir release other e =
      let tails : b'/' ∷ binary_name ≡ b'/' ∷ release.asset_name =
        append_cancel_left dir (b'/' ∷ binary_name) (b'/' ∷ release.asset_name) e in
      other (cc tails)

  update_in-ok :
      (release : Release) (old new : Bytes) (t : ℕ) (w : World)
      → InOrder env release new
      → IsFresh env opts
      → binary_name ≢ release.asset_name
      → ((name : Bytes) → w.files (join_path (env.new_dir t) name) ≡ none)
      → w.files opts.executable_path ≡ some old
      → Installed new (update_in env opts release (env.new_dir t) w)
  unfolding update_in Installed
  update_in-ok release old new t w o fresh other empty exe =
      let dir = env.new_dir t in
      let apart : (name : Bytes) → opts.executable_path ≢ join_path dir name =
        λ name. join_path-ne _ dir name (fresh t).0 in
      let (prepared, there) =
        prepare-ok env smooth release dir new w o (candidate-ne-archive dir release other) (empty _)
          (empty _) in
      let kept =
        (Keeps-prepare env opts.executable_path release dir (apart _) (apart _)).at_end w in
      bind-as_error (Installed new) (prepare env release dir)
        (λ _. install env opts (candidate_path dir)) tt w prepared
        (install-ok env opts (candidate_path dir) old new _ smooth (λ q. apart _ (sym q))
          (λ q. join_path-ne _ dir _ (fresh t).1 (sym q)) (kept ∙ exe) there)

  Installed-remove_all :
      (new dir : Bytes) (m : Io UpdateError (Unit {0})) (w : World)
      → has_prefix opts.executable_path (join_path dir []) ≡ false
      → has_prefix (backup_path opts) (join_path dir []) ≡ false
      → Installed new (m w)
      → Installed new (finally (remove_all env dir) m w)
  unfolding Installed finally remove_all
  Installed-remove_all new dir m w clear clear' (e, exe, gone, runs) =
      (e, rw clear (ground (arith, exe)), rw clear' (ground (arith, gone)), runs)

  lock-ne : opts.executable_path ≢ lock_path opts
  lock-ne = ne-append opts.executable_path (codes ".update.lock") (cc)

  apply_with-ok :
      (release : Release) (old new : Bytes) (w : World)
      → Offered env opts release
      → InOrder env release new
      → IsEmptyDir env opts w
      → w.files opts.executable_path ≡ some old
      → Installed new (apply_with env opts w)
  unfolding apply_with
  apply_with-ok release old new w offered o dirs exe =
      let (selected, kept) = select_release-ok release w offered o.stated in
      let w₁ = (select_release env opts w).1 in
      let (t, made, same) = make_dir-ok w₁ in
      let w₂ = (make_dir env w₁).1 in
      let dir = env.new_dir t in
      let at_start : (p : Bytes) → p ≢ lock_path opts → w₂.files p ≡ w.files p =
        λ p ne. ap (λ f. f p) same ∙ kept p ne in
      let empty : (name : Bytes) → w₂.files (join_path dir name) ≡ none = λ name.
        at_start _ (λ q. join_path-ne _ dir name (dirs.no_lock t) (sym q)) ∙ dirs.empty t name in
      bind-as_error (Installed new) (select_release env opts) _ release w selected (
        bind-as_error (Installed new) (make_dir env) _ dir w₁ made (
          Installed-remove_all new dir (update_in env opts release dir) w₂ (dirs.fresh t).0
            (dirs.fresh t).1
            (update_in-ok release old new t w₂ o dirs.fresh offered.other_name empty
              (at_start _ lock-ne ∙ exe))))

-- `Apply` succeeds where no system call and no command fails, the context lives on, new directories
-- are empty and apart from the binary, its backup and its lock, and the server offers a newer
-- release whose artifact has the stated digest, a bounded size and one binary that prints its
-- version: that binary is installed, the backup is gone, and the service was restarted and found
-- active with it.
pub apply-ok :
    (env : Environment) (opts : ApplyOptions) (release : Release) (old new : Bytes) (w : World)
    → IsSmooth env
    → Offered env (set_apply_defaults opts) release
    → InOrder env release new
    → IsEmptyDir env (set_apply_defaults opts) w
    → w.files opts.executable_path ≡ some old
    → let (r, w') = apply env opts w in
      (r ≡ ok tt)
      × (w'.files opts.executable_path ≡ some new)
      × (w'.files (backup_path opts) ≡ none)
      × RunsOn (set_apply_defaults opts) new w'
unfolding apply Installed
apply-ok env opts release old new w smooth offered o dirs exe =
    apply_with-ok env smooth (set_apply_defaults opts) release old new w offered o dirs exe
