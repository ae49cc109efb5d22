-- ===== src/SelfUpdate/Apply/Select.antt =====
-- `Apply` up to its directory: which release it takes, and which files these steps leave alone.
use zimaos_monitor.Base.{
  ℕ, true, false, [], ◌∷◌, some, Bytes, ◌≡◌, ◌≢◌, arith, ap, ◌∙◌, append_assoc,
}
use zimaos_monitor.Text.{has_prefix, strip_prefix, strip_prefix-append, is_some}
use zimaos_monitor.SelfUpdate.Version.{is_newer}
use zimaos_monitor.SelfUpdate.Release.{Release, Fetched, found, failed, fetch_latest}
use zimaos_monitor.SelfUpdate.Host.{
  Environment, World, ok, ◌>>=◌, pure, check, ask, join_path, attempt,
}
use zimaos_monitor.SelfUpdate.Host.Keep.{
  Keeps, Keeps-bind, Keeps-check, Keeps-pure, Keeps-raise, Keeps-ask, Keeps-attempt,
}
use zimaos_monitor.SelfUpdate.Host.Success.{bind-eq-ok, check-eq-ok, ask-eq-ok}
use zimaos_monitor.SelfUpdate.Download.{PrepareError, not_newer, lacks_artifact, create_directory}
use zimaos_monitor.SelfUpdate.Apply.{
  ApplyOptions, lock_path, backup_path, acquire_lock, release_or_raise, approve, select_release,
  make_dir,
}
use zimaos_monitor.SelfUpdate.Apply.Prepare.{Verified}

-- A new directory holds neither of the two files.
abbrev pub IsFresh : Environment → ApplyOptions → Type 0
IsFresh env opts =
    (t : ℕ)
    → (has_prefix opts.executable_path (join_path (env.new_dir t) []) ≡ false)
      × (has_prefix (backup_path opts) (join_path (env.new_dir t) []) ≡ false)

-- The release that the server answered with at some moment is newer than the current version.
abbrev pub Selected : Environment → ApplyOptions → Release → Type 0
Selected env opts release =
    (moment : ℕ) × (fetch_latest env.decode_release (env.answer moment opts.endpoint)
      ≡ found release)
    × (is_newer opts.current_version release.version ≡ true)

-- What is known of a binary that `Apply` installs.
abbrev pub IsUpdate : Environment → ApplyOptions → Bytes → Type 0
IsUpdate env opts new = (release : Release) × Selected env opts release × Verified env release new

pub join_path-ne :
    (p dir name : Bytes) → has_prefix p (join_path dir []) ≡ false → p ≢ join_path dir name
join_path-ne p dir name h e =
    let split : strip_prefix p (join_path dir []) ≡ some name =
      rw (e, ← append_assoc dir (b'/' ∷ []) name) (strip_prefix-append (join_path dir []) name) in
    cc (h, ap is_some split)

module _ (env : Environment) (opts : ApplyOptions) where
  Keeps-acquire_lock : (p path : Bytes) → p ≢ path → Keeps p (acquire_lock env path)
  unfolding acquire_lock ◌>>=◌ attempt
  Keeps-acquire_lock p path ne = record { at_end = λ w. ground arith }

  pub Keeps-select_release : (p : Bytes) → p ≢ lock_path opts → Keeps p (select_release env opts)
  unfolding select_release
  Keeps-select_release p ne = Keeps-bind p (Keeps-acquire_lock p _ ne) λ _.
      Keeps-bind p (Keeps-ask p _) λ answer.
        Keeps-bind p (Keeps-release (fetch_latest env.decode_release answer))
          λ release. Keeps-approve release
    where
      Keeps-approve : (release : Release) → Keeps p (approve env opts release)
      Keeps-approve release =
          unfold approve in
          (Keeps-bind p (Keeps-check p _ _)
            λ _. Keeps-bind p (Keeps-check p _ _) λ _. Keeps-pure p release)

      Keeps-release : (f : Fetched) → Keeps p (release_or_raise env f)
      Keeps-release (found release) = Keeps-pure p release
      Keeps-release (failed e) = Keeps-raise p _

  release_or_raise-eq-ok :
      (f : Fetched) (w w' : World) (release : Release)
      → release_or_raise env f w ≡ (ok release, w')
      → f ≡ found release
  release_or_raise-eq-ok (found x) w w' release h = cc
  release_or_raise-eq-ok (failed x) w w' release h = cc

  pure-eq-ok :
      (release r : Release) (w w' : World)
      → pure {E = PrepareError} release w ≡ (ok r, w')
      → release ≡ r
  pure-eq-ok release r w w' h = cc

  approve-eq-ok :
      (release r : Release) (w w' : World)
      → approve env opts release w ≡ (ok r, w')
      → (is_newer opts.current_version release.version ≡ true) × (release ≡ r)
  unfolding approve
  approve-eq-ok release r w w' h =
      let (_, w₁, e₁, h₁) = bind-eq-ok (check _ not_newer) _ w h in
      let (_, w₂, _, last) = bind-eq-ok (check _ lacks_artifact) _ w₁ h₁ in
      ((check-eq-ok _ not_newer w e₁).0, pure-eq-ok release r w₂ w' last)

  pub select_release-eq-ok :
      (w w' : World) (release : Release)
      → select_release env opts w ≡ (ok release, w')
      → Selected env opts release
  unfolding select_release
  select_release-eq-ok w w' release h =
      let (_, w₁, _, h₁) = bind-eq-ok (acquire_lock env (lock_path opts)) _ w h in
      let (answer, w₂, e₂, h₂) = bind-eq-ok (ask λ t. env.answer t opts.endpoint) _ w₁ h₁ in
      let answered = (ask-eq-ok (λ t. env.answer t opts.endpoint) w₁ e₂).0 in
      let (release', w₃, e₃, last) =
        bind-eq-ok (release_or_raise env (fetch_latest env.decode_release answer)) _ w₂ h₂ in
      let (newer, same) = approve-eq-ok release' release w₃ w' last in
      let fetched =
        release_or_raise-eq-ok (fetch_latest env.decode_release answer) w₂ w₃ release' e₃ in
      (
        w₁.clock,
        ap (fetch_latest env.decode_release) answered ∙ fetched ∙ ap found same,
        rw same at newer,
      )

  pub Keeps-make_dir : (p : Bytes) → Keeps p (make_dir env)
  unfolding make_dir
  Keeps-make_dir p = Keeps-bind p (Keeps-attempt env p _) λ _. Keeps-ask p _

  pub make_dir-eq-ok :
      (w w' : World) (dir : Bytes) → make_dir env w ≡ (ok dir, w') → (t : ℕ) × (env.new_dir t ≡ dir)
  unfolding make_dir
  make_dir-eq-ok w w' dir h =
      let (_, w₁, _, last) = bind-eq-ok (attempt env create_directory) _ w h in
      (w₁.clock, (ask-eq-ok env.new_dir w₁ last).0)
