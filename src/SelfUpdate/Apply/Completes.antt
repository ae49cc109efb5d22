-- ===== src/SelfUpdate/Apply/Completes.antt =====
-- The steps before the backup, on a machine where nothing fails and with a release that is in order.
use zimaos_monitor.Base.{
  ℕ, ◌+◌, ◌*◌, ◌≤◌, true, false, [], ◌∷◌, Option, none, some, Bytes, ◌≡◌, ◌≢◌, refl, arith, ap, ◌∙◌,
  str_eq, length, take, take-eq_whole, suc, if◌then◌else◌,
}
use zimaos_monitor.Text.{is_empty, trim_space}
use zimaos_monitor.SelfUpdate.Release.{Release, response}
use zimaos_monitor.SelfUpdate.Host.{
  Environment, Archive, World, Result, ok, err, Io, bind_result, ◌>>=◌, pure, ask, check, or_raise,
  attempt, read, create, write,
}
use zimaos_monitor.SelfUpdate.Download.{
  PrepareError, candidate_run, candidate_version, download_file, download_checksum, verify_checksum,
  exceeds,
}
use zimaos_monitor.SelfUpdate.Extract.{max_binary_size, extract_binary}
use zimaos_monitor.SelfUpdate.Extract.Found.{TheBinary}
use zimaos_monitor.SelfUpdate.Extract.Succeeds.{extract_binary-Leaves}
use zimaos_monitor.SelfUpdate.Apply.{archive_path, candidate_path, expected_digest, prepare}
use zimaos_monitor.SelfUpdate.Apply.Progress.{IsSmooth}

-- The servers and the binary give what the release promises: an artifact of a bounded size with the
-- stated digest, which holds one binary, which prints the version of the release.
pub record InOrder (env : Environment) (release : Release) (new : Bytes) : Type 0 where
  pub file : Bytes
  pub size : Option ℕ
  pub archive : Archive
  pub output : Bytes
  pub served : (t : ℕ) → env.answer t release.asset_url ≡ response 200 size file
  pub announced_size : exceeds size (max_binary_size * 2) ≡ false
  pub bounded : length file ≤ max_binary_size * 2
  pub stated : release.sha256 ≢ []
  pub hashed : env.sha256_hex file ≡ release.sha256
  pub unpacked : env.unpack file ≡ some archive
  pub complete : archive.complete ≡ true
  pub binary : TheBinary archive.entries new
  pub printed : (t : ℕ) → env.version_output t new ≡ some output
  pub version : trim_space output ≡ release.version

module _ (env : Environment) (smooth : IsSmooth env) where
  download_file-ok :
      (url path file : Bytes) (size : Option ℕ) (limit : ℕ) (w : World)
      → ((t : ℕ) → env.answer t url ≡ response 200 size file)
      → exceeds size limit ≡ false
      → length file ≤ limit
      → w.files path ≡ none
      → let (r, w') = download_file env url path limit w in
        (r ≡ ok tt)
        × (w'.files path ≡ some file)
        × ((p : Bytes) → p ≢ path → w'.files p ≡ w.files p)
  unfolding download_file create write attempt
  download_file-ok url path file size limit w served fits bounded absent =
      let whole : take (suc limit) file ≡ file =
        take-eq_whole (suc limit) file (omega (arith, bounded)) in
      rw (served w.clock, fits, whole)
        (ground (
          arith,
          absent,
          bounded,
          smooth.calls (w.clock + 1),
          smooth.calls (w.clock + 1 + 1),
          smooth.calls (w.clock + 1 + 1 + 1),
        ))

  verify_checksum-ok :
      (path file expected : Bytes) (w : World)
      → w.files path ≡ some file
      → env.sha256_hex file ≡ expected
      → let (r, w') = verify_checksum env path expected w in (r ≡ ok tt) × (w'.files ≡ w.files)
  unfolding verify_checksum read attempt
  verify_checksum-ok path file expected w there hashed =
      ground (arith, there, hashed, smooth.calls w.clock, smooth.calls (w.clock + 1))

  -- The last steps: the candidate is run and its print compared.
  run_candidate : Release → Bytes → Io PrepareError (Unit {0})
  run_candidate release dir = do
    content ← read env (candidate_path dir) candidate_run
    output ← ask λ t. env.version_output t content
    printed ← or_raise output candidate_run
    check (str_eq (trim_space printed) release.version) candidate_version

  run_candidate-ok :
      (release : Release) (dir new output : Bytes) (w : World)
      → w.files (candidate_path dir) ≡ some new
      → ((t : ℕ) → env.version_output t new ≡ some output)
      → trim_space output ≡ release.version
      → let (r, w') = run_candidate release dir w in (r ≡ ok tt) × (w'.files ≡ w.files)
  unfolding run_candidate read attempt ◌>>=◌
  run_candidate-ok release dir new output w there printed version =
      ground (arith, there, printed (w.clock + 1), version, smooth.calls w.clock)

  bind-world :
      {A B : Type 0} (P : Result PrepareError B × World → Type 0) (m : Io PrepareError A)
      (f : A → Io PrepareError B) (a : A) (w : World)
      → (m w).0 ≡ ok a
      → P (f a (m w).1)
      → P ((m >>= f) w)
  unfolding ◌>>=◌
  bind-world {A} {B} P m f a w e h = go (m w).0 e
    where
      go : (r : Result PrepareError A) → r ≡ ok a → P (bind_result r (m w).1 f)
      go (ok x) k = let same : x ≡ a = cc k in rw same h
      go (err x) k = absurd (cc k)

  expected_digest-ok :
      (release : Release) (w : World)
      → release.sha256 ≢ []
      → expected_digest env release w ≡ (ok release.sha256, w)
  unfolding expected_digest
  expected_digest-ok release w stated = go release.sha256 stated
    where
      go :
          (sha : Bytes)
          → sha ≢ []
          → (if is_empty sha then download_checksum env release.checksum_url else pure sha) w
            ≡ (ok sha, w)
      go [] h = absurd (h refl)
      go (c ∷ sha) h = refl

  -- The preparation of a release that is in order succeeds, and the candidate is its binary.
  pub prepare-ok :
      (release : Release) (dir new : Bytes) (w : World)
      → InOrder env release new
      → candidate_path dir ≢ archive_path dir release
      → w.files (archive_path dir release) ≡ none
      → w.files (candidate_path dir) ≡ none
      → let (r, w') = prepare env release dir w in
        (r ≡ ok tt) × (w'.files (candidate_path dir) ≡ some new)
  unfolding prepare run_candidate
  prepare-ok release dir new w o ne no_archive no_candidate =
      let archive = archive_path dir release in
      let candidate = candidate_path dir in
      let limit = max_binary_size * 2 in
      let (fetched, stored, kept) =
        download_file-ok release.asset_url archive o.file o.size limit w o.served o.announced_size
          o.bounded no_archive in
      let w₁ = (download_file env release.asset_url archive limit w).1 in
      let digest = expected_digest-ok release w₁ o.stated in
      let w₂ = (expected_digest env release w₁).1 in
      let same₂ : w₂.files ≡ w₁.files = ap (λ x. x.1.files) digest in
      let (checked, same₃) =
        verify_checksum-ok archive o.file release.sha256 w₂ (ap (λ f. f archive) same₂ ∙ stored)
          o.hashed in
      let w₃ = (verify_checksum env archive release.sha256 w₂).1 in
      let kept₃ : w₃.files ≡ w₁.files = same₃ ∙ same₂ in
      let (unpacked, there) =
        extract_binary-Leaves env candidate smooth.calls archive o.file new o.archive w₃
          (ap (λ f. f archive) kept₃ ∙ stored) o.unpacked o.complete o.binary
          (ap (λ f. f candidate) kept₃ ∙ kept candidate ne ∙ no_candidate) in
      let w₄ = (extract_binary env archive candidate w₃).1 in
      let (ran, same₅) = run_candidate-ok release dir new o.output w₄ there o.printed o.version in
      let P : Result PrepareError (Unit {0}) × World → Type 0 =
        λ x. (x.0 ≡ ok tt) × (x.1.files candidate ≡ some new) in
      bind-world P (download_file env release.asset_url archive limit) _ tt w fetched (
        bind-world P (expected_digest env release) _ release.sha256 w₁ (ap (λ x. x.0) digest) (
          bind-world P (verify_checksum env archive release.sha256) _ tt w₂ checked (
            bind-world P (extract_binary env archive candidate) _ tt w₃ unpacked
              (ran, ap (λ f. f candidate) same₅ ∙ there))))
