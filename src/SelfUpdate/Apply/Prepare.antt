-- ===== src/SelfUpdate/Apply/Prepare.antt =====
-- What the steps before the backup leave alone, and what they have verified when they succeed.
use zimaos_monitor.Base.{
  ℕ, true, [], ◌∷◌, some, Bytes, ◌≡◌, ◌≢◌, ◌⊎◌, inl, inr, refl, ap, ◌∙◌, if◌then◌else◌, str_eq,
  str_eq_iff, Bool-cases,
}
use zimaos_monitor.Text.{trim_space, is_empty}
use zimaos_monitor.SelfUpdate.Release.{Release}
use zimaos_monitor.SelfUpdate.Host.{
  Environment, Archive, World, Result, ok, pure, or_raise, ask, read,
}
use zimaos_monitor.SelfUpdate.Host.Keep.{
  Keeps, Keeps-bind, Keeps-or_raise, Keeps-check, Keeps-pure, Keeps-ask, Keeps-read,
}
use zimaos_monitor.SelfUpdate.Host.Success.{
  bind-eq-ok, check-eq-ok, or_raise-eq-ok, ask-eq-ok, read-eq-ok,
}
use zimaos_monitor.SelfUpdate.Download.{
  PrepareError, candidate_run, candidate_version, download_file, download_checksum, verify_checksum,
}
use zimaos_monitor.SelfUpdate.Download.Laws.{
  Keeps-download_file, Keeps-download_checksum, Keeps-verify_checksum, Served,
  download_checksum-eq-ok, verify_checksum-eq-ok,
}
use zimaos_monitor.SelfUpdate.Extract.{extract_binary}
use zimaos_monitor.SelfUpdate.Extract.Laws.{Keeps-extract_binary}
use zimaos_monitor.SelfUpdate.Extract.Found.{TheBinary, extract_binary-eq-ok}
use zimaos_monitor.SelfUpdate.Apply.{archive_path, candidate_path, expected_digest, prepare}

module _ (env : Environment) (p : Bytes) where
  Keeps-expected_digest : (release : Release) → Keeps p (expected_digest env release)
  unfolding expected_digest
  Keeps-expected_digest release = elim (Bool-cases (is_empty release.sha256)) [
    | inl e ↦ rw e (Keeps-download_checksum env p release.checksum_url)
    | inr e ↦ rw e (Keeps-pure p release.sha256)
  ]

  pub Keeps-prepare :
      (release : Release) (dir : Bytes)
      → p ≢ archive_path dir release
      → p ≢ candidate_path dir
      → Keeps p (prepare env release dir)
  unfolding prepare
  Keeps-prepare release dir ne ne' = Keeps-bind p (Keeps-download_file env p _ _ _ ne) λ _.
      Keeps-bind p (Keeps-expected_digest release) λ expected.
        Keeps-bind p (Keeps-verify_checksum env p _ _) λ _.
          Keeps-bind p (Keeps-extract_binary env p _ ne' _) λ _.
            Keeps-bind p (Keeps-read env p _ _) λ content.
              Keeps-bind p (Keeps-ask p _)
                λ output. Keeps-bind p (Keeps-or_raise p _ _) λ printed. Keeps-check p _ _

-- The digest that the release states, or else the one in the file at its checksum URL.
abbrev pub Expected : Environment → Release → Bytes → Type 0
Expected env release digest =
    ((release.sha256 ≢ []) × (digest ≡ release.sha256))
    ⊎ ((release.sha256 ≡ []) × Served env release.checksum_url digest)

-- A binary that may replace the installed one: it is the one entry of its name in an archive whose
-- SHA-256 digest is the one expected, and for `--version` it printed the release's version.
pub record Verified (env : Environment) (release : Release) (new : Bytes) : Type 0 where
  pub file : Bytes
  pub expected : Expected env release (env.sha256_hex file)
  pub archive : Archive
  pub unpacked : env.unpack file ≡ some archive
  pub complete : archive.complete ≡ true
  pub binary : TheBinary archive.entries new
  pub moment : ℕ
  pub output : Bytes
  pub printed : env.version_output moment new ≡ some output
  pub is_version : trim_space output ≡ release.version

module _ (env : Environment) where
  expected_digest-eq-ok :
      (release : Release) (w w' : World) (digest : Bytes)
      → expected_digest env release w ≡ (ok digest, w')
      → Expected env release digest
  unfolding expected_digest
  expected_digest-eq-ok release w w' digest h = go release.sha256 refl h
    where
      go :
          (sha : Bytes)
          → release.sha256 ≡ sha
          → ◌≡◌ {A = Result PrepareError Bytes × World}
              ((if is_empty sha then download_checksum env release.checksum_url else pure sha) w)
              (ok digest, w')
          → Expected env release digest
      go [] e k = inr (e, download_checksum-eq-ok env release.checksum_url w w' digest k)
      go (c ∷ s) e k = inl (λ empty. cc, cc)

  -- What a successful preparation has made sure of.
  pub prepare-eq-ok :
      (release : Release) (dir : Bytes) (w w' : World) (u : Unit {0})
      → prepare env release dir w ≡ (ok u, w')
      → (new : Bytes) × Verified env release new × (w'.files (candidate_path dir) ≡ some new)
  unfolding prepare
  prepare-eq-ok release dir w w' u h =
      let archive = archive_path dir release in
      let candidate = candidate_path dir in
      let (_, w₁, _, h₁) = bind-eq-ok (download_file env release.asset_url archive _) _ w h in
      let (digest, w₂, e₂, h₂) = bind-eq-ok (expected_digest env release) _ w₁ h₁ in
      let (_, w₃, e₃, h₃) = bind-eq-ok (verify_checksum env archive digest) _ w₂ h₂ in
      let (_, w₄, e₄, h₄) = bind-eq-ok (extract_binary env archive candidate) _ w₃ h₃ in
      let (content, w₅, e₅, h₅) = bind-eq-ok (read env candidate candidate_run) _ w₄ h₄ in
      let (output, w₆, e₆, h₆) = bind-eq-ok (ask λ t. env.version_output t content) _ w₅ h₅ in
      let (printed, w₇, e₇, h₇) = bind-eq-ok (or_raise output candidate_run) _ w₆ h₆ in
      let (file, there, hashed, kept) = verify_checksum-eq-ok env archive digest w₂ w₃ _ e₃ in
      let (file', unpacked, new, there', same, whole, binary, wrote) =
        extract_binary-eq-ok env archive candidate w₃ w₄ _ e₄ in
      let (found, kept₅) = read-eq-ok env candidate candidate_run w₄ e₅ in
      let (asked, kept₆) = ask-eq-ok (λ t. env.version_output t content) w₅ e₆ in
      let (said, kept₇) = or_raise-eq-ok output candidate_run w₆ e₇ in
      let (matches, kept₈) =
        check-eq-ok (str_eq (trim_space printed) release.version) candidate_version w₇ h₇ in
      let same_file : file ≡ file' = cc (there, there', ap (λ f. f archive) kept) in
      let same_new : content ≡ new = cc (found, wrote) in
      let digest_known = expected_digest-eq-ok release w₁ w₂ digest e₂ in
      (
        new,
        record {
          file = file;
          expected = rw hashed digest_known;
          archive = unpacked;
          unpacked = rw same_file same;
          complete = whole;
          binary = binary;
          moment = w₅.clock;
          output = printed;
          printed = rw (← same_new) (asked ∙ said);
          is_version = (str_eq_iff _ _).0 matches;
        },
        ap (λ (x : World). x.files candidate) (kept₈ ∙ kept₇)
            ∙ ap (λ f. f candidate) (kept₆ ∙ kept₅)
            ∙ wrote,
      )
