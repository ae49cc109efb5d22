-- ===== src/SelfUpdate/Download/Laws.antt =====
-- What the downloads leave alone, and what they have found when they succeed.
use zimaos_monitor.Base.{
  ◌+◌, some, ◌==◌, ==_iff, ap, ◌∙◌, str_eq_iff, take, ℕ, Option, Bytes, ◌≢◌, ◌≡◌, refl,
}
use zimaos_monitor.SelfUpdate.Release.{HttpAnswer, bad_request, no_response, response}
use zimaos_monitor.SelfUpdate.Host.{Environment, World, ok, ◌>>=◌, check, attempt, read}
use zimaos_monitor.SelfUpdate.Host.Keep.{
  Keeps, Keeps-bind, Keeps-or_raise, Keeps-pure, Keeps-raise, Keeps-check, Keeps-ask, Keeps-attempt,
  Keeps-read, Keeps-create, Keeps-write,
}
use zimaos_monitor.SelfUpdate.Host.Success.{
  bind-eq-ok, check-eq-ok, or_raise-eq-ok, attempt-eq-ok, read-eq-ok,
}
use zimaos_monitor.SelfUpdate.Download.{
  Response, checksum_request, checksum_failed, checksum_status, checksum_read, checksum_invalid,
  open_artifact, hash_artifact, checksum_mismatch, read_digest, PrepareError, answered, request,
  download_file, download_checksum, verify_checksum,
}

module _ (env : Environment) (p : Bytes) where
  Keeps-request :
      (url : Bytes) (refused failed : PrepareError) → Keeps p (request env url refused failed)
  unfolding request
  Keeps-request url refused failed = Keeps-bind p (Keeps-ask p _) Keeps-answered
    where
      Keeps-answered : (a : HttpAnswer) → Keeps p (answered refused failed a)
      Keeps-answered bad_request = Keeps-raise p _
      Keeps-answered no_response = Keeps-raise p _
      Keeps-answered (response status size body) = Keeps-pure p _

  pub Keeps-download_file :
      (url path : Bytes) (limit : ℕ) → p ≢ path → Keeps p (download_file env url path limit)
  unfolding download_file
  Keeps-download_file url path limit ne =
      Keeps-bind p (Keeps-request url _ _) λ (status, size, body).
        Keeps-bind p (Keeps-check p _ _) λ _. Keeps-bind p (Keeps-check p _ _) λ _.
          Keeps-bind p (Keeps-create env p path _ ne) λ _.
            Keeps-bind p (Keeps-write env p path _ _ ne)
              λ _. Keeps-bind p (Keeps-check p _ _) λ _. Keeps-attempt env p _

  pub Keeps-download_checksum : (url : Bytes) → Keeps p (download_checksum env url)
  unfolding download_checksum
  Keeps-download_checksum url = Keeps-bind p (Keeps-request url _ _) λ (status, size, body).
      Keeps-bind p (Keeps-check p _ _)
        λ _. Keeps-bind p (Keeps-attempt env p _) λ _. Keeps-or_raise p _ _

  pub Keeps-verify_checksum : (path expected : Bytes) → Keeps p (verify_checksum env path expected)
  unfolding verify_checksum
  Keeps-verify_checksum path expected =
      Keeps-bind p (Keeps-read env p path _)
        λ content. Keeps-bind p (Keeps-attempt env p _) λ _. Keeps-check p _ _

-- At some moment the file at the URL was answered with status 200, and its first 4097 bytes hold the
-- digest.
abbrev pub Served : Environment → Bytes → Bytes → Type 0
Served env url digest =
    (moment : ℕ) × (size : Option ℕ) × (body : Bytes) × (env.answer moment url
      ≡ response 200 size body)
    × (read_digest (take 4097 body) ≡ some digest)

module _ (env : Environment) where
  request-eq-ok :
      (url : Bytes) (refused failed : PrepareError) (w w' : World) (r : Response)
      → request env url refused failed w ≡ (ok r, w')
      → env.answer w.clock url ≡ response r.0 r.1 r.2
  unfolding request ◌>>=◌
  request-eq-ok url refused failed w w' r h = go (env.answer w.clock url) refl h
    where
      go :
          (a : HttpAnswer)
          → env.answer w.clock url ≡ a
          → answered refused failed a (record w { clock = w.clock + 1 }) ≡ (ok r, w')
          → env.answer w.clock url ≡ response r.0 r.1 r.2
      go bad_request e k = cc
      go no_response e k = cc
      go (response status size body) e k = cc

  pub download_checksum-eq-ok :
      (url : Bytes) (w w' : World) (digest : Bytes)
      → download_checksum env url w ≡ (ok digest, w')
      → Served env url digest
  unfolding download_checksum
  download_checksum-eq-ok url w w' digest h =
      let ((status, size, body), w₁, e, h₁) =
        bind-eq-ok (request env url checksum_request checksum_failed) _ w h in
      let (_, w₂, e₂, h₂) = bind-eq-ok (check (status == 200) (checksum_status status)) _ w₁ h₁ in
      let (_, w₃, e₃, last) = bind-eq-ok (attempt env checksum_read) _ w₂ h₂ in
      let (good, _) = check-eq-ok (status == 200) _ w₁ e₂ in
      let (digest_of, _) = or_raise-eq-ok (read_digest (take 4097 body)) checksum_invalid w₃ last in
      let answer = request-eq-ok url checksum_request checksum_failed w w₁ (status, size, body) e in
      (w.clock, size, body, rw ((==_iff status 200).0 good) at answer, digest_of)

  pub verify_checksum-eq-ok :
      (path expected : Bytes) (w w' : World) (u : Unit {0})
      → verify_checksum env path expected w ≡ (ok u, w')
      → (content : Bytes) × (w.files path ≡ some content)
        × (env.sha256_hex content ≡ expected)
        × (w'.files ≡ w.files)
  unfolding verify_checksum
  verify_checksum-eq-ok path expected w w' u h =
      let (content, w₁, e₁, h₁) = bind-eq-ok (read env path open_artifact) _ w h in
      let (_, w₂, e₂, last) = bind-eq-ok (attempt env hash_artifact) _ w₁ h₁ in
      let (there, kept₁) = read-eq-ok env path open_artifact w e₁ in
      let kept₂ = attempt-eq-ok env hash_artifact w₁ e₂ in
      let (same, kept₃) = check-eq-ok _ checksum_mismatch w₂ last in
      (content, there, (str_eq_iff _ _).0 same, ap (λ (x : World). x.files) kept₃ ∙ kept₂ ∙ kept₁)
