-- ===== src/SelfUpdate/Download.antt =====
-- internal/selfupdate/updater.go: `downloadFile`, `downloadChecksum`, `verifyChecksum`, and the
-- errors of an update before it touches the installed binary.
pub mod Laws
use zimaos_monitor.Base.{
  ℕ, suc, ◌+◌, ◌*◌, Bool, true, false, not, ◌&&◌, ◌||◌, List, [], ◌∷◌, ◌++◌, Option, none, some,
  ltb, leb, ◌==◌, if◌then◌else◌, Bytes, codes, str_eq, length, take,
}
use zimaos_monitor.Text.{
  skip_space, wide_space, trim_left, ascii_space, is_some, to_lower, is_digit, within,
}
use zimaos_monitor.SelfUpdate.Release.{HttpAnswer, bad_request, no_response, response, FetchError}
use zimaos_monitor.SelfUpdate.Host.{
  Environment, World, Result, ok, err, Io, ◌>>=◌, ◌>>◌, pure, raise, check, or_raise, ask, attempt,
  read, create, write,
}

pub data PrepareError : Type 0 where
  lock_open lock_held not_newer lacks_artifact create_directory : PrepareError
  fetch_error : FetchError → PrepareError
  download_request download_failed download_too_large create_file write_file sync_file :
      PrepareError
  download_status : ℕ → PrepareError
  checksum_request checksum_failed checksum_read checksum_invalid : PrepareError
  checksum_status : ℕ → PrepareError
  open_artifact hash_artifact checksum_mismatch : PrepareError
  archive_open archive_gzip archive_read archive_entry archive_lacks : PrepareError
  candidate_create candidate_extract candidate_run candidate_version : PrepareError

-- A response, by its status, declared length and body.
abbrev pub Response : Type 0
Response = ℕ × Option ℕ × Bytes

abbrev answered : PrepareError → PrepareError → HttpAnswer → Io PrepareError Response
answered refused failed bad_request = raise refused
answered refused failed no_response = raise failed
answered refused failed (response status size body) = pure (status, size, body)

-- `http.NewRequestWithContext` and `client.Do`
request : Environment → Bytes → PrepareError → PrepareError → Io PrepareError Response
request env url refused failed = do
  answer ← ask λ t. env.answer t url
  answered refused failed answer

-- `resp.ContentLength > limit`; a length that is not declared is -1.
abbrev pub exceeds : Option ℕ → ℕ → Bool
exceeds none limit = false
exceeds (some size) limit = ltb limit size

unfoldable pub download_file : Environment → Bytes → Bytes → ℕ → Io PrepareError (Unit {0})
unfolding request
download_file env url path limit = do
  (status, size, body) ← request env url download_request download_failed
  check (status == 200) (download_status status)
  check (not (exceeds size limit)) download_too_large
  create env path create_file
  let written = take (suc limit) body
  write env path written write_file
  check (not (ltb limit (length written))) download_too_large
  attempt env sync_file

-- The bytes before the first white space.
until_space : Bytes → Bytes
until_space [] = []
until_space (c ∷ s) =
    if ascii_space c || is_some (wide_space (c ∷ s)) then [] else c ∷ until_space s

-- `strings.Fields(payload)[0]`, empty if there is no field
abbrev first_field : Bytes → Bytes
first_field payload = until_space (trim_left payload)

abbrev is_hex : ℕ → Bool
is_hex c = is_digit c || within b'a' b'f' c || within b'A' b'F' c

all_hex : Bytes → Bool
all_hex [] = true
all_hex (c ∷ s) = is_hex c && all_hex s

-- The digest that a checksum file holds: its first field, if that is 64 hexadecimal digits.
unfoldable pub read_digest : Bytes → Option Bytes
unfolding until_space wide_space skip_space all_hex
read_digest payload =
    let field = first_field payload in
    if length field == 64 && all_hex field then some (to_lower field) else none

unfoldable pub download_checksum : Environment → Bytes → Io PrepareError Bytes
unfolding request
download_checksum env url = do
  (status, size, body) ← request env url checksum_request checksum_failed
  check (status == 200) (checksum_status status)
  attempt env checksum_read
  or_raise (read_digest (take 4097 body)) checksum_invalid

unfoldable pub verify_checksum : Environment → Bytes → Bytes → Io PrepareError (Unit {0})
verify_checksum env path expected = do
  content ← read env path open_artifact
  attempt env hash_artifact
  check (str_eq (env.sha256_hex content) expected) checksum_mismatch
