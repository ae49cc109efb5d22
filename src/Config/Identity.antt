-- ===== src/Config/Identity.antt =====
-- internal/config/identity.go. SHA-256 and the base32 encoding are parameters.
pub mod MachineId
use zimaos_monitor.Base.{
  ℕ, ◌+◌, Bool, true, false, not, ◌&&◌, ◌||◌, List, [], ◌∷◌, ◌++◌, Option, none, some, ◌==◌,
  if◌then◌else◌, Bytes, codes, length, take,
}
use zimaos_monitor.Text.{trim_space, to_lower, is_digit, within, contains_any_byte}

abbrev pub machine_id_path : Bytes
machine_id_path = codes "/etc/machine-id"

abbrev pub dbus_machine_id_path : Bytes
dbus_machine_id_path = codes "/var/lib/dbus/machine-id"

-- `IdentitySource`: none where the call returns an error.
pub record IdentitySource : Type 0 where
  pub hostname : Option Bytes
  pub read_file : Bytes → Option Bytes

pub data IdentityError : Type 0 where
  no_source unreadable : IdentityError
  not_hex all_zero : IdentityError
  invalid : Bytes → IdentityError → IdentityError

pub data Checked : Type 0 where
  valid : Bytes → Checked
  refused : IdentityError → Checked

abbrev pub is_lower_hex : ℕ → Bool
is_lower_hex c = is_digit c || within b'a' b'f' c

-- The loop over the value; the flag is `allZero`.
scan_id : Bytes → Bool → Option Bool
scan_id [] zeros = some zeros
scan_id (c ∷ s) zeros =
    if not (is_lower_hex c) then none else scan_id s (if not (c == b'0') then false else zeros)

-- What follows the normalisation.
check_id : Bytes → Checked
unfolding scan_id
check_id value = if not (length value == 32) then refused not_hex else elim (scan_id value true) [
  | none ↦ refused not_hex
  | some zeros ↦ if zeros then refused all_zero else valid value
]

unfoldable pub validate_machine_id : Bytes → Checked
unfolding check_id
validate_machine_id value = check_id (to_lower (trim_space value))

abbrev named : Bytes → Checked → Checked
named path (valid id) = valid id
named path (refused e) = refused (invalid path e)

-- The loop over the two paths.
first_readable : IdentitySource → List Bytes → Checked
first_readable source [] = refused unreadable
first_readable source (path ∷ paths) = elim (source.read_file path) [
  | none ↦ first_readable source paths
  | some value ↦ named path (validate_machine_id value)
]

-- A `nil` source is none.
unfoldable pub canonical_machine_id : Option IdentitySource → Checked
unfolding first_readable
canonical_machine_id none = refused no_source
canonical_machine_id (some source) =
    first_readable source (machine_id_path ∷ dbus_machine_id_path ∷ [])

-- The digest of a text, encoded by unpadded base32.
module _ (digest_base32 : Bytes → Bytes) where
  unfoldable pub derive_identity_token : Bytes → Bytes → Bytes
  unfolding take
  derive_identity_token namespace machine_id =
      to_lower (take 20 (digest_base32 (namespace ++ (0 ∷ machine_id))))

  unfoldable pub derive_client_id : Bytes → Bytes
  derive_client_id machine_id =
      codes "zm-" ++ derive_identity_token (codes "zimaos-monitor/mqtt-client/v1") machine_id

  unfoldable pub derive_device_id : Bytes → Bytes
  derive_device_id machine_id =
      codes "zimaos_" ++ derive_identity_token (codes "zimaos-monitor/device/v1") machine_id

-- `strings.ContainsAny(id, "/+#\x00")`, refused
abbrev pub topic_specials : Bytes
topic_specials = b'/' ∷ b'+' ∷ b'#' ∷ 0 ∷ []

unfoldable pub safe_discovery_device_id : Bytes → Bool
safe_discovery_device_id [] = false
safe_discovery_device_id (c ∷ s) = not (contains_any_byte (c ∷ s) topic_specials)
