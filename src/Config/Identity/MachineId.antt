-- ===== src/Config/Identity/MachineId.antt =====
-- Which machine IDs are accepted.
use zimaos_monitor.Base.{
  ◌&&◌, if◌then◌else◌, Bool, true, false, List, [], ◌∷◌, Option, none, some, Bytes, ◌≡◌, ◌≢◌, ◌↔◌,
  sym, ap, ◌∙◌, refl, arith, length, All, ◌==◌,
}
use zimaos_monitor.Text.{trim_space, to_lower}
use zimaos_monitor.Config.Identity.{
  IdentitySource, unreadable, not_hex, all_zero, Checked, valid, refused, is_lower_hex, scan_id,
  check_id, validate_machine_id, first_readable, canonical_machine_id, machine_id_path,
  dbus_machine_id_path, named,
}

-- 32 digits of lower-case hexadecimal, not all of them zero.
pub record IsMachineId (id : Bytes) : Type 0 where
  pub size : length id ≡ 32
  pub hex : All (λ c. is_lower_hex c ≡ true) id
  pub not_zero : ¬ All (λ c. c ≡ b'0') id

all_hex : Bytes → Bool
all_hex [] = true
all_hex (c ∷ s) = is_lower_hex c && all_hex s

all_zeros : Bytes → Bool
all_zeros [] = true
all_zeros (c ∷ s) = c == b'0' && all_zeros s

all_hex_iff : (s : Bytes) → (all_hex s ≡ true) ↔ All (λ c. is_lower_hex c ≡ true) s
unfolding all_hex
all_hex_iff [] = (λ _. tt, λ _. refl)
all_hex_iff (c ∷ s) = ground (arith, all_hex_iff s)

all_zeros_iff : (s : Bytes) → (all_zeros s ≡ true) ↔ All (λ c. c ≡ b'0') s
unfolding all_zeros
all_zeros_iff [] = (λ _. tt, λ _. refl)
all_zeros_iff (c ∷ s) = ground (arith, all_zeros_iff s)

-- The loop of `validateMachineID`, by two tests on the whole value.
scan_id-eq :
    (s : Bytes) (zeros : Bool)
    → scan_id s zeros ≡ (if all_hex s then some (zeros && all_zeros s) else none)
unfolding scan_id all_hex all_zeros
scan_id-eq [] zeros = ground arith
scan_id-eq (c ∷ s) zeros = ground (arith, scan_id-eq s zeros, scan_id-eq s false)

check_id-eq :
    (s : Bytes)
    → check_id s ≡ (
        if length s == 32
        then if all_hex s
          then if all_zeros s then refused all_zero else valid s
          else refused not_hex
        else refused not_hex)
unfolding check_id
check_id-eq s = ground (arith, scan_id-eq s true)

check_id_iff : (s id : Bytes) → (check_id s ≡ valid id) ↔ ((s ≡ id) × IsMachineId s)
check_id_iff s id = (
  λ h.
      let (size, hex, zeros, same) = forward h in
      (
        same,
        record {
          size = size;
          hex = (all_hex_iff s).0 hex;
          not_zero = λ a. let all : all_zeros s ≡ true = (all_zeros_iff s).1 a in cc;
        },
      ),
  λ (e, m). backward e m.size ((all_hex_iff s).1 m.hex) (λ z. m.not_zero ((all_zeros_iff s).0 z)),
)
  where
    forward :
        check_id s ≡ valid id
        → (length s ≡ 32) × (all_hex s ≡ true) × (all_zeros s ≡ false) × (s ≡ id)
    forward h = ground (arith, check_id-eq s)

    backward :
        s ≡ id → length s ≡ 32 → all_hex s ≡ true → all_zeros s ≢ true → check_id s ≡ valid id
    backward e a b c = ground (arith, check_id-eq s)

-- The ID that is accepted is the value without surrounding white space in lower case, and has 32
-- hexadecimal digits that are not all zero; every such value is accepted.
pub validate_machine_id_iff :
    (value id : Bytes)
    → (validate_machine_id value ≡ valid id)
      ↔ ((to_lower (trim_space value) ≡ id) × IsMachineId (to_lower (trim_space value)))
unfolding validate_machine_id
validate_machine_id_iff value id = check_id_iff (to_lower (trim_space value)) id

-- The first of some files that can be read, with its content.
pub first_read : IdentitySource → List Bytes → Option (Bytes × Bytes)
first_read source [] = none
first_read source (path ∷ paths) = elim (source.read_file path) [
  | some value ↦ some (path, value)
  | none ↦ first_read source paths
]

pub id_files : List Bytes
id_files = machine_id_path ∷ dbus_machine_id_path ∷ []

abbrev judge : Option (Bytes × Bytes) → Checked
judge none = refused unreadable
judge (some (path, value)) = named path (validate_machine_id value)

first_readable-eq :
    (source : IdentitySource) (paths : List Bytes)
    → first_readable source paths ≡ judge (first_read source paths)
unfolding first_readable first_read
first_readable-eq source [] = refl
first_readable-eq source (path ∷ paths) =
    go (source.read_file path) (first_readable-eq source paths)
  where
    go :
        (r : Option Bytes)
        → first_readable source paths ≡ judge (first_read source paths)
        → elim r [
          | none ↦ first_readable source paths
          | some value ↦ named path (validate_machine_id value)
        ]
          ≡ judge (elim r [ some value ↦ some (path, value) | none ↦ first_read source paths ])
    go none h = h
    go (some value) h = refl

named_iff : (path id : Bytes) (c : Checked) → (named path c ≡ valid id) ↔ (c ≡ valid id)
named_iff path id (valid x) = (λ h. h, λ h. h)
named_iff path id (refused e) = (λ h. cc, λ h. cc)

pub Found : IdentitySource → Bytes → Type 0
Found source id =
    (path : Bytes) × (value : Bytes) × (first_read source id_files ≡ some (path, value))
    × (to_lower (trim_space value) ≡ id)
    × IsMachineId (to_lower (trim_space value))

-- The machine ID of a system is found exactly if the first readable one of `/etc/machine-id` and
-- `/var/lib/dbus/machine-id` holds it: a file that can be read and is refused is not passed over.
pub canonical_machine_id_iff :
    (source : IdentitySource) (id : Bytes)
    → (canonical_machine_id (some source) ≡ valid id) ↔ Found source id
unfolding canonical_machine_id id_files Found
canonical_machine_id_iff source id =
    (λ h. go (first_read source id_files) refl (sym (first_readable-eq source id_files) ∙ h), back)
  where
    go :
        (r : Option (Bytes × Bytes))
        → first_read source id_files ≡ r
        → judge r ≡ valid id
        → Found source id
    go none e h = cc
    go (some (path, value)) e h =
        let (same, good) =
          (validate_machine_id_iff value id).0
            ((named_iff path id (validate_machine_id value)).0 h) in
        (path, value, e, same, good)

    back : Found source id → first_readable source id_files ≡ valid id
    back (path, value, e, same, good) =
        first_readable-eq source id_files
        ∙ ap judge e
        ∙ (named_iff path id (validate_machine_id value)).1
            ((validate_machine_id_iff value id).1 (same, good))
