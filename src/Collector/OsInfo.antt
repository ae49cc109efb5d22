-- ===== src/Collector/OsInfo.antt =====
-- internal/collector/osinfo.go: `ZimaOSVersion`, from the contents of /etc/os-release.
pub mod Entries
use mathlib.Core.List.{reverse}
use zimaos_monitor.Base.{
  Bool, true, false, not, ◌&&◌, ◌||◌, List, [], ◌∷◌, Option, none, some, ◌==◌, if◌then◌else◌, Bytes,
  bytes_discrete, codes, str_eq, ◌≡◌, refl,
}
use zimaos_monitor.Text.{
  split, trim_space, is_empty, has_prefix, strip_prefix, wide_space, wide_space_end, skip_space,
}

-- `strings.SplitN(line, "=", 2)`: the two parts, if there are two.
unfoldable pub cut_equals : Bytes → Option (Bytes × Bytes)
cut_equals [] = none
cut_equals (c ∷ s) =
    let rest = cut_equals s in
    if c == b'='
    then some ([], s)
    else elim rest [ none ↦ none | some (key, val) ↦ some (c ∷ key, val) ]

unfoldable pub skip_quotes : Bytes → Bytes
skip_quotes [] = []
skip_quotes (c ∷ s) = let rest = skip_quotes s in if c == b'"' then rest else c ∷ s

-- `strings.Trim(val, "\"")`
unfoldable pub trim_quotes : Bytes → Bytes
unfolding skip_quotes
trim_quotes s = reverse (skip_quotes (reverse (skip_quotes s)))

-- `versionID` and `version`
pub record Versions : Type 0 where
  pub version_id : Bytes
  pub version : Bytes

-- One round of the loop behind `SplitN`
unfoldable pub take_entry : Bytes → Bytes → Versions → Versions
take_entry key val v = record {
  version_id =
      if str_eq key (codes "VERSION_ID") && is_empty v.version_id then val else v.version_id;
  version = if str_eq key (codes "VERSION") && is_empty v.version then val else v.version;
}

-- The entry of a line that is trimmed, if the line is no comment and has one.
unfoldable pub read_entry : Bytes → Option (Bytes × Bytes)
unfolding cut_equals trim_quotes trim_space strip_prefix
read_entry line =
    if is_empty line || has_prefix line (codes "#") then none else elim (cut_equals line) [
      | none ↦ none
      | some (key, val) ↦ some (trim_space key, trim_quotes (trim_space val))
    ]

unfoldable pub read_lines : List Bytes → Versions → Versions
unfolding read_entry take_entry
read_lines [] v = v
read_lines (line ∷ lines) v =
    read_lines lines
      (elim (read_entry (trim_space line)) [ none ↦ v | some (key, val) ↦ take_entry key val v ])

-- None where the file cannot be read.
unfoldable pub zimaos_version : Option Bytes → Bytes
unfolding read_lines split
zimaos_version none = []
zimaos_version (some contents) =
    let v = read_lines (split b'\n' contents) (record { version_id = []; version = [] }) in
    if not (is_empty v.version_id) then v.version_id else v.version

zimaos_version_test :
    zimaos_version (
      some
        (codes "# c=1\nNAME=\"ZimaOS\"\nVERSION=\"1.4\"\n VERSION_ID = \"1.5.4\" \nVERSION_ID=2\n"))
    ≡ codes "1.5.4"
unfolding zimaos_version skip_space wide_space wide_space_end bytes_discrete
zimaos_version_test = refl
