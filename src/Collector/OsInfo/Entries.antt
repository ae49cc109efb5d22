-- ===== src/Collector/OsInfo/Entries.antt =====
-- `ZimaOSVersion` by the entries of the file.
use zimaos_monitor.Base.{
  not, List, [], ◌∷◌, none, some, Option-cases, inl, inr, if◌then◌else◌, Bytes, codes, str_eq, ◌≡◌,
  refl, ◌∙◌, sym, arith,
}
use zimaos_monitor.Text.{split, trim_space, is_empty, or_default}
use zimaos_monitor.Collector.OsInfo.{Versions, take_entry, read_entry, read_lines, zimaos_version}

-- The entries of the lines, in their order.
abbrev pub entries : List Bytes → List (Bytes × Bytes)
entries [] = []
entries (line ∷ lines) = elim (read_entry (trim_space line)) [
  | none ↦ entries lines
  | some entry ↦ entry ∷ entries lines
]

-- The first value of a key that is not empty, or the empty text.
abbrev pub first_value : Bytes → List (Bytes × Bytes) → Bytes
first_value key [] = []
first_value key ((k, val) ∷ rest) =
    if str_eq k key then or_default val (first_value key rest) else first_value key rest

take_entry-version_id :
    (key val : Bytes) (v : Versions) (rest : Bytes)
    → or_default (take_entry key val v).version_id rest
      ≡ or_default v.version_id
          (if str_eq key (codes "VERSION_ID") then or_default val rest else rest)
unfolding take_entry
take_entry-version_id key val v rest = ground arith

take_entry-version :
    (key val : Bytes) (v : Versions) (rest : Bytes)
    → or_default (take_entry key val v).version rest
      ≡ or_default v.version (if str_eq key (codes "VERSION") then or_default val rest else rest)
unfolding take_entry
take_entry-version key val v rest = ground arith

or_default-nil : (s : Bytes) → or_default s [] ≡ s
or_default-nil [] = refl
or_default-nil (c ∷ s) = refl

-- Each of the two variables gets the first value of its key.
read_lines-first_value :
    (lines : List Bytes) (v : Versions)
    → ((read_lines lines v).version_id
        ≡ or_default v.version_id (first_value (codes "VERSION_ID") (entries lines)))
      × ((read_lines lines v).version
          ≡ or_default v.version (first_value (codes "VERSION") (entries lines)))
unfolding read_lines
read_lines-first_value [] v = (sym (or_default-nil v.version_id), sym (or_default-nil v.version))
read_lines-first_value (line ∷ lines) v = elim (Option-cases (read_entry (trim_space line))) [
  | inl e ↦ rw (e, read_lines, entries) (read_lines-first_value lines v)
  | inr ((key, val), e) ↦
      let (a, b) = read_lines-first_value lines (take_entry key val v) in
      rw (e, read_lines, entries)
        (a ∙ take_entry-version_id key val v _, b ∙ take_entry-version key val v _)
]

-- The version is the first value of `VERSION_ID` that is not empty, or without one the first value of
-- `VERSION` that is not empty, whatever other lines stand between; it is empty if neither is there.
pub zimaos_version-eq-first_value :
    (contents : Bytes)
    → let found = entries (split b'\n' contents) in
      zimaos_version (some contents)
      ≡ or_default (first_value (codes "VERSION_ID") found) (first_value (codes "VERSION") found)
unfolding zimaos_version
zimaos_version-eq-first_value contents =
    let (a, b) =
      read_lines-first_value (split b'\n' contents) (record { version_id = []; version = [] }) in
    let found = entries (split b'\n' contents) in
    rw (a, b)
      (choice (first_value (codes "VERSION_ID") found) (first_value (codes "VERSION") found))
  where
    choice : (x y : Bytes) → (if not (is_empty x) then x else y) ≡ or_default x y
    choice [] y = refl
    choice (c ∷ x) y = refl
