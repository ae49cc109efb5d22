-- ===== src/SelfUpdate/Extract.antt =====
-- internal/selfupdate/updater.go: `extractBinary`.
pub mod Laws
pub mod Found
pub mod Succeeds
use zimaos_monitor.Base.{
  ℕ, suc, ◌*◌, ◌^◌, Bool, true, false, not, ◌&&◌, ◌||◌, List, [], ◌∷◌, Option, none, some, leb, ltb,
  ◌==◌, if◌then◌else◌, Bytes, codes, str_eq, length, take,
}
use zimaos_monitor.Base.Int.{ℤ, pos, negsuc}
use zimaos_monitor.Text.{split}
use zimaos_monitor.SelfUpdate.Host.{
  Environment, Entry, Archive, World, Result, ok, err, Io, ◌>>=◌, ◌>>◌, pure, raise, check,
  or_raise, read, create, write,
}
use zimaos_monitor.SelfUpdate.Download.{
  PrepareError, archive_open, archive_gzip, archive_read, archive_entry, archive_lacks,
  candidate_create, candidate_extract,
}

-- `maxBinarySize = 100 << 20`
abbrev pub max_binary_size : ℕ
max_binary_size = 104_857_600

abbrev pub binary_name : Bytes
binary_name = codes "zimaos-monitor"

-- The last part that is not empty.
last_part : Bytes → List Bytes → Bytes
last_part kept [] = kept
last_part kept ([] ∷ parts) = last_part kept parts
last_part kept ((c ∷ p) ∷ parts) = last_part (c ∷ p) parts

-- `filepath.Base` of a name with a part that is not empty. (For the others Go returns `.` or `/`,
-- which are no names of the binary either.)
unfoldable pub base : Bytes → Bytes
unfolding last_part split
base name = last_part [] (split b'/' name)

-- `header.Size <= 0 || header.Size > maxBinarySize`, refused
abbrev pub fits : ℤ → Bool
fits (pos n) = ltb 0 n && leb n max_binary_size
fits (negsuc n) = false

-- `written == header.Size`
abbrev pub is_size : ℤ → ℕ → Bool
is_size (pos n) written = written == n
is_size (negsuc n) written = false

module _ (env : Environment) (target : Bytes) where
  -- One round for an entry with the binary's name.
  unfoldable pub extract_entry : Entry → Bool → Io PrepareError (Unit {0})
  extract_entry header found = do
    check (not found && header.is_regular && fits header.size) archive_entry
    create env target candidate_create
    let written = take (suc max_binary_size) header.content
    write env target written candidate_extract
    check
        (header.intact
          && is_size header.size (length written)
          && leb (length written) max_binary_size)
        candidate_extract

  -- The loop, up to `io.EOF` or a read error, and the test behind it.
  unfoldable pub extract_entries : List Entry → Bool → Bool → Io PrepareError (Unit {0})
  extract_entries [] complete found = do check complete archive_read; check found archive_lacks
  extract_entries (header ∷ rest) complete found =
      let skip = extract_entries rest complete found in
      let next = extract_entries rest complete true in
      let taken = extract_entry header found >> next in
      if not (str_eq (base header.name) binary_name) then skip else taken

unfoldable pub extract_binary : Environment → Bytes → Bytes → Io PrepareError (Unit {0})
extract_binary env path target = do
  file ← read env path archive_open
  archive ← or_raise (env.unpack file) archive_gzip
  extract_entries env target archive.entries archive.complete false
