-- ===== src/SelfUpdate/Extract/Found.antt =====
-- What a successful extraction found: one entry with the binary's name, and its whole content.
use zimaos_monitor.Base.{
  suc, ◌≤◌, ◌<◌, Bool, true, false, ◌&&◌, List, [], ◌∷◌, some, Bytes, ◌≡◌, ◌≢◌, ◌⊎◌, str_eq_iff,
  str_eq-eq-false, arith, ap, sym, ◌∙◌, str_eq, Bool-cases, inl, inr, length, take, take-eq_self,
  leb,
}
use zimaos_monitor.Base.Int.{pos}
use zimaos_monitor.SelfUpdate.Host.{
  Environment, Entry, Archive, World, ok, check, or_raise, read, create, write,
}
use zimaos_monitor.SelfUpdate.Host.Success.{
  bind-eq-ok, check-eq-ok, or_raise-eq-ok, read-eq-ok, write-eq-ok,
}
use zimaos_monitor.SelfUpdate.Download.{
  archive_open, archive_gzip, archive_read, archive_entry, archive_lacks, candidate_create,
  candidate_extract,
}
use zimaos_monitor.SelfUpdate.Extract.{
  max_binary_size, binary_name, base, fits, is_size, extract_entry, extract_entries, extract_binary,
}

-- No entry has the binary's name.
abbrev pub NoBinary : List Entry → Type 0
NoBinary [] = Unit
NoBinary (header ∷ rest) = (base header.name ≢ binary_name) × NoBinary rest

-- A regular entry with the binary's name whose content is `new`, of the size that it declares.
pub record IsBinary (header : Entry) (new : Bytes) : Type 0 where
  pub named : base header.name ≡ binary_name
  pub regular : header.is_regular ≡ true
  pub intact : header.intact ≡ true
  pub content : header.content ≡ new
  pub size : header.size ≡ pos (length new)
  pub some_bytes : 0 < length new
  pub bounded : length new ≤ max_binary_size

-- Just one entry has the binary's name, and its content is `new`.
abbrev pub TheBinary : List Entry → Bytes → Type 0
TheBinary [] new = ⊥
TheBinary (header ∷ rest) new =
    (IsBinary header new × NoBinary rest) ⊎ ((base header.name ≢ binary_name) × TheBinary rest new)

-- The tests on an entry, and the bytes written of it.
IsBinary-of_tests :
    (header : Entry)
    → base header.name ≡ binary_name
    → (header.is_regular && fits header.size) ≡ true
    → (header.intact
        && is_size header.size (length (take (suc max_binary_size) header.content))
        && leb (length (take (suc max_binary_size) header.content)) max_binary_size)
      ≡ true
    → IsBinary header (take (suc max_binary_size) header.content)
IsBinary-of_tests header named first last =
    let bounded : length written ≤ max_binary_size = ground arith in
    let sized : header.size ≡ pos (length written) = ground arith in
    record {
      named = named;
      regular = ground arith;
      intact = ground arith;
      content = sym (take-eq_self (suc max_binary_size) header.content (omega arith));
      size = sized;
      some_bytes = ground (arith, sized);
      bounded = bounded;
    }
  where
    written : Bytes
    written = take (suc max_binary_size) header.content

module _ (env : Environment) (target : Bytes) where
  extract_entry-eq-ok :
      (header : Entry) (found : Bool) (w w' : World) (u : Unit {0})
      → base header.name ≡ binary_name
      → extract_entry env target header found w ≡ (ok u, w')
      → (found ≡ false) × ((new : Bytes) × IsBinary header new × (w'.files target ≡ some new))
  unfolding extract_entry
  extract_entry-eq-ok header found w w' u named h =
      let (_, w₁, checked, h₁) = bind-eq-ok (check _ archive_entry) _ w h in
      let (tests, _) = check-eq-ok _ archive_entry w checked in
      let (_, w₂, _, h₂) = bind-eq-ok (create env target candidate_create) _ w₁ h₁ in
      let (_, w₃, wrote, last) = bind-eq-ok (write env target _ candidate_extract) _ w₂ h₂ in
      let (passed, same) = check-eq-ok _ candidate_extract w₃ last in
      (
        ground arith,
        (
          take (suc max_binary_size) header.content,
          IsBinary-of_tests header named (ground arith) passed,
          ap (λ (x : World). x.files target) same
              ∙ write-eq-ok env target _ candidate_extract w₂ wrote,
        ),
      )

  rest-eq-ok :
      (entries : List Entry) (complete : Bool) (w w' : World) (u : Unit {0})
      → extract_entries env target entries complete true w ≡ (ok u, w')
      → NoBinary entries × (complete ≡ true) × (w' ≡ w)
  unfolding extract_entries
  rest-eq-ok [] complete w w' u h =
      let (_, w₁, checked, last) = bind-eq-ok (check complete archive_read) _ w h in
      let (whole, same) = check-eq-ok complete archive_read w checked in
      let (_, same') = check-eq-ok true archive_lacks w₁ last in (tt, whole, same' ∙ same)
  rest-eq-ok (header ∷ rest) complete w w' u h =
      elim (Bool-cases (str_eq (base header.name) binary_name)) [
        | inl same ↦
            let (_, w₁, first, _) =
              bind-eq-ok (extract_entry env target header true)
                (λ _. extract_entries env target rest complete true) w (rw same at h) in
            let (twice, _) =
              extract_entry-eq-ok header true w w₁ _ ((str_eq_iff _ _).0 same) first in
            cc twice
        | inr other ↦
            let (none_left, whole, kept) = rest-eq-ok rest complete w w' u (rw other at h) in
            ((str_eq-eq-false _ _ other, none_left), whole, kept)
      ]

  entries-eq-ok :
      (entries : List Entry) (complete : Bool) (w w' : World) (u : Unit {0})
      → extract_entries env target entries complete false w ≡ (ok u, w')
      → (complete ≡ true) × ((new : Bytes) × TheBinary entries new × (w'.files target ≡ some new))
  unfolding extract_entries
  entries-eq-ok [] complete w w' u h =
      let (_, w₁, checked, last) = bind-eq-ok (check complete archive_read) _ w h in
      let (lacks, _) = check-eq-ok false archive_lacks w₁ last in cc lacks
  entries-eq-ok (header ∷ rest) complete w w' u h =
      elim (Bool-cases (str_eq (base header.name) binary_name)) [
        | inl same ↦
            let (_, w₁, first, later) =
              bind-eq-ok (extract_entry env target header false)
                (λ _. extract_entries env target rest complete true) w (rw same at h) in
            let (_, (new, binary, wrote)) =
              extract_entry-eq-ok header false w w₁ _ ((str_eq_iff _ _).0 same) first in
            let (none_left, whole, kept) = rest-eq-ok rest complete w₁ w' u later in
            (whole, (new, inl (binary, none_left), ap (λ (x : World). x.files target) kept ∙ wrote))
        | inr other ↦
            let (whole, (new, found, wrote)) = entries-eq-ok rest complete w w' u (rw other at h) in
            (whole, (new, inr (str_eq-eq-false _ _ other, found), wrote))
      ]

-- A successful extraction: the archive at `path` unpacks whole, just one entry has the binary's
-- name, and the target has that entry's content.
pub extract_binary-eq-ok :
    (env : Environment) (path target : Bytes) (w w' : World) (u : Unit {0})
    → extract_binary env path target w ≡ (ok u, w')
    → (file : Bytes) × (archive : Archive) × (new : Bytes) × (w.files path ≡ some file)
      × (env.unpack file ≡ some archive)
      × (archive.complete ≡ true)
      × TheBinary archive.entries new
      × (w'.files target ≡ some new)
unfolding extract_binary
extract_binary-eq-ok env path target w w' u h =
    let (file, w₁, opened, h₁) = bind-eq-ok (read env path archive_open) _ w h in
    let (there, _) = read-eq-ok env path archive_open w opened in
    let (archive, w₂, unpacked, last) =
      bind-eq-ok (or_raise (env.unpack file) archive_gzip) _ w₁ h₁ in
    let (same, _) = or_raise-eq-ok (env.unpack file) archive_gzip w₁ unpacked in
    let (whole, (new, binary, wrote)) =
      entries-eq-ok env target archive.entries archive.complete w₂ w' u last in
    (file, archive, new, there, same, whole, binary, wrote)
