-- ===== src/SelfUpdate/Extract/Laws.antt =====
-- What the extraction leaves alone.
use zimaos_monitor.Base.{Bool, true, not, List, [], ◌∷◌, Bytes, ◌≢◌, str_eq, Bool-cases, inl, inr}
use zimaos_monitor.SelfUpdate.Host.{Environment, Entry}
use zimaos_monitor.SelfUpdate.Host.Keep.{
  Keeps, Keeps-bind, Keeps-or_raise, Keeps-check, Keeps-read, Keeps-create, Keeps-write,
}
use zimaos_monitor.SelfUpdate.Extract.{
  base, binary_name, extract_entry, extract_entries, extract_binary,
}

module _ (env : Environment) (p target : Bytes) (ne : p ≢ target) where
  Keeps-extract_entry :
      (header : Entry) (found : Bool) → Keeps p (extract_entry env target header found)
  unfolding extract_entry
  Keeps-extract_entry header found = Keeps-bind p (Keeps-check p _ _) λ _.
      Keeps-bind p (Keeps-create env p target _ ne)
        λ _. Keeps-bind p (Keeps-write env p target _ _ ne) λ _. Keeps-check p _ _

  Keeps-extract_entries :
      (entries : List Entry) (complete found : Bool)
      → Keeps p (extract_entries env target entries complete found)
  unfolding extract_entries
  Keeps-extract_entries [] complete found = Keeps-bind p (Keeps-check p _ _) λ _. Keeps-check p _ _
  Keeps-extract_entries (header ∷ rest) complete found =
      let skip = Keeps-extract_entries rest complete found in
      let next = Keeps-extract_entries rest complete true in
      elim (Bool-cases (not (str_eq (base header.name) binary_name))) [
        | inl other ↦ rw other skip
        | inr same ↦ rw same (Keeps-bind p (Keeps-extract_entry header found) λ _. next)
      ]

  pub Keeps-extract_binary : (path : Bytes) → Keeps p (extract_binary env path target)
  unfolding extract_binary
  Keeps-extract_binary path = Keeps-bind p (Keeps-read env p path _) λ file.
      Keeps-bind p (Keeps-or_raise p _ _) λ archive. Keeps-extract_entries archive.entries _ _
