-- ===== src/SelfUpdate/Extract/Succeeds.antt =====
-- Which archives are extracted where no system call fails.
use zimaos_monitor.Base.{
  ℕ, suc, ◌+◌, true, false, List, [], ◌∷◌, none, some, Bytes, ◌≡◌, inl, inr, refl, arith, str_eq,
  str_eq_iff, take, take-eq_whole, Bool-cases,
}
use zimaos_monitor.SelfUpdate.Host.{
  Environment, Entry, Archive, World, Result, ok, err, Io, bind_result, ◌>>=◌, ◌>>◌, or_raise, read,
  create, write, attempt,
}
use zimaos_monitor.SelfUpdate.Download.{PrepareError, archive_open, archive_gzip}
use zimaos_monitor.SelfUpdate.Extract.{
  max_binary_size, binary_name, base, extract_entry, extract_entries, extract_binary,
}
use zimaos_monitor.SelfUpdate.Extract.Found.{IsBinary, NoBinary, TheBinary}

module _ (env : Environment) (target : Bytes) (calls : (t : ℕ) → env.fails t ≡ false) where
  -- The action succeeds, and then the target has this content.
  abbrev pub Leaves : Bytes → Result PrepareError (Unit {0}) × World → Type 0
  Leaves new (r, w) = (r ≡ ok tt) × (w.files target ≡ some new)

  extract_entry-Leaves :
      (header : Entry) (new : Bytes) (w : World)
      → IsBinary header new
      → w.files target ≡ none
      → Leaves new (extract_entry env target header false w)
  unfolding extract_entry create write attempt
  extract_entry-Leaves header new w b absent =
      let whole : take (suc max_binary_size) header.content ≡ new =
        rw b.content (take-eq_whole (suc max_binary_size) new (omega (arith, b.bounded))) in
      rw (b.regular, b.size, whole, b.intact)
        (ground (arith, absent, b.bounded, b.some_bytes, calls w.clock, calls (w.clock + 1)))

  rest-eq-ok :
      (rest : List Entry) (w : World)
      → NoBinary rest
      → extract_entries env target rest true true w ≡ (ok tt, w)
  unfolding extract_entries ◌>>=◌
  rest-eq-ok [] w h = refl
  rest-eq-ok (header ∷ rest) w (other, h) =
      elim (Bool-cases (str_eq (base header.name) binary_name)) [
        | inl e ↦ absurd (other ((str_eq_iff _ _).0 e))
        | inr e ↦ rw e (rest-eq-ok rest w h)
      ]

  then-Leaves :
      (m k : Io PrepareError (Unit {0})) (new : Bytes) (w : World)
      → Leaves new (m w)
      → ((w' : World) → k w' ≡ (ok tt, w'))
      → Leaves new ((m >> k) w)
  unfolding ◌>>=◌
  then-Leaves m k new w (e, there) quiet = go (m w).0 (m w).1 e there
    where
      go :
          (r : Result PrepareError (Unit {0})) (v : World)
          → r ≡ ok tt
          → v.files target ≡ some new
          → Leaves new (bind_result r v (λ _. k))
      go (ok _) v e h = rw (quiet v) (refl, h)
      go (err x) v e h = absurd (cc e)

  extract_entries-Leaves :
      (entries : List Entry) (new : Bytes) (w : World)
      → TheBinary entries new
      → w.files target ≡ none
      → Leaves new (extract_entries env target entries true false w)
  unfolding extract_entries
  extract_entries-Leaves [] new w h absent = absurd h
  extract_entries-Leaves (header ∷ rest) new w (inl (b, none_)) absent =
      rw ((str_eq_iff (base header.name) binary_name).1 b.named) (
        then-Leaves (extract_entry env target header false) _ new w
          (extract_entry-Leaves header new w b absent) (λ w'. rest-eq-ok rest w' none_))
  extract_entries-Leaves (header ∷ rest) new w (inr (other, h)) absent =
      elim (Bool-cases (str_eq (base header.name) binary_name)) [
        | inl e ↦ absurd (other ((str_eq_iff _ _).0 e))
        | inr e ↦ rw e (extract_entries-Leaves rest new w h absent)
      ]

  bind-Leaves :
      {A : Type 0} (m : Io PrepareError A) (f : A → Io PrepareError (Unit {0})) (new : Bytes)
      (w v : World) (a : A)
      → m w ≡ (ok a, v)
      → Leaves new (f a v)
      → Leaves new ((m >>= f) w)
  unfolding ◌>>=◌
  bind-Leaves m f new w v a e h = rw e h

  -- Where no system call fails, and the target is not there, the one binary of a whole archive is
  -- extracted.
  pub extract_binary-Leaves :
      (path file new : Bytes) (archive : Archive) (w : World)
      → w.files path ≡ some file
      → env.unpack file ≡ some archive
      → archive.complete ≡ true
      → TheBinary archive.entries new
      → w.files target ≡ none
      → Leaves new (extract_binary env path target w)
  unfolding extract_binary
  extract_binary-Leaves path file new archive w there unpacked whole binary absent =
      let w₁ : World = record w { clock = w.clock + 1 } in
      bind-Leaves (read env path archive_open) _ new w w₁ file read_file (
        bind-Leaves (or_raise (env.unpack file) archive_gzip) _ new w₁ w₁ archive (rw unpacked refl)
          (rw whole (extract_entries-Leaves archive.entries new w₁ binary absent)))
    where
      read_file : read env path archive_open w ≡ (ok file, record w { clock = w.clock + 1 })
      read_file = unfold read attempt in ground (arith, there, calls w.clock)
