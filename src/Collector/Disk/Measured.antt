-- ===== src/Collector/Disk/Measured.antt =====
-- Which disks are in the published state.
use zimaos_monitor.Base.{
  ℕ, List, [], ◌∷◌, ◌++◌, Option, none, some, if◌then◌else◌, Bytes, str_eq, str_eq_iff,
  str_eq-eq-false, Bool-cases, Option-cases, ◌≡◌, ◌≢◌, ◌⊎◌, inl, inr, refl, ap, arith, All, In,
  In-All,
}
use zimaos_monitor.Config.{DiskConfig}
use zimaos_monitor.Collector.Disk.{Usage, DiskStats, usable, stats_of, collect_onto, collect_disks}

module _ {F : Type 0} (usage : Bytes → Option (Usage F)) where
  -- The usage at the path of the disk can be read, and there is space at all.
  abbrev pub Usable : Bytes → Usage F → Type 0
  Usable path u = (usage path ≡ some u) × (u.total ≢ 0)

  abbrev pub Measured : DiskConfig → Type 0
  Measured d = (u : Usage F) × Usable d.path u

  pub usable-Usable : (path : Bytes) (u : Usage F) → usable usage path ≡ some u → Usable path u
  unfolding usable
  usable-Usable path u h = ground arith

  pub Usable-usable : (path : Bytes) (u : Usage F) → Usable path u → usable usage path ≡ some u
  unfolding usable
  Usable-usable path u (e, ne) = ground arith

  pub usable-none : (path : Bytes) → usable usage path ≡ none → (u : Usage F) → ¬ Usable path u
  usable-none path h u good = cc (h, Usable-usable path u good)

  module _ (gigabytes : ℕ → F) where
    -- The last disk of the list with this name that can be measured has these numbers.
    abbrev pub IsLast : List DiskConfig → Bytes → DiskStats F → Type 0
    IsLast disks name s =
        (before : List DiskConfig) × (d : DiskConfig) × (after : List DiskConfig) × (u : Usage F)
        × (disks ≡ before ++ (d ∷ after))
        × (name ≡ d.name)
        × Usable d.path u
        × (s ≡ stats_of usage gigabytes d.path u)
        × All (λ (e : DiskConfig). ¬ ((name ≡ e.name) × Measured e)) after

    abbrev pub Outcome :
        List DiskConfig → Bytes → Option (DiskStats F) → Option (DiskStats F) → Type 0
    Outcome disks name before result =
        ((s : DiskStats F) × IsLast disks name s × (result ≡ some s))
        ⊎ (All (λ (e : DiskConfig). ¬ ((name ≡ e.name) × Measured e)) disks × (result ≡ before))

    later :
        (d : DiskConfig) (disks : List DiskConfig) (name : Bytes) (result : Option (DiskStats F))
        → (s : DiskStats F) × IsLast disks name s × (result ≡ some s)
        → (s : DiskStats F) × IsLast (d ∷ disks) name s × (result ≡ some s)
    later d disks name result (s, (before, e, after, u, shape, named, good, exact, absent), h) =
        (s, (d ∷ before, e, after, u, ap (◌∷◌ d) shape, named, good, exact, absent), h)

    collect_onto-Outcome :
        (disks : List DiskConfig) (result : Bytes → Option (DiskStats F)) (name : Bytes)
        → Outcome disks name (result name) (collect_onto usage gigabytes disks result name)
    unfolding collect_onto
    collect_onto-Outcome [] result name = inr (tt, refl)
    collect_onto-Outcome (d ∷ disks) result name = elim (Option-cases (usable usage d.path)) [
      | inl e ↦ elim (collect_onto-Outcome disks result name) [
        | inl found ↦ inl (later d disks name _ (rw (e, collect_onto) found))
        | inr (absent, same) ↦
            inr ((λ (_, (u, good)). usable-none d.path e u good, absent), rw (e, collect_onto) same)
      ]
      | inr (u, e) ↦
          let next : Bytes → Option (DiskStats F) = λ key.
            if str_eq key d.name then some (stats_of usage gigabytes d.path u) else result key in
          elim (collect_onto-Outcome disks next name) [
            | inl found ↦ inl (later d disks name _ (rw (e, collect_onto) found))
            | inr (absent, same) ↦ elim (Bool-cases (str_eq name d.name)) [
              | inl hit ↦ inl (
                stats_of usage gigabytes d.path u,
                (
                  [],
                  d,
                  disks,
                  u,
                  refl,
                  (str_eq_iff name d.name).0 hit,
                  usable-Usable d.path u e,
                  refl,
                  absent,
                ),
                rw (e, collect_onto) (rw hit at same),
              )
              | inr miss ↦ inr (
                (λ (same_name, _). str_eq-eq-false name d.name miss same_name, absent),
                rw (e, collect_onto) (rw miss at same),
              )
            ]
          ]
    ]

    -- Under each name the state has the numbers of the last disk with this name that can be measured,
    -- and nothing if there is no such disk.
    pub collect_disks_lem :
        (disks : List DiskConfig) (name : Bytes)
        → Outcome disks name none (collect_disks usage gigabytes disks name)
    unfolding collect_disks
    collect_disks_lem disks name = collect_onto-Outcome disks (λ _. none) name

    -- A disk that can be measured is in the state, under its name.
    pub Measured-collect_disks :
        (disks : List DiskConfig) (d : DiskConfig)
        → In d disks
        → Measured d
        → (s : DiskStats F) × (collect_disks usage gigabytes disks d.name ≡ some s)
    Measured-collect_disks disks d i m = elim (collect_disks_lem disks d.name) [
      | inl (s, _, found) ↦ (s, found)
      | inr (absent, _) ↦ absurd (In-All _ d disks absent i (refl, m))
    ]
