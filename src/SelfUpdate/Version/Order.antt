-- ===== src/SelfUpdate/Version/Order.antt =====
-- `IsNewer` as an order on version texts.
use zimaos_monitor.Base.{
  ◌<◌, true, false, none, some, ◌↔◌, ◌⊎◌, inl, inr, ◌≡◌, arith, Bytes, Option-cases, codes,
}
use zimaos_monitor.SelfUpdate.Version.{
  Version, parts, first_greater, parse_version, is_newer, is_development_version,
}
use zimaos_monitor.SelfUpdate.Version.Match.Development.{IsDevelopment, is_development_version_iff}

-- The order of versions: the first of the three numbers that differs decides.
abbrev pub Precedes : Version → Version → Type 0
Precedes c l =
    (c.major < l.major)
    ⊎ ((c.major ≡ l.major) × (c.minor < l.minor))
    ⊎ ((c.major ≡ l.major) × (c.minor ≡ l.minor) × (c.patch < l.patch))

first_greater_iff : (l c : Version) → (first_greater (parts l) (parts c) ≡ true) ↔ Precedes c l
unfolding first_greater
first_greater_iff l c = ground arith

-- What is installed gives way to version `l`: it is an older stable version, or it is `dev` or a
-- development version.
abbrev pub GivesWay : Bytes → Version → Type 0
GivesWay current l =
    ((c : Version) × (parse_version current ≡ some c) × Precedes c l)
    ⊎ ((parse_version current ≡ none) × ((current ≡ codes "dev") ⊎ IsDevelopment current))

-- The same by the matcher of the development version pattern
abbrev Matched : Bytes → Version → Type 0
Matched current l =
    ((c : Version) × (parse_version current ≡ some c) × Precedes c l)
    ⊎ ((parse_version current ≡ none)
        × ((current ≡ codes "dev") ⊎ (is_development_version current ≡ true)))

is_newer-Matched :
    (current latest : Bytes)
    → (is_newer current latest ≡ true)
      ↔ ((l : Version) × (parse_version latest ≡ some l) × Matched current l)
unfolding is_newer
is_newer-Matched current latest = (
  λ h. elim (Option-cases (parse_version latest)) [
    | inl e ↦ ground arith
    | inr (l, e) ↦ (l, e, way_of_newer l e h)
  ],
  λ (l, e, way). ground arith,
)
  where
    way_of_newer :
        (l : Version)
        → parse_version latest ≡ some l
        → is_newer current latest ≡ true
        → Matched current l
    way_of_newer l e h = elim (Option-cases (parse_version current)) [
      | inl old ↦ inr (ground arith)
      | inr (c, old) ↦ inl (c, old, ground arith)
    ]

GivesWay-Matched : (current : Bytes) (l : Version) → Matched current l ↔ GivesWay current l
GivesWay-Matched current l = (
  λ h. elim h [
    | inl older ↦ inl older
    | inr (unstable, inl dev) ↦ inr (unstable, inl dev)
    | inr (unstable, inr m) ↦ inr (unstable, inr ((is_development_version_iff current).0 m))
  ],
  λ h. elim h [
    | inl older ↦ inl older
    | inr (unstable, inl dev) ↦ inr (unstable, inl dev)
    | inr (unstable, inr d) ↦ inr (unstable, inr ((is_development_version_iff current).1 d))
  ],
)

-- `IsNewer` holds exactly if the latest text is a stable version and the current one is an older
-- stable version, `dev`, or a development version `a.b.c-n-ghash`, with a `v` in front or not and
-- `-dirty` behind or not.
pub is_newer_iff :
    (current latest : Bytes)
    → (is_newer current latest ≡ true)
      ↔ ((l : Version) × (parse_version latest ≡ some l) × GivesWay current l)
is_newer_iff current latest = (
  λ h.
      let (l, e, m) = (is_newer-Matched current latest).0 h in
      (l, e, (GivesWay-Matched current l).0 m),
  λ (l, e, way). (is_newer-Matched current latest).1 (l, e, (GivesWay-Matched current l).1 way),
)

-- `IsNewer` is a strict order on all texts: nothing is newer than itself, no two texts are newer
-- than one another, and an update to an update is an update.
pub is_newer_strict_order :
    ((s : Bytes) → is_newer s s ≡ false)
    × ((s t : Bytes) → is_newer s t ≡ true → is_newer t s ≡ false)
    × ((s t u : Bytes) → is_newer s t ≡ true → is_newer t u ≡ true → is_newer s u ≡ true)
unfolding is_newer
is_newer_strict_order = (λ s. ground arith, λ s t h. ground arith, λ s t u h k. ground arith)
