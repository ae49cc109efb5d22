-- ===== src/Mqtt/Discovery/Suffixes.antt =====
-- What follows the device ID in the unique IDs of the sensors, without the rest of the records.
use mathlib.Core.List.{reverse, reverse-append, append_cancel_left, append_cancel_right}
use zimaos_monitor.Base.{
  ℕ, zero, suc, ◌+◌, ◌≤◌, ◌≡◌, ◌≢◌, ◌↔◌, ◌⊎◌, inl, inr, refl, sym, ap, ◌∙◌, arith, List, [], ◌∷◌,
  ◌++◌, subst, In, In-append-cases, In-append-right, map, All, In-All, Bytes, codes,
}
use zimaos_monitor.Base.Distinct.{Distinct, Distinct-append, Distinct-map, In-map-cases, Disjoint}
use zimaos_monitor.Text.{format, parse_uint, parse_uint-format}

unfoldable pub fixed_suffixes : List Bytes
fixed_suffixes =
    codes "_cpu_temp"
    ∷ codes "_cpu_watts"
    ∷ codes "_cpu_usage_pct"
    ∷ codes "_ram_used_pct"
    ∷ codes "_ram_available_gb"
    ∷ codes "_ram_total_gb"
    ∷ codes "_load_avg_1"
    ∷ codes "_load_avg_5"
    ∷ codes "_load_avg_15"
    ∷ codes "_uptime_seconds"
    ∷ []

pub data Field : Type 0 where
  used_pct used_gb total_gb free_gb : Field

abbrev pub field_end : Field → Bytes
field_end used_pct = codes "_used_pct"
field_end used_gb = codes "_used_gb"
field_end total_gb = codes "_total_gb"
field_end free_gb = codes "_free_gb"

abbrev disk_suffix : Bytes → Field → Bytes
disk_suffix key field = codes "_disk_" ++ (key ++ field_end field)

abbrev all_fields : List Field
all_fields = used_pct ∷ used_gb ∷ total_gb ∷ free_gb ∷ []

unfoldable pub disk_suffixes : List Bytes → List Bytes
disk_suffixes [] = []
disk_suffixes (key ∷ keys) = map (disk_suffix key) all_fields ++ disk_suffixes keys

abbrev core_suffix : ℕ → Bytes
core_suffix i = codes "_cpu_core_" ++ (format i ++ codes "_pct")

unfoldable pub core_suffixes : ℕ → ℕ → List Bytes
core_suffixes zero i = []
core_suffixes (suc left) i = core_suffix i ∷ core_suffixes left (i + 1)

Distinct-fixed : Distinct fixed_suffixes
unfolding fixed_suffixes
Distinct-fixed = ground arith

fourth : Bytes → ℕ
fourth (_ ∷ _ ∷ _ ∷ c ∷ _) = c
fourth _ = 0

-- The fourth byte from the end
letter : Field → ℕ
letter used_pct = b'_'
letter used_gb = b'd'
letter total_gb = b'l'
letter free_gb = b'e'

fourth-field_end : (f : Field) (s : Bytes) → fourth (reverse (s ++ field_end f)) ≡ letter f
unfolding fourth letter
fourth-field_end used_pct s = ap fourth (reverse-append s (codes "_used_pct"))
fourth-field_end used_gb s = ap fourth (reverse-append s (codes "_used_gb"))
fourth-field_end total_gb s = ap fourth (reverse-append s (codes "_total_gb"))
fourth-field_end free_gb s = ap fourth (reverse-append s (codes "_free_gb"))

letter-injective : (f g : Field) → letter f ≡ letter g → f ≡ g
unfolding letter
letter-injective f g e = ground arith

-- The end of a disk's suffix tells the field, and the rest the key.
disk_suffix-injective :
    (k l : Bytes) (f g : Field) → disk_suffix k f ≡ disk_suffix l g → (k ≡ l) × (f ≡ g)
disk_suffix-injective k l f g e =
    (append_cancel_right k l (field_end g) (ap (λ h. k ++ field_end h) (sym same) ∙ ends), same)
  where
    ends : k ++ field_end f ≡ l ++ field_end g
    ends = append_cancel_left (codes "_disk_") (k ++ field_end f) (l ++ field_end g) e

    same : f ≡ g
    same =
        letter-injective f g
          (sym (fourth-field_end f k) ∙ ap (λ x. fourth (reverse x)) ends ∙ fourth-field_end g l)

core_suffix-injective : (i j : ℕ) → core_suffix i ≡ core_suffix j → i ≡ j
core_suffix-injective i j e = bounded (i + j) (omega arith) (omega arith)
  where
    same : format i ≡ format j
    same = append_cancel_right (format i) (format j) (codes "_pct") (
        append_cancel_left (codes "_cpu_core_") (format i ++ codes "_pct")
          (format j ++ codes "_pct") e)

    bounded : (max : ℕ) → i ≤ max → j ≤ max → i ≡ j
    bounded max h h' =
        cc (parse_uint-format max i h, ap (parse_uint max) same, parse_uint-format max j h')

In-core_suffixes :
    (x : Bytes) (left i : ℕ) → In x (core_suffixes left i) → (j : ℕ) × (i ≤ j) × (x ≡ core_suffix j)
unfolding core_suffixes
In-core_suffixes x zero i h = absurd h
In-core_suffixes x (suc left) i (inl e) = (i, omega arith, e)
In-core_suffixes x (suc left) i (inr h) =
    let (j, later, e) = In-core_suffixes x left (i + 1) h in (j, omega arith, e)

Distinct-core_suffixes : (left i : ℕ) → Distinct (core_suffixes left i)
unfolding core_suffixes
Distinct-core_suffixes zero i = tt
Distinct-core_suffixes (suc left) i = (
  λ h.
      let (j, later, e) = In-core_suffixes (core_suffix i) left (i + 1) h in
      absurd (omega (arith, core_suffix-injective i j e, later)),
  Distinct-core_suffixes left (i + 1),
)

In-disk_suffixes :
    (x : Bytes) (keys : List Bytes)
    → In x (disk_suffixes keys)
    → (k : Bytes) × (f : Field) × In k keys × (x ≡ disk_suffix k f)
unfolding disk_suffixes
In-disk_suffixes x [] h = absurd h
In-disk_suffixes x (k ∷ keys) h =
    go (In-append-cases x (map (disk_suffix k) all_fields) (disk_suffixes keys) h)
      (In-disk_suffixes x keys)
  where
    go :
        In x (map (disk_suffix k) all_fields) ⊎ In x (disk_suffixes keys)
        → (In x (disk_suffixes keys)
            → (l : Bytes) × (f : Field) × In l keys × (x ≡ disk_suffix l f))
        → (l : Bytes) × (f : Field) × In l (k ∷ keys) × (x ≡ disk_suffix l f)
    go (inl i) next =
        let (f, _, e) = In-map-cases (disk_suffix k) x all_fields i in (k, f, inl refl, e)
    go (inr i) next = let (l, f, j, e) = next i in (l, f, inr j, e)

disk_suffix-In :
    (k : Bytes) (keys : List Bytes) → In k keys → In (disk_suffix k used_pct) (disk_suffixes keys)
unfolding disk_suffixes
disk_suffix-In k [] i = absurd i
disk_suffix-In k (l ∷ keys) (inl e) = inl (ap (λ x. disk_suffix x used_pct) e)
disk_suffix-In k (l ∷ keys) (inr i) =
    In-append-right (disk_suffix k used_pct) (map (disk_suffix l) all_fields) (disk_suffixes keys)
      (disk_suffix-In k keys i)

Distinct-all_fields : Distinct all_fields
Distinct-all_fields = ground arith

-- The suffixes of the disks differ exactly if the keys do.
Distinct-disk_suffixes : (keys : List Bytes) → Distinct (disk_suffixes keys) ↔ Distinct keys
unfolding disk_suffixes
Distinct-disk_suffixes [] = (λ _. tt, λ _. tt)
Distinct-disk_suffixes (k ∷ keys) = (
  λ h.
      let (_, rest, apart) =
        (Distinct-append (map (disk_suffix k) all_fields) (disk_suffixes keys)).0 h in
      (
        λ i. apart (disk_suffix k used_pct) (inl refl) (disk_suffix-In k keys i),
        (Distinct-disk_suffixes keys).0 rest,
      ),
  λ (fresh, rest). (Distinct-append (map (disk_suffix k) all_fields) (disk_suffixes keys)).1 (
    (Distinct-map (disk_suffix k) (λ f g e. (disk_suffix-injective k k f g e).1) all_fields).1
        Distinct-all_fields,
    (Distinct-disk_suffixes keys).1 rest,
    λ x i j.
        let (f, _, e) = In-map-cases (disk_suffix k) x all_fields i in
        let (l, g, there, e') = In-disk_suffixes x keys j in
        fresh (subst (λ y. In y keys) (sym (disk_suffix-injective k l f g (sym e ∙ e')).0) there),
  ),
)

-- The suffixes of the fixed sensors are none of a disk or a core.
IsOther : Bytes → Type 0
IsOther s = (t : Bytes) → s ≢ codes "_disk_" ++ t × s ≢ codes "_cpu_core_" ++ t

fixed_suffixes-IsOther : All IsOther fixed_suffixes
unfolding fixed_suffixes IsOther
fixed_suffixes-IsOther = ground arith

-- The suffixes of all sensors differ exactly if the keys of the disks do.
pub Distinct-suffixes_iff :
    (keys : List Bytes) (cores : ℕ)
    → Distinct (fixed_suffixes ++ (disk_suffixes keys ++ core_suffixes cores 0)) ↔ Distinct keys
Distinct-suffixes_iff keys cores = (
  λ h.
      let (_, rest, _) =
        (Distinct-append fixed_suffixes (disk_suffixes keys ++ core_suffixes cores 0)).0 h in
      (Distinct-disk_suffixes keys).0
        ((Distinct-append (disk_suffixes keys) (core_suffixes cores 0)).0 rest).0,
  λ h. (Distinct-append fixed_suffixes (disk_suffixes keys ++ core_suffixes cores 0)).1 (
    Distinct-fixed,
    (Distinct-append (disk_suffixes keys) (core_suffixes cores 0)).1
        ((Distinct-disk_suffixes keys).1 h, Distinct-core_suffixes cores 0, apart),
    others,
  ),
)
  where
    apart : Disjoint (disk_suffixes keys) (core_suffixes cores 0)
    apart x i j =
        let (k, f, _, e) = In-disk_suffixes x keys i in
        let (n, _, e') = In-core_suffixes x cores 0 j in
        differ (k ++ field_end f) (format n ++ codes "_pct") (sym e ∙ e')
      where
        differ : (s t : Bytes) → codes "_disk_" ++ s ≢ codes "_cpu_core_" ++ t
        differ s t e = ground arith

    others : Disjoint fixed_suffixes (disk_suffixes keys ++ core_suffixes cores 0)
    others x i j = elim (In-append-cases x (disk_suffixes keys) (core_suffixes cores 0) j) [
      | inl h ↦ let (k, f, _, e) = In-disk_suffixes x keys h in (other (k ++ field_end f)).0 e
      | inr h ↦
          let (n, _, e) = In-core_suffixes x cores 0 h in (other (format n ++ codes "_pct")).1 e
    ]
      where
        other : (t : Bytes) → x ≢ codes "_disk_" ++ t × x ≢ codes "_cpu_core_" ++ t
        other = unfold IsOther in In-All IsOther x fixed_suffixes fixed_suffixes-IsOther i
