-- ===== src/SelfUpdate/Version/Parse.antt =====
-- What `parseVersion` accepts and returns, and that it reads back printed versions.
use zimaos_monitor.Base.{ℕ, ◌≤◌, ◌∷◌, some, ◌↔◌, ◌⊎◌, inl, inr, ◌≡◌, refl, bind-eq-some, Bytes, sym}
use zimaos_monitor.Text.{
  value, parse_uint, parse_uint_sound, parse_uint_complete, format, parse_uint-format,
}
use zimaos_monitor.SelfUpdate.Version.{Version, max_u64, stable_submatch, parse_version}
use zimaos_monitor.SelfUpdate.Version.Match.{Number, dotted, IsStable, stable_submatch_iff}

-- `s` spells the version `v`, and each number fits 64 bits.
pub record Spells (s : Bytes) (v : Version) : Type 0 where
  pub a : Bytes
  pub b : Bytes
  pub c : Bytes
  pub stable : IsStable s a b c
  pub major : value a ≡ v.major
  pub minor : value b ≡ v.minor
  pub patch : value c ≡ v.patch
  pub major_fits : v.major ≤ max_u64
  pub minor_fits : v.minor ≤ max_u64
  pub patch_fits : v.patch ≤ max_u64

parse_version_sound : (s : Bytes) (v : Version) → parse_version s ≡ some v → Spells s v
unfolding parse_version
parse_version_sound s v h =
    let ((a, b, c), e, h₁) = bind-eq-some (stable_submatch s) _ h in
    let (x, ex, h₂) = bind-eq-some (parse_uint max_u64 a) _ h₁ in
    let (y, ey, h₃) = bind-eq-some (parse_uint max_u64 b) _ h₂ in
    let (z, ez, last) = bind-eq-some (parse_uint max_u64 c) _ h₃ in
    let (_, _, vx, fx) = parse_uint_sound max_u64 a ex in
    let (_, _, vy, fy) = parse_uint_sound max_u64 b ey in
    let (_, _, vz, fz) = parse_uint_sound max_u64 c ez in
    let same_x : x ≡ v.major = cc last in
    let same_y : y ≡ v.minor = cc last in
    let same_z : z ≡ v.patch = cc last in
    record {
      a = a;
      b = b;
      c = c;
      stable = (stable_submatch_iff s a b c).0 e;
      major = cc (vx, same_x);
      minor = cc (vy, same_y);
      patch = cc (vz, same_z);
      major_fits = rw same_x at fx;
      minor_fits = rw same_y at fy;
      patch_fits = rw same_z at fz;
    }

parse-Number :
    (a : Bytes) (x : ℕ) → Number a → value a ≡ x → x ≤ max_u64 → parse_uint max_u64 a ≡ some x
parse-Number a x (d, ne) e fits = rw e at (parse_uint_complete max_u64 a ne d (rw e fits))

parse_version_complete : (s : Bytes) (v : Version) → Spells s v → parse_version s ≡ some v
unfolding parse_version
parse_version_complete s v p =
    let found : stable_submatch s ≡ some (p.a, p.b, p.c) =
      (stable_submatch_iff s p.a p.b p.c).1 p.stable in
    rw (
      found,
      parse-Number p.a v.major p.stable.0 p.major p.major_fits,
      parse-Number p.b v.minor p.stable.1 p.minor p.minor_fits,
      parse-Number p.c v.patch p.stable.2 p.patch p.patch_fits,
    )

-- `parseVersion` returns a version exactly on the texts that spell it.
pub parse_version_iff : (s : Bytes) (v : Version) → (parse_version s ≡ some v) ↔ Spells s v
parse_version_iff s v = (parse_version_sound s v, parse_version_complete s v)

format-Number : (n : ℕ) → n ≤ max_u64 → Number (format n) × (value (format n) ≡ n)
format-Number n h =
    let (ne, digits, exact, _) =
      parse_uint_sound max_u64 (format n) (parse_uint-format max_u64 n h) in
    ((digits, ne), sym exact)

-- `fmt.Sprintf("%d.%d.%d", …)`
abbrev pub print : Version → Bytes
print v = dotted (format v.major) (format v.minor) (format v.patch)

-- A version whose numbers fit 64 bits is read back from its print, with or without a `v`.
pub parse_version-print :
    (v : Version)
    → v.major ≤ max_u64
    → v.minor ≤ max_u64
    → v.patch ≤ max_u64
    → (parse_version (print v) ≡ some v) × (parse_version (b'v' ∷ print v) ≡ some v)
parse_version-print v fx fy fz = (
  parse_version_complete (print v) v (spells (print v) (inl refl)),
  parse_version_complete (b'v' ∷ print v) v (spells (b'v' ∷ print v) (inr refl)),
)
  where
    spells : (s : Bytes) → (s ≡ print v) ⊎ (s ≡ b'v' ∷ print v) → Spells s v
    spells s shape =
        let (nx, ex) = format-Number v.major fx in
        let (ny, ey) = format-Number v.minor fy in
        let (nz, ez) = format-Number v.patch fz in
        record {
          a = format v.major;
          b = format v.minor;
          c = format v.patch;
          stable = (nx, ny, nz, shape);
          major = ex;
          minor = ey;
          patch = ez;
          major_fits = fx;
          minor_fits = fy;
          patch_fits = fz;
        }
