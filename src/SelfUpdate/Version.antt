-- ===== src/SelfUpdate/Version.antt =====
-- internal/selfupdate/release.go: the two version patterns, `parseVersion` and `IsNewer`.
pub mod Match
pub mod Parse
pub mod Order
use zimaos_monitor.Base.{
  ℕ, ◌-◌, ◌^◌, Bool, true, false, ◌||◌, List, [], ◌∷◌, ◌++◌, Option, none, some, ltb, ◌==◌,
  if◌then◌else◌, ◌>>=◌, Bytes, codes, str_eq, ◌≡◌, refl,
}
use zimaos_monitor.Text.{is_digit, within, parse_uint, is_some, strip_prefix}

-- The longest run of accepted bytes at the front, and the rest.
span : (ℕ → Bool) → Bytes → Bytes × Bytes
span p [] = ([], [])
span p (c ∷ s) = let (t, r) = span p s in if p c then (c ∷ t, r) else ([], c ∷ s)

nonempty : Bytes × Bytes → Option (Bytes × Bytes)
nonempty ([], r) = none
nonempty (c ∷ t, r) = some (c ∷ t, r)

-- `p+`: every pattern here goes on with a byte that `p` refuses, so the longest run is the match.
plus : (ℕ → Bool) → Bytes → Option (Bytes × Bytes)
plus p s = nonempty (span p s)

literal : ℕ → Bytes → Option Bytes
literal d [] = none
literal d (c ∷ s) = if c == d then some s else none

-- `v?`
skip_v : Bytes → Bytes
skip_v [] = []
skip_v (c ∷ s) = if c == b'v' then s else c ∷ s

-- `$`
pub at_end : Bytes → Option (Unit {0})
at_end [] = some tt
at_end (c ∷ s) = none

-- `(\d+)\.`
number_dot : Bytes → Option (Bytes × Bytes)
unfolding plus nonempty span literal
number_dot s = do (a, r) ← plus is_digit s; r' ← literal b'.' r; some (a, r')

-- `(\d+)\.(\d+)\.(\d+)`, with what follows it.
pub three_numbers : Bytes → Option ((Bytes × Bytes × Bytes) × Bytes)
unfolding number_dot
three_numbers s = do
  (a, r) ← number_dot s
  (b, r') ← number_dot r
  (c, rest) ← plus is_digit r'
  some ((a, b, c), rest)

-- The groups of `^v?(\d+)\.(\d+)\.(\d+)$`.
unfoldable pub stable_submatch : Bytes → Option (Bytes × Bytes × Bytes)
unfolding three_numbers skip_v at_end
stable_submatch s = do (groups, rest) ← three_numbers (skip_v s); _ ← at_end rest; some groups

abbrev pub is_lower_hex : ℕ → Bool
is_lower_hex c = is_digit c || within b'a' b'f' c

-- `(?:-dirty)?$`
dirty_end : Bytes → Option (Unit {0})
unfolding at_end
dirty_end s = elim (strip_prefix s (codes "-dirty")) [ none ↦ at_end s | some r ↦ at_end r ]

-- `^v?\d+\.\d+\.\d+-\d+-g[0-9a-f]+(?:-dirty)?$`
unfoldable pub is_development_version : Bytes → Bool
unfolding three_numbers skip_v dirty_end strip_prefix
is_development_version s = is_some (do
  (_, r₁) ← three_numbers (skip_v s)
  r₂ ← literal b'-' r₁
  (_, r₃) ← plus is_digit r₂
  r₄ ← literal b'-' r₃
  r₅ ← literal b'g' r₄
  (_, r₆) ← plus is_lower_hex r₅
  dirty_end r₆)

-- `[3]uint64`
pub record Version : Type 0 where
  pub major : ℕ
  pub minor : ℕ
  pub patch : ℕ

abbrev pub max_u64 : ℕ
max_u64 = 2 ^ 64 - 1

unfoldable pub parse_version : Bytes → Option Version
unfolding stable_submatch parse_uint
parse_version value = do
  (a, b, c) ← stable_submatch value
  x ← parse_uint max_u64 a
  y ← parse_uint max_u64 b
  z ← parse_uint max_u64 c
  some (record { major = x; minor = y; patch = z })

abbrev pub parts : Version → List ℕ
parts v = v.major ∷ v.minor ∷ v.patch ∷ []

-- The loop of `IsNewer`: the first place where the two differ decides.
first_greater : List ℕ → List ℕ → Bool
first_greater (l ∷ ls) (c ∷ cs) = if l == c then first_greater ls cs else ltb c l
first_greater _ _ = false

-- A current version that is no stable one.
is_development : Bytes → Bool
is_development current = str_eq current (codes "dev") || is_development_version current

unfoldable pub is_newer : Bytes → Bytes → Bool
unfolding first_greater is_development
is_newer current latest = elim (parse_version latest) [
  | none ↦ false
  | some l ↦ elim (parse_version current) [
    | none ↦ is_development current
    | some c ↦ first_greater (parts l) (parts c)
  ]
]
