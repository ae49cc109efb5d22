-- ===== src/Text/Search.antt =====
-- `strings.HasPrefix`, `TrimPrefix`, `HasSuffix`, `Contains`, `ContainsAny`, `ToLower`,
-- `TrimSpace` and `TrimSuffix`.
use mathlib.Core.List.{reverse}
use zimaos_monitor.Base.{
  ℕ, ◌+◌, Bool, true, false, ◌&&◌, ◌||◌, List, [], ◌∷◌, ◌++◌, Option, none, some, leb, ◌==◌, arith,
  if◌then◌else◌, Bytes, codes, ◌≡◌, refl, map,
}

-- What follows a prefix of the text, if it is one.
unfoldable pub strip_prefix : Bytes → Bytes → Option Bytes
strip_prefix s [] = some s
strip_prefix [] (p ∷ ps) = none
strip_prefix (c ∷ s) (p ∷ ps) = if c == p then strip_prefix s ps else none

-- `s == ""`
abbrev pub is_empty : Bytes → Bool
is_empty [] = true
is_empty (c ∷ s) = false

-- `d` where the text is empty.
abbrev pub or_default : Bytes → Bytes → Bytes
or_default [] d = d
or_default (c ∷ s) d = c ∷ s

abbrev pub is_some {ℓ} : {A : Type ℓ} → Option A → Bool
is_some none = false
is_some (some _) = true

abbrev pub value_or {ℓ} : {A : Type ℓ} → A → Option A → A
value_or d none = d
value_or d (some a) = a

abbrev pub has_prefix : Bytes → Bytes → Bool
has_prefix s p = is_some (strip_prefix s p)

abbrev pub trim_prefix : Bytes → Bytes → Bytes
trim_prefix s p = value_or s (strip_prefix s p)

abbrev pub has_suffix : Bytes → Bytes → Bool
has_suffix s p = has_prefix (reverse s) (reverse p)

abbrev pub trim_suffix : Bytes → Bytes → Bytes
trim_suffix s p = elim (strip_prefix (reverse s) (reverse p)) [ none ↦ s | some r ↦ reverse r ]

-- `strings.Contains(s, sub)`
unfoldable pub contains : Bytes → Bytes → Bool
contains [] sub = has_prefix [] sub
contains (c ∷ s) sub = has_prefix (c ∷ s) sub || contains s sub

-- One byte in a set of ASCII bytes.
unfoldable pub one_of : ℕ → Bytes → Bool
one_of c [] = false
one_of c (d ∷ ds) = c == d || one_of c ds

-- `strings.ContainsAny(s, chars)` for ASCII `chars`.
unfoldable pub contains_any_byte : Bytes → Bytes → Bool
unfolding one_of
contains_any_byte [] chars = false
contains_any_byte (c ∷ s) chars = one_of c chars || contains_any_byte s chars

-- ASCII letters; other bytes stay. Go also lowers letters outside ASCII: the callers compare the
-- result with digits and letters that no such letter becomes.
unfoldable pub lower_byte : ℕ → ℕ
lower_byte c = if leb b'A' c && leb c b'Z' then c + 32 else c

unfoldable pub to_lower : Bytes → Bytes
unfolding lower_byte
to_lower [] = []
to_lower (c ∷ s) = lower_byte c ∷ to_lower s

-- `unicode.IsSpace`, by the UTF-8 encodings of the 25 white space characters: what follows one
-- that stands at the front.
strip_first : Bytes → List Bytes → Option Bytes
unfolding strip_prefix
strip_first s [] = none
strip_first s (p ∷ ps) = elim (strip_prefix s p) [ some r ↦ some r | none ↦ strip_first s ps ]

abbrev pub ascii_space : ℕ → Bool
ascii_space c = (leb 9 c && leb c 13) || c == b' '

-- U+0085, U+00A0, U+1680, U+2000 to U+200A, U+2028, U+2029, U+202F, U+205F, U+3000
abbrev wide_spaces : List Bytes
wide_spaces =
    (0xc2 ∷ 0x85 ∷ [])
    ∷ (0xc2 ∷ 0xa0 ∷ [])
    ∷ (0xe1 ∷ 0x9a ∷ 0x80 ∷ [])
    ∷ (0xe2 ∷ 0x80 ∷ 0x80 ∷ [])
    ∷ (0xe2 ∷ 0x80 ∷ 0x81 ∷ [])
    ∷ (0xe2 ∷ 0x80 ∷ 0x82 ∷ [])
    ∷ (0xe2 ∷ 0x80 ∷ 0x83 ∷ [])
    ∷ (0xe2 ∷ 0x80 ∷ 0x84 ∷ [])
    ∷ (0xe2 ∷ 0x80 ∷ 0x85 ∷ [])
    ∷ (0xe2 ∷ 0x80 ∷ 0x86 ∷ [])
    ∷ (0xe2 ∷ 0x80 ∷ 0x87 ∷ [])
    ∷ (0xe2 ∷ 0x80 ∷ 0x88 ∷ [])
    ∷ (0xe2 ∷ 0x80 ∷ 0x89 ∷ [])
    ∷ (0xe2 ∷ 0x80 ∷ 0x8a ∷ [])
    ∷ (0xe2 ∷ 0x80 ∷ 0xa8 ∷ [])
    ∷ (0xe2 ∷ 0x80 ∷ 0xa9 ∷ [])
    ∷ (0xe2 ∷ 0x80 ∷ 0xaf ∷ [])
    ∷ (0xe2 ∷ 0x81 ∷ 0x9f ∷ [])
    ∷ (0xe3 ∷ 0x80 ∷ 0x80 ∷ [])
    ∷ []

unfoldable pub wide_space : Bytes → Option Bytes
unfolding strip_first
wide_space s = strip_first s wide_spaces

-- The encodings backwards, for the end of a text.
unfoldable pub wide_space_end : Bytes → Option Bytes
unfolding strip_first
wide_space_end s = strip_first s (map reverse wide_spaces)

-- Strips white space at the front; `wide` finds the encodings of more than one byte. The fuel is
-- the text itself: each round takes a byte or more.
unfoldable pub skip_space : (Bytes → Option Bytes) → Bytes → Bytes → Bytes
skip_space wide [] s = s
skip_space wide (_ ∷ fuel) [] = []
skip_space wide (_ ∷ fuel) (c ∷ s) = elim (ascii_space c) [
  | true ↦ skip_space wide fuel s
  | false ↦ elim (wide (c ∷ s)) [ none ↦ c ∷ s | some r ↦ skip_space wide fuel r ]
]

abbrev pub trim_left : Bytes → Bytes
trim_left s = skip_space wide_space s s

-- `strings.TrimSpace`
unfoldable pub trim_space : Bytes → Bytes
unfolding skip_space wide_space wide_space_end
trim_space s = let t = reverse (trim_left s) in reverse (skip_space wide_space_end t t)

trim_space_test : trim_space (codes "\t a b \r\n") ≡ codes "a b"
unfolding trim_space
trim_space_test = refl

pub strip_prefix-append : (p s : Bytes) → strip_prefix (p ++ s) p ≡ some s
unfolding strip_prefix
strip_prefix-append [] s = refl
strip_prefix-append (c ∷ p) s = ground (arith, strip_prefix-append p s)

-- What is left stands behind the prefix.
pub strip_prefix-eq-some : (s p r : Bytes) → strip_prefix s p ≡ some r → s ≡ p ++ r
unfolding strip_prefix
strip_prefix-eq-some s [] r h = cc
strip_prefix-eq-some [] (c ∷ p) r h = cc
strip_prefix-eq-some (d ∷ s) (c ∷ p) r h = ground (arith, strip_prefix-eq-some s p r)

pub is_some-eq-true : {A : Type 0} (o : Option A) → is_some o ≡ true → (a : A) × (o ≡ some a)
is_some-eq-true none h = cc
is_some-eq-true (some a) h = (a, refl)
