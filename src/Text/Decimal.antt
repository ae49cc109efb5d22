-- ===== src/Text/Decimal.antt =====
-- `strconv.ParseUint(s, 10, bits)` and the decimal print of a number.
use zimaos_monitor.Base.{
  ℕ, zero, suc, ◌+◌, ◌-◌, ◌*◌, ◌/◌, ◌%◌, ◌≤◌, ◌<◌, Bool, true, ◌&&◌, [], ◌∷◌, Option, none, some,
  ltb, leb, ◌==◌, if◌then◌else◌, Bytes, ◌≡◌, ◌≢◌, refl, arith, All,
}

abbrev pub within : ℕ → ℕ → ℕ → Bool
within lo hi c = leb lo c && leb c hi

abbrev pub is_digit : ℕ → Bool
is_digit = within b'0' b'9'

-- The digits read so far spell `n`; a value above `max` is out of range.
pub scan : ℕ → Bytes → ℕ → Option ℕ
scan max [] n = some n
scan max (c ∷ s) n =
    let d = c - b'0' in
    if is_digit c then if ltb max (n * 10 + d) then none else scan max s (n * 10 + d) else none

-- `max` is the greatest value of the given number of bits.
unfoldable pub parse_uint : ℕ → Bytes → Option ℕ
unfolding scan
parse_uint max [] = none
parse_uint max (c ∷ s) = scan max (c ∷ s) 0

-- The number that digits spell behind `n`.
abbrev pub value_onto : ℕ → Bytes → ℕ
value_onto n [] = n
value_onto n (c ∷ s) = value_onto (n * 10 + (c - b'0')) s

abbrev pub value : Bytes → ℕ
value = value_onto 0

abbrev pub Digits : Bytes → Type 0
Digits = All (λ c. is_digit c ≡ true)

le-value_onto : (s : Bytes) (n : ℕ) → n ≤ value_onto n s
le-value_onto [] n = omega arith
le-value_onto (c ∷ s) n = omega (arith, le-value_onto s (n * 10 + (c - b'0')))

scan_sound :
    (max : ℕ) (s : Bytes) (n r : ℕ)
    → n ≤ max
    → scan max s n ≡ some r
    → Digits s × (r ≡ value_onto n s) × (r ≤ max)
unfolding scan
scan_sound max [] n r fits h = ground arith
scan_sound max (c ∷ s) n r fits h = ground (arith, scan_sound max s (n * 10 + (c - b'0')) r)

scan_complete :
    (max : ℕ) (s : Bytes) (n : ℕ)
    → Digits s
    → value_onto n s ≤ max
    → scan max s n ≡ some (value_onto n s)
unfolding scan
scan_complete max [] n _ _ = refl
scan_complete max (c ∷ s) n (hc, hs) fits =
    let m = n * 10 + (c - b'0') in ground (arith, scan_complete max s m hs fits, le-value_onto s m)

-- Accepted texts are one or more digits, and the result is the number that they spell.
pub parse_uint_sound :
    (max : ℕ) (s : Bytes) {r : ℕ}
    → parse_uint max s ≡ some r
    → (s ≢ []) × Digits s × (r ≡ value s) × (r ≤ max)
unfolding parse_uint
parse_uint_sound max [] h = cc
parse_uint_sound max (c ∷ s) {r} h =
    let (ds, exact, fits) = scan_sound max (c ∷ s) 0 r (omega arith) h in (cc, ds, exact, fits)

-- Nothing that fits is refused.
pub parse_uint_complete :
    (max : ℕ) (s : Bytes) → s ≢ [] → Digits s → value s ≤ max → parse_uint max s ≡ some (value s)
unfolding parse_uint
parse_uint_complete max [] h = absurd (h refl)
parse_uint_complete max (c ∷ s) _ = scan_complete max (c ∷ s) 0

-- `%d`: the last digit goes in front of `out`, and the fuel `n + 1` is more than the digits.
pub emit : ℕ → ℕ → Bytes → Bytes
emit zero n out = out
emit (suc fuel) n out =
    let rest = emit fuel (n / 10) ((b'0' + n % 10) ∷ out) in if n == 0 then out else rest

unfoldable pub format : ℕ → Bytes
unfolding emit
format n = if n == 0 then b'0' ∷ [] else emit (suc n) n []

scan_last :
    (max n : ℕ) (out : Bytes) → n ≤ max → scan max ((b'0' + n % 10) ∷ out) (n / 10) ≡ scan max out n
unfolding scan
scan_last max n out h = ground arith

scan-emit :
    (max fuel n : ℕ) (out : Bytes)
    → n < fuel
    → n ≤ max
    → scan max (emit fuel n out) 0 ≡ scan max out n
unfolding emit
scan-emit max zero n out h fits = elim h [ ]
scan-emit max (suc fuel) n out h fits =
    ground (arith, scan-emit max fuel (n / 10) ((b'0' + n % 10) ∷ out), scan_last max n out fits)

emit-ne-nil : (fuel n : ℕ) (out : Bytes) → out ≢ [] → emit fuel n out ≢ []
unfolding emit
emit-ne-nil zero n out h = h
emit-ne-nil (suc fuel) n out h = ground (arith, emit-ne-nil fuel (n / 10) ((b'0' + n % 10) ∷ out))

-- The print of a number is not empty.
pub format-ne-nil : (n : ℕ) → format n ≢ []
unfolding format
format-ne-nil n = ground (arith, emit-ne-nil n (n / 10) ((b'0' + n % 10) ∷ []))

parse_uint-scan : (max : ℕ) (s : Bytes) → s ≢ [] → parse_uint max s ≡ scan max s 0
unfolding parse_uint
parse_uint-scan max [] h = absurd (h refl)
parse_uint-scan max (c ∷ s) _ = refl

scan-format : (max n : ℕ) → n ≤ max → scan max (format n) 0 ≡ some n
unfolding format scan
scan-format max n h = ground (arith, scan-emit max (suc n) n [] (omega arith) h)

-- A number in range is read back from its print.
pub parse_uint-format : (max n : ℕ) → n ≤ max → parse_uint max (format n) ≡ some n
parse_uint-format max n h = rw (parse_uint-scan max _ (format-ne-nil n)) (scan-format max n h)
