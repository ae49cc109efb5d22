-- ===== src/Setup/Port.antt =====
-- Which ports the setup accepts.
use zimaos_monitor.Base.{
  ℕ, ◌≤◌, ◌<◌, ◌≡◌, ◌≢◌, ◌↔◌, ◌⊎◌, refl, true, [], ◌∷◌, none, some, Bytes, arith, ◌==◌, not,
  if◌then◌else◌, Option,
}
use zimaos_monitor.Text.{
  trim_space, Digits, value, parse_uint, parse_uint_sound, parse_uint_complete,
}
use zimaos_monitor.Setup.Input.{port, no_port, port_range, all_digits, read_port, parse_broker_port}

all_digits_iff : (s : Bytes) → (all_digits s ≡ true) ↔ Digits s
unfolding all_digits
all_digits_iff [] = (λ _. tt, λ _. refl)
all_digits_iff (c ∷ s) = ground (arith, all_digits_iff s)

read_port_iff :
    (s : Bytes) (n : ℕ)
    → s ≢ []
    → (read_port s ≡ port n) ↔ (Digits s × (value s ≡ n) × (0 < n) × (n ≤ 65_535))
unfolding read_port
read_port_iff s n ne = (forward, λ (digits, e, positive, fits). back digits e positive fits)
  where
    forward : read_port s ≡ port n → Digits s × (value s ≡ n) × (0 < n) × (n ≤ 65_535)
    forward h = go (parse_uint 65_535 s) refl h
      where
        go :
            (r : Option ℕ)
            → parse_uint 65_535 s ≡ r
            → (if not (all_digits s) then no_port port_range else elim r [
              | none ↦ no_port port_range
              | some n ↦ if n == 0 then no_port port_range else port n
            ])
              ≡ port n
            → Digits s × (value s ≡ n) × (0 < n) × (n ≤ 65_535)
        go none e h = ground arith
        go (some m) e h =
            let (_, digits, exact, fits) = parse_uint_sound 65_535 s e in
            (digits, ground arith, ground arith, ground arith)

    back : Digits s → value s ≡ n → 0 < n → n ≤ 65_535 → read_port s ≡ port n
    back digits e positive fits =
        let parsed = parse_uint_complete 65_535 s ne digits (rw e fits) in
        let tested = (all_digits_iff s).1 digits in rw (tested, parsed) (ground arith)

-- The port is 1883 where nothing but white space is given, and otherwise the number that the
-- digits between white space spell, if it is from 1 to 65535; nothing else is accepted.
pub parse_broker_port_iff :
    (s : Bytes) (n : ℕ)
    → (parse_broker_port s ≡ port n) ↔ (
        ((trim_space s ≡ []) × (n ≡ 1883))
        ⊎ ((trim_space s ≢ [])
            × Digits (trim_space s)
            × (value (trim_space s) ≡ n)
            × (0 < n)
            × (n ≤ 65_535)))
unfolding parse_broker_port
parse_broker_port_iff s n = ground (arith, read_port_iff (trim_space s) n)
