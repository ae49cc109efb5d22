-- ===== src/Setup/Host.antt =====
-- Which hosts the setup accepts.
use zimaos_monitor.Base.{
  ℕ, ◌≤◌, ◌<◌, ◌≡◌, ◌≢◌, ◌↔◌, ◌⊎◌, inl, inr, refl, Bool, true, false, not, ◌&&◌, List, [], ◌∷◌,
  ◌++◌, Option, none, some, Bytes, arith, ap, ◌∙◌, ◌==◌, All, length, ltb, codes,
}
use zimaos_monitor.Text.{strip_prefix, one_of, split, trim_space, contains, contains_any_byte}
use zimaos_monitor.Setup.Input.{
  host, no_host, brackets, is_label_byte, scan_label, check_labels, validate_dns_name,
  has_blank_or_control, unbracket, specials, check_host, normalize_broker_host,
}

-- One label of a host name.
pub record IsLabel (s : Bytes) : Type 0 where
  pub some_bytes : 1 ≤ length s
  pub bounded : length s ≤ 63
  pub bytes : All (λ c. is_label_byte c ≡ true) s
  pub first : (rest : Bytes) → s ≢ b'-' ∷ rest
  pub last : (init : Bytes) → s ≢ init ++ (b'-' ∷ [])

-- The text does not end with a hyphen.
NoLast : Bytes → Type 0
NoLast [] = Unit
NoLast (c ∷ []) = c ≢ b'-'
NoLast (c ∷ d ∷ s) = NoLast (d ∷ s)

NoFirst : Bytes → Type 0
NoFirst [] = Unit
NoFirst (c ∷ s) = c ≢ b'-'

NoLast-sound : (s init : Bytes) → NoLast s → s ≢ init ++ (b'-' ∷ [])
unfolding NoLast
NoLast-sound [] [] h e = cc
NoLast-sound [] (x ∷ init) h e = cc
NoLast-sound (c ∷ []) [] h e = h (cc)
NoLast-sound (c ∷ []) (x ∷ []) h e = cc
NoLast-sound (c ∷ []) (x ∷ y ∷ init) h e = cc
NoLast-sound (c ∷ d ∷ s) [] h e = cc
NoLast-sound (c ∷ d ∷ s) (x ∷ init) h e =
    let tail : d ∷ s ≡ init ++ (b'-' ∷ []) = cc in NoLast-sound (d ∷ s) init h tail

NoLast-complete : (s : Bytes) → ((init : Bytes) → s ≢ init ++ (b'-' ∷ [])) → NoLast s
unfolding NoLast
NoLast-complete [] h = tt
NoLast-complete (c ∷ []) h = λ e. h [] (cc)
NoLast-complete (c ∷ d ∷ s) h = NoLast-complete (d ∷ s) (λ init e. h (c ∷ init) (cc))

scan_label_rest :
    (s : Bytes) → (scan_label false s ≡ true) ↔ (All (λ c. is_label_byte c ≡ true) s × NoLast s)
unfolding scan_label NoLast
scan_label_rest [] = (λ _. (tt, tt), λ _. refl)
scan_label_rest (c ∷ []) = ground arith
scan_label_rest (c ∷ d ∷ s) = ground (arith, scan_label_rest (d ∷ s))

scan_label_iff :
    (s : Bytes)
    → (scan_label true s ≡ true) ↔ (All (λ c. is_label_byte c ≡ true) s × NoFirst s × NoLast s)
unfolding scan_label NoLast NoFirst
scan_label_iff [] = (λ _. (tt, tt, tt), λ _. refl)
scan_label_iff (c ∷ []) = ground arith
scan_label_iff (c ∷ d ∷ s) = ground (arith, scan_label_rest (d ∷ s))

NoFirst-iff : (s : Bytes) → NoFirst s ↔ ((rest : Bytes) → s ≢ b'-' ∷ rest)
unfolding NoFirst
NoFirst-iff [] = (λ _ rest e. cc, λ _. tt)
NoFirst-iff (c ∷ s) = (λ h rest e. h (cc), λ h e. h s (cc))

check-IsLabel_iff :
    (s : Bytes)
    → ((not (length s == 0) && not (ltb 63 (length s)) && scan_label true s) ≡ true) ↔ IsLabel s
check-IsLabel_iff s = (
  λ h.
      let (bytes, no_first, no_last) = (scan_label_iff s).0 (ground arith) in
      record {
        some_bytes = ground arith;
        bounded = ground arith;
        bytes = bytes;
        first = (NoFirst-iff s).0 no_first;
        last = λ init. NoLast-sound s init no_last;
      },
  λ l.
      let scanned : scan_label true s ≡ true =
        (scan_label_iff s).1 (l.bytes, (NoFirst-iff s).1 l.first, NoLast-complete s l.last) in
      ends l.some_bytes l.bounded scanned,
)
  where
    ends :
        1 ≤ length s
        → length s ≤ 63
        → scan_label true s ≡ true
        → (not (length s == 0) && not (ltb 63 (length s)) && scan_label true s) ≡ true
    ends a b c = ground arith

check_labels_iff : (ls : List Bytes) → (check_labels ls ≡ true) ↔ All IsLabel ls
unfolding check_labels
check_labels_iff [] = (λ _. tt, λ _. refl)
check_labels_iff (s ∷ ls) = ground (arith, check_labels_iff ls, check-IsLabel_iff s)

-- A name is accepted exactly if it has at most 253 bytes and its parts between dots have from 1 to
-- 63 letters, digits and hyphens each, without a hyphen at either end.
pub validate_dns_name_iff :
    (name : Bytes)
    → (validate_dns_name name ≡ none) ↔ ((length name ≤ 253) × All IsLabel (split b'.' name))
unfolding validate_dns_name
validate_dns_name_iff name = ground (arith, check_labels_iff (split b'.' name))

-- A byte that ends no host in an URL and is no ASCII blank or control byte.
abbrev pub IsPlain : ℕ → Type 0
IsPlain c =
    (32 < c)
    × (c ≢ 127)
    × (c ≢ b'/')
    × (c ≢ 0x5c)
    × (c ≢ b'@')
    × (c ≢ b'?')
    × (c ≢ b'#')
    × (c ≢ b'%')

contains_percent :
    (c : ℕ) (s : Bytes)
    → contains (c ∷ s) (codes "%") ≡ false
    → (c ≢ b'%') × (contains s (codes "%") ≡ false)
unfolding contains strip_prefix
contains_percent c s h = ground arith

IsPlain-bytes :
    (s : Bytes)
    → contains s (codes "%") ≡ false
    → has_blank_or_control s ≡ false
    → contains_any_byte s specials ≡ false
    → All IsPlain s
unfolding has_blank_or_control contains_any_byte one_of
IsPlain-bytes [] _ _ _ = tt
IsPlain-bytes (c ∷ s) percent blank special =
    let (here, later) = contains_percent c s percent in ground (arith, IsPlain-bytes s later)

-- A host that is accepted is the value between white space without the brackets, has no ASCII blank
-- or control byte and no byte that ends the host of an URL, and is an IP address or a host name.
pub normalize_broker_host-eq-host :
    (is_ip : Bytes → Bool) (value h : Bytes)
    → normalize_broker_host is_ip value ≡ host h
    → (unbracket (trim_space value) ≡ some h)
      × All IsPlain h
      × ((is_ip h ≡ true) ⊎ ((length h ≤ 253) × All IsLabel (split b'.' h)))
unfolding normalize_broker_host
normalize_broker_host-eq-host is_ip value h e =
    go (unbracket (trim_space value)) refl (ground arith)
  where
    checked :
        (s : Bytes)
        → check_host is_ip s ≡ host h
        → (s ≡ h)
          × (contains s (codes "%") ≡ false)
          × (has_blank_or_control s ≡ false)
          × (contains_any_byte s specials ≡ false)
          × ((is_ip s ≡ true) ⊎ (validate_dns_name s ≡ none))
    checked s e = unfold check_host in ground arith

    go :
        (r : Option Bytes)
        → unbracket (trim_space value) ≡ r
        → elim r [ none ↦ no_host brackets | some inner ↦ check_host is_ip inner ] ≡ host h
        → (unbracket (trim_space value) ≡ some h)
          × All IsPlain h
          × ((is_ip h ≡ true) ⊎ ((length h ≤ 253) × All IsLabel (split b'.' h)))
    go none got e = cc
    go (some s) got e =
        let (same, percent, blank, special, kind) = checked s e in
        (
          got ∙ ap some same,
          rw same at (IsPlain-bytes s percent blank special),
          rw same at (named kind),
        )
      where
        named :
            (is_ip s ≡ true) ⊎ (validate_dns_name s ≡ none)
            → (is_ip s ≡ true) ⊎ ((length s ≤ 253) × All IsLabel (split b'.' s))
        named (inl ip) = inl ip
        named (inr dns) = inr ((validate_dns_name_iff s).0 dns)
