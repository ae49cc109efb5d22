-- ===== src/Setup/Input.antt =====
-- internal/setup/setup.go: `normalizeBrokerHost`, `looksLikeIPv4`, `validateDNSName`,
-- `parseBrokerPort` and `affirmative`. Whether `net.ParseIP` reads a text is a parameter.
use zimaos_monitor.Base.{
  ℕ, ◌-◌, Bool, true, false, not, ◌&&◌, ◌||◌, List, [], ◌∷◌, Option, none, some, ltb, leb, ◌==◌,
  if◌then◌else◌, Bytes, codes, length, take, str_eq,
}
use zimaos_monitor.Text.{
  split, within, is_digit, parse_uint, has_prefix, has_suffix, contains, contains_any_byte, is_some,
  is_empty, ascii_space, wide_space, to_lower, trim_space,
}

pub data PortError : Type 0 where
  port_range : PortError

abbrev pub port_message : PortError → Bytes
port_message port_range = codes "MQTT broker port must be between 1 and 65535"

pub data Port : Type 0 where
  port : ℕ → Port
  no_port : PortError → Port

-- The loop over the value, in `parseBrokerPort`.
unfoldable pub all_digits : Bytes → Bool
all_digits [] = true
all_digits (c ∷ s) = is_digit c && all_digits s

unfoldable pub read_port : Bytes → Port
read_port value =
    if not (all_digits value) then no_port port_range else elim (parse_uint 65_535 value) [
      | none ↦ no_port port_range
      | some n ↦ if n == 0 then no_port port_range else port n
    ]

unfoldable pub parse_broker_port : Bytes → Port
unfolding read_port
parse_broker_port value =
    let value' = trim_space value in if is_empty value' then port 1883 else read_port value'

unfoldable pub affirmative : Bytes → Bool
affirmative value =
    let answer = to_lower (trim_space value) in
    str_eq answer (codes "y") || str_eq answer (codes "yes")

pub data HostError : Type 0 where
  required brackets scoped blank_or_control not_bare ipv6_syntax ipv4_syntax : HostError
  too_long bad_label : HostError

-- The texts of the errors
abbrev pub host_message : HostError → Bytes
host_message required = codes "MQTT broker host is required"
host_message brackets = codes "MQTT broker host has invalid IPv6 brackets"
host_message scoped = codes "MQTT broker host does not support scoped IPv6"
host_message blank_or_control = codes "MQTT broker host contains whitespace or control characters"
host_message not_bare = codes "MQTT broker host must not include a scheme, path, or credentials"
host_message ipv6_syntax = codes "MQTT broker host has invalid IPv6 syntax"
host_message ipv4_syntax = codes "MQTT broker host has invalid IPv4 syntax"
host_message too_long = codes "MQTT broker hostname is longer than 253 characters"
host_message bad_label = codes "MQTT broker hostname contains an invalid label"

pub data Host : Type 0 where
  host : Bytes → Host
  no_host : HostError → Host

abbrev pub is_label_byte : ℕ → Bool
is_label_byte c = within b'a' b'z' c || within b'A' b'Z' c || within b'0' b'9' c || c == b'-'

-- The loop over one label; the flag is `i == 0`.
unfoldable pub scan_label : Bool → Bytes → Bool
scan_label at_start [] = true
scan_label at_start (c ∷ s) =
    let rest = scan_label false s in
    if not (is_label_byte c) || (c == b'-' && (at_start || is_empty s)) then false else rest

unfoldable pub check_labels : List Bytes → Bool
unfolding scan_label
check_labels [] = true
check_labels (label ∷ labels) =
    let rest = check_labels labels in
    if length label == 0 || ltb 63 (length label)
    then false
    else if scan_label true label
    then rest
    else false

-- none is acceptance.
unfoldable pub validate_dns_name : Bytes → Option HostError
unfolding check_labels
validate_dns_name name =
    if ltb 253 (length name)
    then some too_long
    else if check_labels (split b'.' name)
    then none
    else some bad_label

-- The loop of `looksLikeIPv4`
unfoldable pub digits_and_dots : Bytes → Bool
digits_and_dots [] = true
digits_and_dots (c ∷ s) = (is_digit c || c == b'.') && digits_and_dots s

abbrev pub looks_like_ipv4 : Bytes → Bool
looks_like_ipv4 name = if not (contains name (codes ".")) then false else digits_and_dots name

-- `unicode.IsControl`: in UTF-8, U+0080 to U+009F are 0xc2 and one more byte.
abbrev wide_control : Bytes → Bool
wide_control (a ∷ b ∷ _) = a == 0xc2 && within 0x80 0x9f b
wide_control _ = false

abbrev blank_here : Bytes → Bool
blank_here [] = false
blank_here (c ∷ s) =
    ascii_space c || leb c 31 || c == 127 || is_some (wide_space (c ∷ s)) || wide_control (c ∷ s)

unfoldable pub has_blank_or_control : Bytes → Bool
has_blank_or_control [] = false
has_blank_or_control (c ∷ s) = blank_here (c ∷ s) || has_blank_or_control s

-- `host[1 : len(host)-1]`
abbrev pub middle : Bytes → Bytes
middle [] = []
middle (c ∷ s) = take (length s - 1) s

unfoldable pub unbracket : Bytes → Option Bytes
unfolding take
unbracket s =
    if has_prefix s (codes "[") || has_suffix s (codes "]")
    then if ltb (length s) 3 || not (has_prefix s (codes "[")) || not (has_suffix s (codes "]"))
      then none
      else some (middle s)
    else some s

abbrev pub specials : Bytes
specials = b'/' ∷ 0x5c ∷ b'@' ∷ b'?' ∷ b'#' ∷ []

module _ (is_ip : Bytes → Bool) where
  -- What follows the brackets.
  unfoldable pub check_host : Bytes → Host
  check_host s =
      if contains s (codes "%")
      then no_host scoped
      else if has_blank_or_control s
      then no_host blank_or_control
      else if contains s (codes "://") || contains_any_byte s specials
      then no_host not_bare
      else if is_ip s
      then host s
      else if contains s (codes ":")
      then no_host ipv6_syntax
      else if looks_like_ipv4 s
      then no_host ipv4_syntax
      else elim (validate_dns_name s) [ some e ↦ no_host e | none ↦ host s ]

  unfoldable pub normalize_broker_host : Bytes → Host
  unfolding check_host
  normalize_broker_host value =
      let s = trim_space value in
      if is_empty s
      then no_host required
      else elim (unbracket s) [ none ↦ no_host brackets | some inner ↦ check_host inner ]
