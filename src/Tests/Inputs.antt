-- ===== src/Tests/Inputs.antt =====
-- What the setup accepts.
use zimaos_monitor.Base.{
  ℕ, ◌≡◌, ◌≢◌, ◌↔◌, ◌⊎◌, ◌≤◌, ◌<◌, true, false, [], some, codes, refl, All, length,
}
use zimaos_monitor.Text.{
  trim_space, Digits, value, split, strip_prefix, contains, contains_any_byte, one_of, skip_space,
  wide_space, wide_space_end,
}
use zimaos_monitor.Setup.Input.{
  port, parse_broker_port, host, normalize_broker_host, unbracket, check_host, has_blank_or_control,
  validate_dns_name, check_labels, scan_label, digits_and_dots,
}
use zimaos_monitor.Setup.Port.{parse_broker_port_iff}
use zimaos_monitor.Setup.Host.{IsPlain, IsLabel, normalize_broker_host-eq-host}

abbrev number : ℕ
number = 8883

parse_broker_port_iff_example : (parse_broker_port (codes " 8883 ") ≡ port number) ↔ (
    ((trim_space (codes " 8883 ") ≡ []) × (number ≡ 1883))
    ⊎ ((trim_space (codes " 8883 ") ≢ [])
        × Digits (trim_space (codes " 8883 "))
        × (value (trim_space (codes " 8883 ")) ≡ number)
        × (0 < number)
        × (number ≤ 65_535)))
parse_broker_port_iff_example = parse_broker_port_iff (codes " 8883 ") number

host_run : normalize_broker_host (λ _. false) (codes " b.org ") ≡ host (codes "b.org")
unfolding normalize_broker_host check_host unbracket has_blank_or_control validate_dns_name
    check_labels scan_label digits_and_dots split strip_prefix contains contains_any_byte one_of
    skip_space trim_space wide_space wide_space_end
host_run = refl

normalize_broker_host-eq-host_example :
    (unbracket (trim_space (codes " b.org ")) ≡ some (codes "b.org"))
    × All IsPlain (codes "b.org")
    × ((false ≡ true) ⊎ ((length (codes "b.org") ≤ 253) × All IsLabel (split b'.' (codes "b.org"))))
normalize_broker_host-eq-host_example =
    normalize_broker_host-eq-host (λ _. false) (codes " b.org ") (codes "b.org") host_run
