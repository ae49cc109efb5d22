-- ===== src/Tests/Connections.antt =====
-- Errors of a connection.
use zimaos_monitor.Base.{◌≡◌, ◌↔◌, refl, true, [], ◌∷◌, some, Bytes, codes}
use zimaos_monitor.Text.{to_lower, lower_byte, contains, strip_prefix}
use zimaos_monitor.Mqtt.Client.Connect.{
  ascii_letters, contains_pattern, contains_any, unreachable, rejected, not_connected, new_client,
  unreachable_patterns,
}
use zimaos_monitor.Mqtt.Client.Connect.Failures.{Has, new_client_iff}
use zimaos_monitor.Tests.Announce.{config}

abbrev error : Bytes
error = codes "CONNACK: not Authorised"

new_client_iff_example :
    ((new_client config (some error) ≡ not_connected unreachable) ↔ Has error unreachable_patterns)
    × ((new_client config (some error) ≡ not_connected (rejected config.mqtt.username)) ↔ (
        (¬ Has error unreachable_patterns)
        × Has error (codes "not authorised" ∷ codes "bad user name or password" ∷ [])))
new_client_iff_example = new_client_iff config error

-- The sign of Kelvin is lowered to a k.
kelvin_run : contains_any (0xE2 ∷ 0x84 ∷ 0xAA ∷ codes "EY") (codes "key" ∷ []) ≡ true
unfolding contains_any contains_pattern ascii_letters to_lower lower_byte contains strip_prefix
kelvin_run = refl
