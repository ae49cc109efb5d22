-- ===== src/Mqtt/Client/Connect.antt =====
-- internal/mqtt/client.go: `NewClient`. The client of paho is a parameter, its options and its first
-- answer: the text of an error, if there is one. Its handlers only log.
pub mod Failures
use zimaos_monitor.Base.{
  ℕ, ◌==◌, Bool, true, false, not, ◌||◌, ◌&&◌, List, [], ◌∷◌, Option, none, some, if◌then◌else◌,
  Bytes, codes,
}
use zimaos_monitor.Text.{is_empty, to_lower, contains}
use zimaos_monitor.Config.{Config}

-- `paho.ClientOptions`, as far as it is set; intervals are in seconds.
pub record ClientOptions : Type 0 where
  pub broker : Bytes
  pub client_id : Bytes
  pub credentials : Option (Bytes × Bytes)
  pub auto_reconnect : Bool
  pub connect_retry : Bool
  pub connect_retry_interval : ℕ
  pub keep_alive : ℕ

abbrev pub client_options : Config → ClientOptions
client_options cfg = record {
  broker = cfg.mqtt.broker;
  client_id = cfg.mqtt.client_id;
  credentials =
      if not (is_empty cfg.mqtt.username)
      then some (cfg.mqtt.username, cfg.mqtt.password)
      else none;
  auto_reconnect = true;
  connect_retry = true;
  connect_retry_interval = 5;
  keep_alive = 30;
}

-- A byte in front of a text in which U+0130 and U+212A, in UTF-8, are replaced by i and k.
abbrev pub in_front : ℕ → Bytes → Bytes
in_front c [] = c ∷ []
in_front c (d ∷ []) = if c == 0xC4 && d == 0xB0 then b'i' ∷ [] else c ∷ d ∷ []
in_front c (d ∷ e ∷ s) =
    if c == 0xC4 && d == 0xB0
    then b'i' ∷ e ∷ s
    else if c == 0xE2 && d == 0x84 && e == 0xAA
    then b'k' ∷ s
    else c ∷ d ∷ e ∷ s

-- The two letters outside ASCII that `strings.ToLower` makes ASCII letters. It makes no other ASCII
-- letter of a rune outside ASCII, so a pattern in ASCII is found in the lowered text just if it is
-- found behind these two steps.
unfoldable pub ascii_letters : Bytes → Bytes
ascii_letters [] = []
ascii_letters (c ∷ s) = in_front c (ascii_letters s)

-- The loop of `containsAny` over the patterns, on the lowered text
unfoldable pub contains_pattern : Bytes → List Bytes → Bool
contains_pattern lowered [] = false
contains_pattern lowered (sub ∷ subs) = contains lowered sub || contains_pattern lowered subs

unfoldable pub contains_any : Bytes → List Bytes → Bool
unfolding contains_pattern ascii_letters
contains_any s subs = contains_pattern (to_lower (ascii_letters s)) subs

abbrev pub unreachable_patterns : List Bytes
unreachable_patterns =
    codes "connection refused"
    ∷ codes "no route to host"
    ∷ codes "i/o timeout"
    ∷ codes "no such host"
    ∷ []

abbrev pub rejected_patterns : List Bytes
rejected_patterns =
    codes "not authorised" ∷ codes "bad user name or password" ∷ codes "CONNACK" ∷ []

-- What is logged of an error: the address cannot be reached, the credentials of a user are rejected,
-- or nothing.
pub data Hint : Type 0 where
  unreachable : Hint
  rejected : Bytes → Hint
  no_hint : Hint

pub data Connection : Type 0 where
  connected : Connection
  not_connected : Hint → Connection

unfoldable pub new_client : Config → Option Bytes → Connection
unfolding contains_any
new_client cfg none = connected
new_client cfg (some error) =
    if contains_any error unreachable_patterns
    then not_connected unreachable
    else if contains_any error rejected_patterns
    then not_connected (rejected cfg.mqtt.username)
    else not_connected no_hint
