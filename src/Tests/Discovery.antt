-- ===== src/Tests/Discovery.antt =====
-- Discovery topics of one device, and their cleanup.
use mathlib.Core.Path.{subst}
use zimaos_monitor.Base.{
  In, ◌≡◌, ◌↔◌, inl, refl, true, false, [], ◌∷◌, Option, none, some, Bytes, codes, arith, All,
}
use zimaos_monitor.Text.{contains_any_byte, one_of}
use zimaos_monitor.Mqtt.Topic.{Address, parse_discovery_topic, discovery_topic_filter}
use zimaos_monitor.Mqtt.Topic.Parse.{IsAddress, topic_of, parse_discovery_topic_iff}
use zimaos_monitor.Mqtt.Client.{
  Collected, Retained, Message, Broker, collect_retained, collect_messages,
}
use zimaos_monitor.Mqtt.Cleanup.{Probe, plan_discovery_cleanup, purge_stale_discovery, origin_name}
use zimaos_monitor.Mqtt.Cleanup.Plan.{StaleIn, plan_discovery_cleanup_iff}
use zimaos_monitor.Mqtt.Cleanup.Purge.{
  IsCurrent, IsHonest, KeptOrStale, purge_stale_discovery_lem, purge_stale_discovery-clears,
}

abbrev device : Bytes
device = codes "d"

abbrev address : Address
address = record { component = codes "sensor"; node_id = device; object_id = codes "old" }

abbrev topic : Bytes
topic = codes "homeassistant/sensor/d/old/config"

abbrev payload : Bytes
payload = 1 ∷ []

abbrev probe : Probe
probe = record { origin = origin_name; identifiers = device ∷ [] }

abbrev decode_probe : Bytes → Option Probe
decode_probe _ = some probe

abbrev collected : Collected
collected = (topic, payload) ∷ []

abbrev store : Retained
store t = some payload

abbrev message : Message
message = record { topic = topic; payload = payload; retained = true }

abbrev broker : Broker
broker = record { delivers = λ _ _. true; arrivals = λ _ _. some (message ∷ []) }

parse_discovery_topic_iff_example :
    (parse_discovery_topic topic ≡ some address) ↔ ((topic ≡ topic_of address) × IsAddress address)
parse_discovery_topic_iff_example = parse_discovery_topic_iff topic address

plan_discovery_cleanup_iff_example :
    In topic (plan_discovery_cleanup decode_probe (λ _. false) device collected).stale_topics
    ↔ StaleIn decode_probe (λ _. false) device topic collected
plan_discovery_cleanup_iff_example =
    plan_discovery_cleanup_iff decode_probe (λ _. false) device collected topic

honest : IsHonest broker store
honest filter messages e =
    let sent : message ∷ [] ≡ messages = cc in subst (All (IsCurrent store)) sent current
  where
    current : All (IsCurrent store) (message ∷ [])
    current = (λ _. refl, tt)

purge_stale_discovery_lem_example :
    KeptOrStale broker decode_probe device
      (λ _. false)
      store
      (purge_stale_discovery broker decode_probe device (λ _. false) store)
      topic
purge_stale_discovery_lem_example =
    purge_stale_discovery_lem broker decode_probe device (λ _. false) store topic honest

is_address : IsAddress address
is_address = record {
  component = (ground arith, ground arith);
  node_id = (ground arith, ground arith);
  object_id = (ground arith, ground arith);
}

stale : StaleIn decode_probe (λ _. false) device topic collected
stale = (
  payload,
  inl refl,
  (address, refl, is_address, refl, ground arith, refl, (probe, refl, refl, inl refl)),
)

filter_run : discovery_topic_filter device ≡ some (codes "homeassistant/+/d/+/config")
unfolding discovery_topic_filter contains_any_byte one_of
filter_run = refl

collect_run : collect_retained broker (codes "homeassistant/+/d/+/config") store ≡ some collected
unfolding collect_retained collect_messages
collect_run = refl

purge_stale_discovery-clears_example :
    purge_stale_discovery broker decode_probe device (λ _. false) store topic ≡ none
purge_stale_discovery-clears_example =
    purge_stale_discovery-clears broker decode_probe device (λ _. false) store topic
      (codes "homeassistant/+/d/+/config") collected filter_run collect_run stale (λ _. refl)
