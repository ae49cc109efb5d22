-- ===== src/Mqtt/Topic.antt =====
-- internal/mqtt/autodiscovery.go: `discoveryTopicFilter` and `parseDiscoveryTopic`.
pub mod Parse
use zimaos_monitor.Base.{
  ◌||◌, not, List, [], ◌∷◌, ◌++◌, Option, none, some, if◌then◌else◌, Bytes, codes, str_eq,
}
use zimaos_monitor.Text.{split, is_empty, contains_any_byte}
use zimaos_monitor.Config.Identity.{topic_specials}

-- The three results of `parseDiscoveryTopic`.
pub record Address : Type 0 where
  pub component : Bytes
  pub node_id : Bytes
  pub object_id : Bytes

unfoldable pub discovery_topic_filter : Bytes → Option Bytes
discovery_topic_filter device_id =
    if is_empty device_id || contains_any_byte device_id topic_specials
    then none
    else some (codes "homeassistant/+/" ++ device_id ++ codes "/+/config")

read_levels : List Bytes → Option Address
read_levels (root ∷ component ∷ node_id ∷ object_id ∷ last ∷ []) =
    if not (str_eq root (codes "homeassistant"))
      || is_empty component
      || is_empty node_id
      || is_empty object_id
      || not (str_eq last (codes "config"))
    then none
    else some (record { component = component; node_id = node_id; object_id = object_id })
read_levels _ = none

unfoldable pub parse_discovery_topic : Bytes → Option Address
unfolding read_levels
parse_discovery_topic topic = read_levels (split b'/' topic)
