-- ===== src/Mqtt/Cleanup.antt =====
-- internal/mqtt/autodiscovery.go: `planDiscoveryCleanup` and `purgeStaleDiscovery`.
pub mod Plan
pub mod Purge
use zimaos_monitor.Base.{
  ℕ, ◌+◌, ◌≡◌, Bool, true, false, not, ◌||◌, List, [], ◌∷◌, ◌++◌, Option, none, some, if◌then◌else◌,
  Bytes, codes, str_eq,
}
use zimaos_monitor.Text.{is_empty}
use zimaos_monitor.Mqtt.Client.{Collected, Retained, Broker, collect_retained, publish}
use zimaos_monitor.Mqtt.Topic.{Address, parse_discovery_topic, discovery_topic_filter}

abbrev pub origin_name : Bytes
origin_name = codes "zimaos-monitor"

-- What is read of a payload: `origin.name` and `device.identifiers`.
pub record Probe : Type 0 where
  pub origin : Bytes
  pub identifiers : List Bytes

-- `discoveryCleanupPlan`
pub record CleanupPlan : Type 0 where
  pub stale_topics : List Bytes
  pub ambiguous_topics : List Bytes

abbrev pub empty_plan : CleanupPlan
empty_plan = record { stale_topics = []; ambiguous_topics = [] }

abbrev pub append_stale : Bytes → CleanupPlan → CleanupPlan
append_stale topic plan = record plan { stale_topics = plan.stale_topics ++ (topic ∷ []) }

abbrev pub append_ambiguous : Bytes → CleanupPlan → CleanupPlan
append_ambiguous topic plan = record plan {
  ambiguous_topics = plan.ambiguous_topics ++ (topic ∷ []);
}

-- The inner loop.
unfoldable pub is_listed : Bytes → List Bytes → Bool
is_listed device_id [] = false
is_listed device_id (identifier ∷ identifiers) =
    str_eq identifier device_id || is_listed device_id identifiers

unfoldable pub is_owned : Bytes → Probe → Bool
is_owned device_id probe =
    if str_eq probe.origin origin_name then is_listed device_id probe.identifiers else false

-- `json.Unmarshal` into the probe; none is an error.
module _ (decode_probe : Bytes → Option Probe) (desired : Bytes → Bool) (device_id : Bytes) where
  -- One round of the loop
  unfoldable pub plan_message : CleanupPlan → Bytes → Bytes → CleanupPlan
  unfolding is_owned
  plan_message plan topic payload = elim (parse_discovery_topic topic) [
    | none ↦ append_ambiguous topic plan
    | some address ↦
        if not (str_eq address.node_id device_id) || is_empty payload
        then plan
        else if desired topic
        then plan
        else elim (decode_probe payload) [
          | none ↦ append_ambiguous topic plan
          | some probe ↦
              if not (is_owned device_id probe)
              then append_ambiguous topic plan
              else append_stale topic plan
        ]
  ]

  unfoldable pub plan_messages : CleanupPlan → Collected → CleanupPlan
  plan_messages plan [] = plan
  plan_messages plan ((topic, payload) ∷ collected) =
      plan_messages (plan_message plan topic payload) collected

  abbrev pub plan_discovery_cleanup : Collected → CleanupPlan
  plan_discovery_cleanup collected = plan_messages empty_plan collected

module _ (broker : Broker) where
  -- The loop over the stale topics
  unfoldable pub purge_topics : ℕ → List Bytes → Retained → Retained
  purge_topics number [] store = store
  purge_topics number (topic ∷ topics) store =
      purge_topics (number + 1) topics (publish broker number topic [] true store).1

  module _ (decode_probe : Bytes → Option Probe) (device_id : Bytes) (desired : Bytes → Bool)
      (store : Retained) where
    -- By what the scan returns
    abbrev pub purge_collected : Option Collected → Retained
    purge_collected none = store
    purge_collected (some collected) =
        purge_topics 0
          (plan_discovery_cleanup decode_probe desired device_id collected).stale_topics store

    -- By the filter
    abbrev pub purge_filter : Option Bytes → Retained
    purge_filter none = store
    purge_filter (some filter) = purge_collected (collect_retained broker filter store)

    unfoldable pub purge_stale_discovery : Retained
    purge_stale_discovery = purge_filter (discovery_topic_filter device_id)
