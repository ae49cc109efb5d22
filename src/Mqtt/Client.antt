-- ===== src/Mqtt/Client.antt =====
-- internal/mqtt/client.go: `Publish` and the handler of `CollectRetained`, on the retained messages
-- of a broker.
pub mod Keyed
pub mod Scan
pub mod Connect
use zimaos_monitor.Base.{
  ℕ, Bool, true, false, not, List, [], ◌∷◌, Option, none, some, if◌then◌else◌, Bytes, str_eq,
}
use zimaos_monitor.Text.{is_empty}

-- The messages of a Go map, in the order in which the loop meets them: any order.
abbrev pub Collected : Type 0
Collected = List (Bytes × Bytes)

-- The retained messages of the broker.
abbrev pub Retained : Type 0
Retained = Bytes → Option Bytes

-- An empty retained payload clears a topic; other messages change nothing that is retained.
abbrev pub retain : Bytes → Bytes → Bool → Retained → Retained
retain topic payload retained store t =
    if retained
    then if str_eq t topic then if is_empty payload then none else some payload else store t
    else store t

pub record Message : Type 0 where
  pub topic : Bytes
  pub payload : Bytes
  pub retained : Bool

-- `collected[topic] = payload`
abbrev pub insert : Bytes → Bytes → Collected → Collected
insert topic payload [] = (topic, payload) ∷ []
insert topic payload ((t, p) ∷ collected) =
    let rest = insert topic payload collected in
    if str_eq topic t then (topic, payload) ∷ collected else (t, p) ∷ rest

-- The handler of `CollectRetained`, over the messages that arrive until it stops
unfoldable pub collect_messages : Collected → List Message → Collected
collect_messages collected [] = collected
collect_messages collected (message ∷ messages) =
    collect_messages
      (if not message.retained then collected else insert message.topic message.payload collected)
      messages

-- Which publications the broker takes, by their number in the loop that makes them and their topic,
-- and what arrives of a subscription to a filter until one of
-- the two timers ends it: none if the subscription or its end fails. No two publications that meet one
-- broker value have the same number and the same topic, so each may fail or not, whatever the others do.
pub record Broker : Type 0 where
  pub delivers : ℕ → Bytes → Bool
  pub arrivals : Bytes → Retained → Option (List Message)

module _ (broker : Broker) where
  unfoldable pub collect_retained : Bytes → Retained → Option Collected
  unfolding collect_messages
  collect_retained filter store = elim (broker.arrivals filter store) [
    | none ↦ none
    | some messages ↦ some (collect_messages [] messages)
  ]

  -- `Client.Publish`: whether it returns no error.
  abbrev pub publish : ℕ → Bytes → Bytes → Bool → Retained → Bool × Retained
  publish number topic payload retained store =
      if broker.delivers number topic
      then (true, retain topic payload retained store)
      else (false, store)
