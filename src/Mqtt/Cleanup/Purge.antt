-- ===== src/Mqtt/Cleanup/Purge.antt =====
-- What a cleanup does to the retained messages of the broker.
use zimaos_monitor.Base.{
  ℕ, ◌+◌, In, ◌≡◌, ◌⊎◌, inl, inr, refl, sym, ap, ◌∙◌, arith, Bool, true, List, [], ◌∷◌, Option,
  none, some, Bytes, Bool-cases, All,
}
use zimaos_monitor.Mqtt.Topic.{discovery_topic_filter}
use zimaos_monitor.Mqtt.Client.{
  Collected, Retained, Message, Broker, insert, collect_messages, collect_retained, publish,
}
use zimaos_monitor.Mqtt.Cleanup.{
  Probe, purge_topics, purge_collected, purge_filter, purge_stale_discovery, plan_discovery_cleanup,
}
use zimaos_monitor.Mqtt.Cleanup.Plan.{IsStale, StaleIn, plan_discovery_cleanup_iff}

module _ (broker : Broker) where
  pub purge_topics-keeps :
      (n : ℕ) (topics : List Bytes) (store : Retained) (t : Bytes)
      → (purge_topics broker n topics store t ≡ store t)
        ⊎ (In t topics × (purge_topics broker n topics store t ≡ none))
  unfolding purge_topics
  purge_topics-keeps n [] store t = inl refl
  purge_topics-keeps n (x ∷ topics) store t =
      ground (arith, purge_topics-keeps (n + 1) topics (publish broker n x [] true store).1 t)

  purge_topics-none :
      (n : ℕ) (topics : List Bytes) (store : Retained) (t : Bytes)
      → store t ≡ none
      → purge_topics broker n topics store t ≡ none
  unfolding purge_topics
  purge_topics-none n [] store t h = h
  purge_topics-none n (x ∷ topics) store t h =
      purge_topics-none (n + 1) topics (publish broker n x [] true store).1 t (ground arith)

  pub purge_topics-clears :
      (n : ℕ) (topics : List Bytes) (store : Retained) (t : Bytes)
      → In t topics
      → ((i : ℕ) → broker.delivers i t ≡ true)
      → purge_topics broker n topics store t ≡ none
  unfolding purge_topics
  purge_topics-clears n [] store t h d = absurd h
  purge_topics-clears n (x ∷ topics) store t (inl e) d =
      purge_topics-none (n + 1) topics (publish broker n x [] true store).1 t (ground (arith, d n))
  purge_topics-clears n (x ∷ topics) store t (inr i) d =
      purge_topics-clears (n + 1) topics (publish broker n x [] true store).1 t i d

-- A message says what is retained under its topic.
abbrev pub IsCurrent : Retained → Message → Type 0
IsCurrent store message = message.retained ≡ true → store message.topic ≡ some message.payload

-- A broker sets the retain flag of a message exactly if it sends what it has retained.
abbrev pub IsHonest : Broker → Retained → Type 0
IsHonest broker store =
    (filter : Bytes) (messages : List Message)
    → broker.arrivals filter store ≡ some messages
    → All (IsCurrent store) messages

module _ (store : Retained) where
  pub Holds : Bytes × Bytes → Type 0
  Holds (topic, payload) = store topic ≡ some payload

  insert-Holds :
      (topic payload : Bytes) (collected : Collected)
      → store topic ≡ some payload
      → All Holds collected
      → All Holds (insert topic payload collected)
  unfolding Holds
  insert-Holds topic payload [] h a = (h, tt)
  insert-Holds topic payload ((t, p) ∷ collected) h (x, a) =
      ground (arith, insert-Holds topic payload collected h a)

  pub collect_messages-Holds :
      (messages : List Message) (collected : Collected)
      → All (IsCurrent store) messages
      → All Holds collected
      → All Holds (collect_messages collected messages)
  unfolding collect_messages
  collect_messages-Holds [] collected h a = a
  collect_messages-Holds (m ∷ messages) collected (h, hs) a =
      collect_messages-Holds messages _ hs (elim (Bool-cases m.retained) [
        | inl e ↦ rw e (insert-Holds m.topic m.payload collected (h e) a)
        | inr e ↦ rw e a
      ])

  pub Holds-In :
      (topic payload : Bytes) (collected : Collected)
      → All Holds collected
      → In (topic, payload) collected
      → store topic ≡ some payload
  unfolding Holds
  Holds-In topic payload [] a i = absurd i
  Holds-In topic payload ((t, p) ∷ collected) (x, a) (inl e) =
      ap (λ y. store y.0) e ∙ x ∙ ap (λ y. some y.1) (sym e)
  Holds-In topic payload ((t, p) ∷ collected) (x, a) (inr i) = Holds-In topic payload collected a i

module _ (broker : Broker) (decode_probe : Bytes → Option Probe) (device_id : Bytes)
    (desired : Bytes → Bool) (store : Retained) where
  -- A topic keeps what is retained under it, or was stale and is cleared.
  abbrev pub KeptOrStale : Retained → Bytes → Type 0
  KeptOrStale after topic =
      (after topic ≡ store topic)
      ⊎ ((after topic ≡ none)
          × (payload : Bytes) × (store topic ≡ some payload)
          × IsStale decode_probe desired device_id topic payload)

  purge_messages :
      (collected : Collected) (topic : Bytes)
      → All (Holds store) collected
      → KeptOrStale
          (purge_topics broker 0
            (plan_discovery_cleanup decode_probe desired device_id collected).stale_topics
            store)
          topic
  purge_messages collected topic holds = elim (purge_topics-keeps broker 0 _ store topic) [
    | inl same ↦ inl same
    | inr (here, gone) ↦
        let (payload, there, stale) =
          (plan_discovery_cleanup_iff decode_probe desired device_id collected topic).0 here in
        inr (gone, payload, Holds-In store topic payload collected holds there, stale)
  ]

  collect_retained-Holds :
      (filter : Bytes) (collected : Collected)
      → IsHonest broker store
      → collect_retained broker filter store ≡ some collected
      → All (Holds store) collected
  unfolding collect_retained
  collect_retained-Holds filter collected honest = go (broker.arrivals filter store) refl
    where
      go :
          (r : Option (List Message))
          → broker.arrivals filter store ≡ r
          → elim r [ none ↦ none | some messages ↦ some (collect_messages [] messages) ]
            ≡ some collected
          → All (Holds store) collected
      go none e h = cc
      go (some messages) e h =
          let same : collect_messages [] messages ≡ collected = cc in
          rw (← same) (collect_messages-Holds store messages [] (honest filter messages e) tt)

-- On a broker whose retain flags are right, a cleanup changes no retained message but the stale
-- discovery topics of its own device, and those it clears.
pub purge_stale_discovery_lem :
    (broker : Broker) (decode_probe : Bytes → Option Probe) (device_id : Bytes)
    (desired : Bytes → Bool) (store : Retained) (topic : Bytes)
    → IsHonest broker store
    → KeptOrStale broker decode_probe device_id desired store
        (purge_stale_discovery broker decode_probe device_id desired store)
        topic
unfolding purge_stale_discovery
purge_stale_discovery_lem broker decode_probe device_id desired store topic honest =
    go (discovery_topic_filter device_id)
  where
    collected_lem :
        (filter : Bytes) (r : Option Collected)
        → collect_retained broker filter store ≡ r
        → KeptOrStale broker decode_probe device_id desired store
            (purge_collected broker decode_probe device_id desired store r)
            topic
    collected_lem filter none e = inl refl
    collected_lem filter (some collected) e =
        purge_messages broker decode_probe device_id desired store collected topic (
          collect_retained-Holds broker decode_probe device_id desired store filter collected honest
            e)

    go :
        (r : Option Bytes)
        → KeptOrStale broker decode_probe device_id desired store
            (purge_filter broker decode_probe device_id desired store r)
            topic
    go none = inl refl
    go (some filter) = collected_lem filter (collect_retained broker filter store) refl

-- A cleanup of a device whose ID is one level of a topic clears every stale topic that it collects
-- and to which the broker takes whatever is published.
pub purge_stale_discovery-clears :
    (broker : Broker) (decode_probe : Bytes → Option Probe) (device_id : Bytes)
    (desired : Bytes → Bool) (store : Retained) (topic filter : Bytes) (collected : Collected)
    → discovery_topic_filter device_id ≡ some filter
    → collect_retained broker filter store ≡ some collected
    → StaleIn decode_probe desired device_id topic collected
    → ((i : ℕ) → broker.delivers i topic ≡ true)
    → purge_stale_discovery broker decode_probe device_id desired store topic ≡ none
unfolding purge_stale_discovery
purge_stale_discovery-clears broker decode_probe device_id desired store topic filter collected safe
      got stale delivered =
    ap (λ r. purge_filter broker decode_probe device_id desired store r topic) safe
    ∙ ap (λ r. purge_collected broker decode_probe device_id desired store r topic) got
    ∙ purge_topics-clears broker 0 _ store topic
        ((plan_discovery_cleanup_iff decode_probe desired device_id collected topic).1 stale)
        delivered
