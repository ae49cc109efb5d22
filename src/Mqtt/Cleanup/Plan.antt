-- ===== src/Mqtt/Cleanup/Plan.antt =====
-- Which topics the plan of a cleanup names.
use zimaos_monitor.Base.{
  In, ◌≡◌, ◌≢◌, ◌↔◌, ◌⊎◌, inl, inr, refl, ap, ◌∙◌, arith, Bool, true, false, not, ◌&&◌, List, [],
  ◌∷◌, ◌++◌, Option, none, some, Bytes, str_eq, if◌then◌else◌,
}
use zimaos_monitor.Text.{is_empty}
use zimaos_monitor.Mqtt.Topic.{Address, parse_discovery_topic}
use zimaos_monitor.Mqtt.Topic.Parse.{IsAddress, topic_of, parse_discovery_topic_iff}
use zimaos_monitor.Mqtt.Client.{Collected}
use zimaos_monitor.Mqtt.Cleanup.{
  Probe, CleanupPlan, origin_name, is_listed, is_owned, plan_message, plan_messages, empty_plan,
  plan_discovery_cleanup,
}

In-append : {A : Type 0} (a x : A) (xs : List A) → In a (xs ++ (x ∷ [])) ↔ (In a xs ⊎ (a ≡ x))
In-append a x [] = ground arith
In-append a x (y ∷ xs) = ground (arith, In-append a x xs)

is_listed_iff : (id : Bytes) (ids : List Bytes) → (is_listed id ids ≡ true) ↔ In id ids
unfolding is_listed
is_listed_iff id [] = ground arith
is_listed_iff id (x ∷ ids) = ground (arith, is_listed_iff id ids)

is_owned_iff :
    (id : Bytes) (probe : Probe)
    → (is_owned id probe ≡ true) ↔ ((probe.origin ≡ origin_name) × In id probe.identifiers)
unfolding is_owned
is_owned_iff id probe = ground (arith, is_listed_iff id probe.identifiers)

module _ (decode_probe : Bytes → Option Probe) (desired : Bytes → Bool) (device_id : Bytes) where
  -- A payload of this program for this device.
  abbrev pub IsOwn : Bytes → Type 0
  IsOwn payload =
      (probe : Probe) × (decode_probe payload ≡ some probe)
      × (probe.origin ≡ origin_name)
      × In device_id probe.identifiers

  abbrev pub IsStale : Bytes → Bytes → Type 0
  IsStale topic payload =
      (address : Address) × (topic ≡ topic_of address)
      × IsAddress address
      × (address.node_id ≡ device_id)
      × (payload ≢ [])
      × (desired topic ≡ false)
      × IsOwn payload

  is_own : Option Probe → Bool
  is_own none = false
  is_own (some probe) = is_owned device_id probe

  is_candidate : Bytes → Bytes → Option Address → Bool
  is_candidate topic payload none = false
  is_candidate topic payload (some address) =
      str_eq address.node_id device_id && not (is_empty payload) && not (desired topic)

  is_stale : Bytes → Bytes → Bool
  is_stale topic payload =
      is_candidate topic payload (parse_discovery_topic topic) && is_own (decode_probe payload)

  plan_message-stale :
      (plan : CleanupPlan) (topic payload : Bytes)
      → (plan_message decode_probe desired device_id plan topic payload).stale_topics
        ≡ (if is_stale topic payload then plan.stale_topics ++ (topic ∷ []) else plan.stale_topics)
  unfolding plan_message is_stale is_candidate is_own
  plan_message-stale plan topic payload = ground arith

  is_own_iff : (payload : Bytes) → (is_own (decode_probe payload) ≡ true) ↔ IsOwn payload
  unfolding is_own
  is_own_iff payload = (forward (decode_probe payload) refl, back)
    where
      forward : (r : Option Probe) → decode_probe payload ≡ r → is_own r ≡ true → IsOwn payload
      forward none e h = cc
      forward (some probe) e h = let (a, b) = (is_owned_iff device_id probe).0 h in (probe, e, a, b)

      back : IsOwn payload → is_own (decode_probe payload) ≡ true
      back (probe, e, a, b) = ap is_own e ∙ (is_owned_iff device_id probe).1 (a, b)

  is_stale_iff : (topic payload : Bytes) → (is_stale topic payload ≡ true) ↔ IsStale topic payload
  unfolding is_stale is_candidate
  is_stale_iff topic payload = (λ h. forward (parse_discovery_topic topic) refl h, back)
    where
      forward :
          (r : Option Address)
          → parse_discovery_topic topic ≡ r
          → (is_candidate topic payload r && is_own (decode_probe payload)) ≡ true
          → IsStale topic payload
      forward none e h = cc
      forward (some a) e h =
          let (t, good) = (parse_discovery_topic_iff topic a).0 e in
          let (node, nonempty, extra, own) = parts in
          (a, t, good, node, nonempty, extra, (is_own_iff payload).0 own)
        where
          parts :
              (a.node_id ≡ device_id)
              × (payload ≢ [])
              × (desired topic ≡ false)
              × (is_own (decode_probe payload) ≡ true)
          parts = ground arith

      back : IsStale topic payload → is_stale topic payload ≡ true
      back (a, t, good, node, nonempty, extra, own) =
          let parsed : parse_discovery_topic topic ≡ some a =
            (parse_discovery_topic_iff topic a).1 (t, good) in
          let owned : is_own (decode_probe payload) ≡ true = (is_own_iff payload).1 own in
          ground (arith)

  -- A topic of the messages that is stale.
  abbrev pub StaleIn : Bytes → Collected → Type 0
  StaleIn topic collected =
      (payload : Bytes) × In (topic, payload) collected × IsStale topic payload

  StaleIn-cons :
      (topic t p : Bytes) (collected : Collected)
      → StaleIn topic ((t, p) ∷ collected)
        ↔ (((topic ≡ t) × (is_stale t p ≡ true)) ⊎ StaleIn topic collected)
  StaleIn-cons topic t p collected = (forward, back)
    where
      forward :
          StaleIn topic ((t, p) ∷ collected)
          → ((topic ≡ t) × (is_stale t p ≡ true)) ⊎ StaleIn topic collected
      forward (payload, inl e, stale) =
          let here : is_stale topic payload ≡ true = (is_stale_iff topic payload).1 stale in
          inl (ap (λ x. x.0) e, cc)
      forward (payload, inr h, stale) = inr (payload, h, stale)

      back :
          ((topic ≡ t) × (is_stale t p ≡ true)) ⊎ StaleIn topic collected
          → StaleIn topic ((t, p) ∷ collected)
      back (inl (e, stale)) = (p, inl (ap (λ x. (x, p)) e), rw e ((is_stale_iff t p).0 stale))
      back (inr (payload, h, stale)) = (payload, inr h, stale)

  plan_message-In :
      (plan : CleanupPlan) (t p topic : Bytes)
      → In topic (plan_message decode_probe desired device_id plan t p).stale_topics
        ↔ (In topic plan.stale_topics ⊎ ((topic ≡ t) × (is_stale t p ≡ true)))
  plan_message-In plan t p topic = rw (plan_message-stale plan t p) (go (is_stale t p))
    where
      go :
          (b : Bool)
          → In topic (if b then plan.stale_topics ++ (t ∷ []) else plan.stale_topics)
            ↔ (In topic plan.stale_topics ⊎ ((topic ≡ t) × (b ≡ true)))
      go true = ground (arith, In-append topic t plan.stale_topics)
      go false = ground arith

  plan_messages-stale :
      (plan : CleanupPlan) (collected : Collected) (topic : Bytes)
      → In topic (plan_messages decode_probe desired device_id plan collected).stale_topics
        ↔ (In topic plan.stale_topics ⊎ StaleIn topic collected)
  unfolding plan_messages
  plan_messages-stale plan [] topic = (inl, elim [ inl h ↦ h | inr (_, h, _) ↦ absurd h ])
  plan_messages-stale plan ((t, p) ∷ collected) topic =
      let next = plan_message decode_probe desired device_id plan t p in
      join (plan_messages-stale next collected topic) (plan_message-In plan t p topic)
        (StaleIn-cons topic t p collected)
    where
      join : {A B C D E F : Type 0} → A ↔ (B ⊎ C) → B ↔ (D ⊎ E) → F ↔ (E ⊎ C) → A ↔ (D ⊎ F)
      join f g h = (
        λ a. elim (f.0 a) [
          | inl b ↦ elim (g.0 b) [ inl d ↦ inl d | inr e ↦ inr (h.1 (inl e)) ]
          | inr c ↦ inr (h.1 (inr c))
        ],
        elim [
          | inl d ↦ f.1 (inl (g.1 (inl d)))
          | inr x ↦ elim (h.0 x) [ inl e ↦ f.1 (inl (g.1 (inr e))) | inr c ↦ f.1 (inr c) ]
        ],
      )

  -- The plan of a cleanup clears exactly the topics of the collected messages that are discovery
  -- topics of this device, are not among the desired ones, and have a payload that is not empty
  -- and names both this program as its origin and this device among its identifiers.
  pub plan_discovery_cleanup_iff :
      (collected : Collected) (topic : Bytes)
      → In topic (plan_discovery_cleanup decode_probe desired device_id collected).stale_topics
        ↔ StaleIn topic collected
  plan_discovery_cleanup_iff collected topic =
      let (a, b) = plan_messages-stale empty_plan collected topic in
      (λ h. elim (a h) [ inl x ↦ absurd x | inr y ↦ y ], λ h. b (inr h))
