-- ===== src/Mqtt/Discovery/Publish/Publication.antt =====
-- What publishing own records does to the retained messages.
use mathlib.Core.Path.{subst}
use zimaos_monitor.Base.{
  ℕ, ◌≡◌, ◌≢◌, ◌⊎◌, inl, inr, refl, sym, ap, ◌∙◌, arith, false, List, [], ◌∷◌, ◌++◌, Option, none,
  some, In, In-append-left, In-append-right, In-append-cases, Bytes,
}
use zimaos_monitor.Mqtt.Client.{Retained, Broker}
use zimaos_monitor.Mqtt.Cleanup.{Probe}
use zimaos_monitor.Mqtt.Cleanup.Plan.{IsOwn}
use zimaos_monitor.Config.{Config}
use zimaos_monitor.Mqtt.Discovery.{Sensor, UpdateEntity, device_of, origin}
use zimaos_monitor.Mqtt.Discovery.Publish.{
  Encoder, DiscoveryError, Published, and_then, publish_payload,
}

-- The sensor is this program's, for this device.
abbrev pub IsOurs : Config → Sensor → Type 0
IsOurs cfg s = (s.origin ≡ origin) × (s.device ≡ device_of cfg)

-- What the cleanup reads of a record.
abbrev pub probe_of : Config → Probe
probe_of cfg = record { origin = origin.name; identifiers = cfg.device.id ∷ [] }

-- The JSON of a record of this program for this device gives back the name of the program and the ID
-- of the device. `encoding/json` does that for an ID of valid UTF-8, whatever the other texts are; of
-- another ID it replaces the invalid bytes.
pub record IsJson (encoder : Encoder) (decode_probe : Bytes → Option Probe) (cfg : Config)
    : Type 0 where
  pub sensor :
      (s : Sensor) (p : Bytes)
      → IsOurs cfg s
      → encoder.encode_sensor s ≡ some p
      → (p ≢ []) × (decode_probe p ≡ some (probe_of cfg))
  pub update :
      (u : UpdateEntity) (p : Bytes)
      → u.origin ≡ origin
      → u.device ≡ device_of cfg
      → encoder.encode_update u ≡ some p
      → (p ≢ []) × (decode_probe p ≡ some (probe_of cfg))

module _ (decode_probe : Bytes → Option Probe) (device_id : Bytes) where
  -- A record of this program for this device, which is not empty.
  abbrev pub IsRecord : Bytes → Type 0
  IsRecord p = (p ≢ []) × IsOwn decode_probe (λ _. false) device_id p

  -- Such a record is retained under the topic.
  abbrev pub Advertised : Bytes → Retained → Type 0
  Advertised t store = (p : Bytes) × (store t ≡ some p) × IsRecord p

  -- The step publishes such records under these topics and nothing else.
  pub record IsPublication (topics : List Bytes) (step : Retained → Published) : Type 0 where
    pub others : (store : Retained) (t : Bytes) → ¬ In t topics → (step store).1 t ≡ store t
    pub keeps : (store : Retained) (t : Bytes) → Advertised t store → Advertised t (step store).1
    pub reaches :
        (store : Retained) (t : Bytes)
        → (step store).0 ≡ none
        → In t topics
        → Advertised t (step store).1

  pub nothing-IsPublication : IsPublication [] (λ store. (none, store))
  nothing-IsPublication = record {
    others = λ store t h. refl;
    keeps = λ store t h. h;
    reaches = λ store t h i. absurd i;
  }

  module _ (broker : Broker) (encoder : Encoder) where
    pub payload-IsPublication :
        (number : ℕ) (payload : Option Bytes) (topic : Bytes) (e e' : DiscoveryError)
        → ((p : Bytes) → payload ≡ some p → IsRecord p)
        → IsPublication (topic ∷ []) (publish_payload broker encoder number payload topic e e')
    unfolding publish_payload
    payload-IsPublication number none topic e e' own = record {
      others = λ store t h. refl;
      keeps = λ store t h. h;
      reaches = λ store t h i. cc;
    }
    payload-IsPublication number (some p) topic e e' own = record {
      others = λ store t h. other store t (λ same. h (inl same));
      keeps = keep;
      reaches = λ store t h i. reach store t h i;
    }
      where
        other :
            (store : Retained) (t : Bytes)
            → t ≢ topic
            → (publish_payload broker encoder number (some p) topic e e' store).1 t ≡ store t
        other store t h = ground arith

        cases :
            (store : Retained) (t : Bytes)
            → ((publish_payload broker encoder number (some p) topic e e' store).1 t ≡ store t)
              ⊎ ((publish_payload broker encoder number (some p) topic e e' store).1 t ≡ some p)
        cases store t = ground (arith, (own p refl).0)

        keep :
            (store : Retained) (t : Bytes)
            → Advertised t store
            → Advertised t (publish_payload broker encoder number (some p) topic e e' store).1
        keep store t (q, there, record_) = elim (cases store t) [
          | inl same ↦ (q, same ∙ there, record_)
          | inr now ↦ (p, now, own p refl)
        ]

        reach :
            (store : Retained) (t : Bytes)
            → (publish_payload broker encoder number (some p) topic e e' store).0 ≡ none
            → In t (topic ∷ [])
            → Advertised t (publish_payload broker encoder number (some p) topic e e' store).1
        reach store t h (inl same) = (p, ground (arith, (own p refl).0), own p refl)
        reach store t h (inr i) = absurd i

  -- One after another
  pub then-IsPublication :
      (us vs : List Bytes) (f g : Retained → Published)
      → IsPublication us f
      → IsPublication vs g
      → IsPublication (us ++ vs) (λ store. and_then (f store) g)
  then-IsPublication us vs f g p q = record {
    others = λ store t h. others (f store) store t refl h;
    keeps = λ store t a. keeps (f store) t (p.keeps store t a);
    reaches = λ store t h i. reaches (f store) store t refl h (In-append-cases t us vs i);
  }
    where
      others :
          (r : Published) (store : Retained) (t : Bytes)
          → f store ≡ r
          → ¬ In t (us ++ vs)
          → (and_then r g).1 t ≡ store t
      others (none, after) store t e h =
          q.others after t (λ i. h (In-append-right t us vs i))
          ∙ ap (λ (x : Published). x.1 t) (sym e)
          ∙ p.others store t (λ i. h (In-append-left t us vs i))
      others (some x, after) store t e h =
          ap (λ (x : Published). x.1 t) (sym e)
          ∙ p.others store t (λ i. h (In-append-left t us vs i))

      keeps : (r : Published) (t : Bytes) → Advertised t r.1 → Advertised t (and_then r g).1
      keeps (none, after) t a = q.keeps after t a
      keeps (some x, after) t a = a

      reaches :
          (r : Published) (store : Retained) (t : Bytes)
          → f store ≡ r
          → (and_then r g).0 ≡ none
          → In t us ⊎ In t vs
          → Advertised t (and_then r g).1
      reaches (none, after) store t e h (inr i) = q.reaches after t h i
      reaches (none, after) store t e h (inl i) = q.keeps after t (
          subst (λ (x : Published). Advertised t x.1) e
            (p.reaches store t (ap (λ (x : Published). x.0) e) i))
      reaches (some x, after) store t e h i = cc
