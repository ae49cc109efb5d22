-- ===== src/Tests/Announce.antt =====
-- A start of the service of the device `d`, whose broker holds an old record.
use zimaos_monitor.Base.{
  ◌++◌, ◌==◌, ap, In, ◌≡◌, ◌↔◌, ◌≢◌, inl, inr, refl, sym, true, List, [], ◌∷◌, Option, none, some,
  Bytes, codes, str_eq, str_eq_iff, Bool-cases, if-eq-then, if-eq-else, ◌∙◌, if◌then◌else◌, arith,
  All, subst,
}
use zimaos_monitor.Base.Int.{pos}
use zimaos_monitor.Text.{contains_any_byte, one_of}
use zimaos_monitor.Config.{Config, DiskConfig, UpdatesConfig, unset}
use zimaos_monitor.Mqtt.Topic.{Address, discovery_topic_filter}
use zimaos_monitor.Mqtt.Topic.Parse.{IsAddress, topic_of}
use zimaos_monitor.Mqtt.Client.{Retained, Message, Broker}
use zimaos_monitor.Mqtt.Cleanup.{Probe}
use zimaos_monitor.Mqtt.Cleanup.Purge.{IsCurrent, IsHonest}
use zimaos_monitor.Base.Distinct.{Distinct}
use zimaos_monitor.Mqtt.Discovery.{sensors, device_of, origin}
use zimaos_monitor.Mqtt.Discovery.Unique.{unique_ids, disk_keys, sensors-Distinct_iff}
use zimaos_monitor.Mqtt.Discovery.Publish.{Encoder, desired_topics, publish_discovery}
use zimaos_monitor.Mqtt.Discovery.Publish.Publication.{IsJson, probe_of, Advertised}
use zimaos_monitor.Mqtt.Discovery.Publish.Desired.{desired}
use zimaos_monitor.Mqtt.Discovery.Publish.Success.{CanEncode}
use zimaos_monitor.Mqtt.Discovery.Publish.Exact.{IsComplete, started, publish_discovery_exact}

abbrev pub device : Bytes
device = codes "d"

abbrev pub updates : UpdatesConfig
updates = record { enabled = none; check_interval = pos 0 }

abbrev pub config : Config
config = record {
  mqtt = record {
    broker = codes "tcp://b:1883";
    username = [];
    password = [];
    client_id = codes "c";
  };
  device = record {
    name = codes "nas";
    id = device;
    model = codes "m";
    manufacturer = [];
    serial_number = codes "s";
    sw_version = [];
  };
  interval = pos 30;
  disks = record { path = codes "/DATA"; name = codes "ZimaOS-HD" } ∷ [];
  updates = updates;
  monitor_updates = updates;
  identity = record { client_id_provenance = unset; device_id_provenance = unset; warnings = [] };
}

abbrev pub address : Address
address = record { component = codes "sensor"; node_id = device; object_id = codes "old" }

abbrev pub payload : Bytes
payload = codes "zimaos-monitor\nd\nold"

abbrev pub store : Retained
store t = if str_eq t (topic_of address) then some payload else none

abbrev pub message : Message
message = record { topic = topic_of address; payload = payload; retained = true }

abbrev pub broker : Broker
broker = record { delivers = λ _ _. true; arrivals = λ _ _. some (message ∷ []) }

abbrev joined : List Bytes → Bytes
joined [] = []
joined (s ∷ list) = s ++ joined list

-- An encoder of all records: the name of the program, the identifiers and the rest, a line each.
abbrev encode : Bytes → List Bytes → Bytes → Bytes
encode name identifiers rest = name ++ (b'\n' ∷ (joined identifiers ++ (b'\n' ∷ rest)))

abbrev pub encoder : Encoder
encoder = record {
  encode_sensor = λ s. some (encode s.origin.name s.device.identifiers s.unique_id);
  encode_update = λ u. some (encode u.origin.name u.device.identifiers u.unique_id);
}

-- The text up to a line feed, and the text behind it
abbrev cut_line : Bytes → Bytes × Bytes
cut_line [] = ([], [])
cut_line (c ∷ s) = let (l, rest) = cut_line s in if c == b'\n' then ([], s) else (c ∷ l, rest)

abbrev pub decode_probe : Bytes → Option Probe
decode_probe text =
    let (name, rest) = cut_line text in
    some (record { origin = name; identifiers = (cut_line rest).0 ∷ [] })

decode-encode :
    (name : Bytes) (identifiers : List Bytes) (rest p : Bytes)
    → name ≡ origin.name
    → identifiers ≡ (device_of config).identifiers
    → some (encode name identifiers rest) ≡ some p
    → (p ≢ []) × (decode_probe p ≡ some (probe_of config))
decode-encode name identifiers rest p o d h =
    let same : some p ≡ some (encode origin.name (device_of config).identifiers rest) =
      sym h
      ∙ ap (λ x. some (encode x identifiers rest)) o
      ∙ ap (λ x. some (encode origin.name x rest)) d in
    let text : p ≡ encode origin.name (device_of config).identifiers rest = cc same in
    rw text (λ e. cc e, refl)

pub json : IsJson encoder decode_probe config
json = record {
  sensor = λ s p (o, d) h.
      decode-encode s.origin.name s.device.identifiers s.unique_id p (ap (λ x. x.name) o)
        (ap (λ x. x.identifiers) d) h;
  update = λ u p o d h.
      decode-encode u.origin.name u.device.identifiers u.unique_id p (ap (λ x. x.name) o)
        (ap (λ x. x.identifiers) d) h;
}

pub honest : IsHonest broker store
honest filter messages e =
    let sent : message ∷ [] ≡ messages = cc in subst (All (IsCurrent store)) sent current
  where
    current : All (IsCurrent store) (message ∷ [])
    current = (λ _. ground arith, tt)

is_message :
    (a : Address) (p : Bytes)
    → store (topic_of a) ≡ some p
    → In (record { topic = topic_of a; payload = p; retained = true }) (message ∷ [])
is_message a p h = elim (Bool-cases (str_eq (topic_of a) (topic_of address))) [
  | inl e ↦
      let same : topic_of a ≡ topic_of address = (str_eq_iff (topic_of a) (topic_of address)).0 e in
      let found : some payload ≡ some p = sym (if-eq-then (some payload) none e) ∙ h in
      let same_payload : p ≡ payload = cc found in inl (rw (same, same_payload) refl)
  | inr e ↦ cc (if-eq-else (some payload) none e, h)
]

pub complete : IsComplete broker store device
complete filter e = (message ∷ [], refl, λ a p _ _ h. is_message a p h)

pub is_address : IsAddress address
is_address = record {
  component = (ground arith, ground arith);
  node_id = (ground arith, ground arith);
  object_id = (ground arith, ground arith);
}

pub filter_run : discovery_topic_filter device ≡ some (codes "homeassistant/+/d/+/config")
unfolding discovery_topic_filter contains_any_byte one_of
filter_run = refl

pub can_encode : CanEncode encoder config
can_encode = record { sensor = λ s ours. (_, refl); update = λ u o d. (_, refl) }

publish_discovery_exact_example :
    ((publish_discovery broker encoder decode_probe config config.disks 1 true store).0 ≡ none)
    × (Advertised decode_probe device
          (topic_of address)
          (started broker encoder decode_probe config config.disks 1 store)
        ↔ (desired config config.disks 1 (topic_of address) ≡ true))
publish_discovery_exact_example =
    publish_discovery_exact broker encoder decode_probe config config.disks 1 store
      (codes "homeassistant/+/d/+/config") json honest complete (λ _ _. refl) filter_run can_encode
      address is_address refl

abbrev twins : List DiskConfig
twins =
    record { path = codes "/media/a b"; name = codes "a b" }
    ∷ record { path = codes "/media/a_b"; name = codes "a_b" }
    ∷ []

sensors-Distinct_iff_example :
    (Distinct (unique_ids (sensors config twins 2)) ↔ Distinct (disk_keys twins))
    × (Distinct (desired_topics config (sensors config twins 2)) ↔ Distinct (disk_keys twins))
sensors-Distinct_iff_example = sensors-Distinct_iff config twins 2

-- The records of these two disks collide.
twins_collide : ¬ Distinct (unique_ids (sensors config twins 2))
twins_collide h = ((sensors-Distinct_iff config twins 2).0.0 h).0 (inl refl)
