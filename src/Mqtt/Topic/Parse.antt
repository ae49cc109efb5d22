-- ===== src/Mqtt/Topic/Parse.antt =====
-- Which topics are discovery topics, and which of them the filter of a device asks for.
use zimaos_monitor.Base.{
  ◌≡◌, ◌≢◌, ◌↔◌, false, sym, ap, ◌∙◌, List, [], ◌∷◌, none, some, Bytes, codes, All, arith,
}
use zimaos_monitor.Text.{split, join, Lacks, split-Lacks, join-split, split-join}
use zimaos_monitor.Config.Identity.{safe_discovery_device_id}
use zimaos_monitor.Mqtt.Topic.{Address, parse_discovery_topic, read_levels, discovery_topic_filter}

-- The levels of the topic of an entity.
abbrev pub levels : Address → List Bytes
levels a = codes "homeassistant" ∷ a.component ∷ a.node_id ∷ a.object_id ∷ codes "config" ∷ []

abbrev pub topic_of : Address → Bytes
topic_of a = join b'/' (levels a)

-- One level of a topic that names something.
abbrev pub IsLevel : Bytes → Type 0
IsLevel s = (s ≢ []) × Lacks b'/' s

pub record IsAddress (a : Address) : Type 0 where
  pub component : IsLevel a.component
  pub node_id : IsLevel a.node_id
  pub object_id : IsLevel a.object_id

read_levels-eq-some :
    (ls : List Bytes) (a : Address)
    → read_levels ls ≡ some a
    → (ls ≡ levels a) × (a.component ≢ []) × (a.node_id ≢ []) × (a.object_id ≢ [])
unfolding read_levels
read_levels-eq-some (root ∷ component ∷ node_id ∷ object_id ∷ last ∷ []) a h = ground arith
read_levels-eq-some [] a h = cc
read_levels-eq-some (_ ∷ []) a h = cc
read_levels-eq-some (_ ∷ _ ∷ []) a h = cc
read_levels-eq-some (_ ∷ _ ∷ _ ∷ []) a h = cc
read_levels-eq-some (_ ∷ _ ∷ _ ∷ _ ∷ []) a h = cc
read_levels-eq-some (_ ∷ _ ∷ _ ∷ _ ∷ _ ∷ _ ∷ _) a h = cc

read_levels-levels :
    (a : Address)
    → a.component ≢ []
    → a.node_id ≢ []
    → a.object_id ≢ []
    → read_levels (levels a) ≡ some a
unfolding read_levels
read_levels-levels a h i j = ground arith

fixed-Lacks : Lacks b'/' (codes "homeassistant") × Lacks b'/' (codes "config")
fixed-Lacks = ground arith

-- A topic is parsed exactly if it is `homeassistant/<component>/<node>/<object>/config` with levels
-- that are not empty and hold no slash, and the result has these three.
pub parse_discovery_topic_iff :
    (topic : Bytes) (a : Address)
    → (parse_discovery_topic topic ≡ some a) ↔ ((topic ≡ topic_of a) × IsAddress a)
unfolding parse_discovery_topic
parse_discovery_topic_iff topic a = (
  λ h.
      let (parts, c, n, o) = read_levels-eq-some (split b'/' topic) a h in
      let (_, (lc, (ln, (lo, _)))) : All (Lacks b'/') (levels a) =
        rw parts at (split-Lacks b'/' topic) in
      (
        sym (join-split b'/' topic) ∙ ap (join b'/') parts,
        record { component = (c, lc); node_id = (n, ln); object_id = (o, lo) },
      ),
  λ (e, good).
      ap (λ t. read_levels (split b'/' t)) e
      ∙ ap read_levels (
          split-join b'/' (codes "homeassistant")
            (a.component ∷ a.node_id ∷ a.object_id ∷ codes "config" ∷ [])
            (
              fixed-Lacks.0,
              (good.component.1, (good.node_id.1, (good.object_id.1, (fixed-Lacks.1, tt)))),
            ))
      ∙ read_levels-levels a good.component.0 good.node_id.0 good.object_id.0,
)

-- The cleanup has no filter exactly for the device IDs that `Load` warns of as unsafe.
pub discovery_topic_filter_iff :
    (device_id : Bytes)
    → (discovery_topic_filter device_id ≡ none) ↔ (safe_discovery_device_id device_id ≡ false)
unfolding discovery_topic_filter safe_discovery_device_id
discovery_topic_filter_iff [] = ground arith
discovery_topic_filter_iff (c ∷ s) = ground arith
