-- ===== src/Mqtt/Client/Keyed.antt =====
-- Each retained message that arrives is collected under its topic.
use mathlib.Core.Path.{subst}
use zimaos_monitor.Base.{
  ◌≡◌, inl, inr, refl, sym, ap, ◌∙◌, arith, Bool, true, false, not, List, [], ◌∷◌, In, Bytes,
  if◌then◌else◌, str_eq, str_eq_iff,
}
use zimaos_monitor.Mqtt.Client.{Collected, Message, insert, collect_messages}

-- Some payload is collected for the topic.
abbrev pub Keyed : Bytes → Collected → Type 0
Keyed t collected = (p : Bytes) × In (t, p) collected

In-insert : (t p : Bytes) (collected : Collected) → In (t, p) (insert t p collected)
In-insert t p [] = inl refl
In-insert t p ((u, q) ∷ collected) = go (str_eq t u) (In-insert t p collected)
  where
    go :
        (b : Bool)
        → In (t, p) (insert t p collected)
        → In (t, p) (if b then (t, p) ∷ collected else (u, q) ∷ insert t p collected)
    go true i = inl refl
    go false i = inr i

Keyed-insert :
    (t u q : Bytes) (collected : Collected) → Keyed t collected → Keyed t (insert u q collected)
Keyed-insert t u q [] (p, i) = absurd i
Keyed-insert t u q ((v, x) ∷ collected) (p, i) =
    go (str_eq u v) (λ e. (str_eq_iff u v).0 e) i (λ j. Keyed-insert t u q collected (p, j))
  where
    go :
        (b : Bool)
        → (b ≡ true → u ≡ v)
        → In (t, p) ((v, x) ∷ collected)
        → (In (t, p) collected → Keyed t (insert u q collected))
        → Keyed t (if b then (u, q) ∷ collected else (v, x) ∷ insert u q collected)
    go true same (inl e) next = (q, inl (ap (λ y. (y, q)) (ap (λ y. y.0) e ∙ sym (same refl))))
    go true same (inr j) next = (p, inr j)
    go false same (inl e) next = (p, inl e)
    go false same (inr j) next = let (r, k) = next j in (r, inr k)

Keyed-collect_messages :
    (t : Bytes) (messages : List Message) (collected : Collected)
    → Keyed t collected
    → Keyed t (collect_messages collected messages)
unfolding collect_messages
Keyed-collect_messages t [] collected k = k
Keyed-collect_messages t (m ∷ messages) collected k =
    Keyed-collect_messages t messages _ (go (not m.retained))
  where
    go : (b : Bool) → Keyed t (if b then collected else insert m.topic m.payload collected)
    go true = k
    go false = Keyed-insert t m.topic m.payload collected k

pub collect_messages-Keyed :
    (m : Message) (messages : List Message) (collected : Collected)
    → In m messages
    → m.retained ≡ true
    → Keyed m.topic (collect_messages collected messages)
unfolding collect_messages
collect_messages-Keyed m [] collected i r = absurd i
collect_messages-Keyed m (x ∷ messages) collected (inr i) r =
    collect_messages-Keyed m messages _ i r
collect_messages-Keyed m (x ∷ messages) collected (inl e) r =
    subst (λ (y : Message). Keyed y.topic (collect_messages collected (x ∷ messages))) (sym e)
      (Keyed-collect_messages x.topic messages _ (go (not x.retained) (ground arith)))
  where
    go :
        (b : Bool)
        → b ≡ false
        → Keyed x.topic (if b then collected else insert x.topic x.payload collected)
    go true h = cc
    go false h = (x.payload, In-insert x.topic x.payload collected)
