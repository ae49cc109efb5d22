-- ===== src/Mqtt/Client/Connect/Failures.antt =====
-- Which errors of a connection are told apart.
use zimaos_monitor.Base.{
  ℕ, true, false, List, [], ◌∷◌, some, Bytes, codes, ◌≡◌, ◌≢◌, ◌↔◌, ◌⊎◌, inl, inr, refl, arith, In,
  Bool-cases,
}
use zimaos_monitor.Text.{to_lower, lower_byte, contains, strip_prefix}
use zimaos_monitor.Config.{Config}
use zimaos_monitor.Mqtt.Client.Connect.{
  ascii_letters, contains_pattern, contains_any, unreachable_patterns, rejected_patterns,
  unreachable, rejected, not_connected, new_client,
}

-- A lowered text holds no capital C, so no pattern that begins with one.
not_capital : (c : ℕ) → lower_byte c ≢ b'C'
unfolding lower_byte
not_capital c = ground arith

contains-capital : (s p : Bytes) → contains (to_lower s) (b'C' ∷ p) ≡ false
unfolding contains to_lower strip_prefix
contains-capital [] p = refl
contains-capital (c ∷ s) p = ground (arith, not_capital c, contains-capital s p)

contains_any-rejected :
    (s : Bytes)
    → contains_any s rejected_patterns
      ≡ contains_any s (codes "not authorised" ∷ codes "bad user name or password" ∷ [])
unfolding contains_any contains_pattern
contains_any-rejected s = rw (contains-capital (ascii_letters s) (codes "ONNACK")) refl

-- The text has one of the patterns, whatever the case of its letters.
abbrev pub Has : Bytes → List Bytes → Type 0
Has s subs = (sub : Bytes) × In sub subs × (contains (to_lower (ascii_letters s)) sub ≡ true)

contains_pattern_iff :
    (lowered : Bytes) (subs : List Bytes)
    → (contains_pattern lowered subs ≡ true)
      ↔ ((sub : Bytes) × In sub subs × (contains lowered sub ≡ true))
unfolding contains_pattern
contains_pattern_iff lowered [] = (λ h. cc h, λ (_, i, _). absurd i)
contains_pattern_iff lowered (sub ∷ subs) = elim (Bool-cases (contains lowered sub)) [
  | inl e ↦ (λ _. (sub, inl refl, e), λ _. rw (e, contains_pattern) refl)
  | inr e ↦ (
    λ h.
        let (q, i, there) = (contains_pattern_iff lowered subs).0 (rw (e, contains_pattern) at h) in
        (q, inr i, there),
    λ (q, i, there). elim i [
      | inl same ↦ cc (e, rw same at there)
      | inr j ↦ rw (e, contains_pattern) ((contains_pattern_iff lowered subs).1 (q, j, there))
    ],
  )
]

contains_any_iff : (s : Bytes) (subs : List Bytes) → (contains_any s subs ≡ true) ↔ Has s subs
unfolding contains_any
contains_any_iff s subs = contains_pattern_iff (to_lower (ascii_letters s)) subs

-- An error is called unreachable exactly if its text has one of the four patterns of the network, and
-- a rejection of the user exactly if it has none of them but `not authorised` or `bad user name or
-- password`, whatever the case of its letters: the third pattern of the code is never found.
pub new_client_iff :
    (cfg : Config) (error : Bytes)
    → ((new_client cfg (some error) ≡ not_connected unreachable) ↔ Has error unreachable_patterns)
      × ((new_client cfg (some error) ≡ not_connected (rejected cfg.mqtt.username)) ↔ (
          (¬ Has error unreachable_patterns)
          × Has error (codes "not authorised" ∷ codes "bad user name or password" ∷ [])))
unfolding new_client
new_client_iff cfg error = go (Bool-cases _) (Bool-cases _)
  where
    go :
        (contains_any error unreachable_patterns ≡ true)
          ⊎ (contains_any error unreachable_patterns ≡ false)
        → (contains_any error rejected_patterns ≡ true)
          ⊎ (contains_any error rejected_patterns ≡ false)
        → ((new_client cfg (some error) ≡ not_connected unreachable)
            ↔ Has error unreachable_patterns)
          × ((new_client cfg (some error) ≡ not_connected (rejected cfg.mqtt.username)) ↔ (
              (¬ Has error unreachable_patterns)
              × Has error (codes "not authorised" ∷ codes "bad user name or password" ∷ [])))
    go (inl e) r =
        let has = (contains_any_iff error unreachable_patterns).0 e in
        rw (e, new_client) ((λ _. has, λ _. refl), (λ h. cc h, λ (lacks, _). absurd (lacks has)))
    go (inr e) r =
        let lacks : ¬ Has error unreachable_patterns =
          λ has. let k = (contains_any_iff error unreachable_patterns).1 has in cc (e, k) in
        let same = contains_any-rejected error in
        elim r [
          | inl f ↦
              let has =
                (contains_any_iff error
                    (codes "not authorised" ∷ codes "bad user name or password" ∷ [])).0
                  (rw same at f) in
              rw (e, f, new_client)
                ((λ h. cc h, λ k. absurd (lacks k)), (λ _. (lacks, has), λ _. refl))
          | inr f ↦
              rw (e, f, new_client)
                (
                  (λ h. cc h, λ k. absurd (lacks k)),
                  (
                    λ h. cc h,
                    λ (_, has).
                        let k =
                          (contains_any_iff error
                              (codes "not authorised" ∷ codes "bad user name or password" ∷ [])).1
                            has in
                        cc (f, same, k),
                  ),
                )
        ]
