-- ===== src/Text/Split.antt =====
-- `strings.Split` by one byte, and joining, which it undoes.
use zimaos_monitor.Base.{
  ℕ, List, [], ◌∷◌, ◌++◌, ◌==◌, if◌then◌else◌, Bytes, ◌≡◌, ◌≢◌, refl, arith, All, ap, ◌∙◌,
}

-- The part before the first separator grows a byte at the front.
abbrev grow : ℕ → List Bytes → List Bytes
grow c [] = (c ∷ []) ∷ []
grow c (p ∷ ps) = (c ∷ p) ∷ ps

unfoldable pub split : ℕ → Bytes → List Bytes
split sep [] = [] ∷ []
split sep (c ∷ s) = if c == sep then [] ∷ split sep s else grow c (split sep s)

-- Each part behind the first with a separator in front.
abbrev pub join_onto : ℕ → Bytes → List Bytes → Bytes
join_onto sep p [] = p
join_onto sep p (q ∷ qs) = p ++ (sep ∷ join_onto sep q qs)

abbrev pub join : ℕ → List Bytes → Bytes
join sep [] = []
join sep (p ∷ ps) = join_onto sep p ps

abbrev pub Lacks : ℕ → Bytes → Type 0
Lacks b = All (λ c. c ≢ b)

module _ (sep : ℕ) where
  split-ne-nil : (s : Bytes) → split sep s ≢ []
  unfolding split
  split-ne-nil [] = cc
  split-ne-nil (c ∷ s) = ground (arith, split-ne-nil s)

  grow-ne-nil : (c : ℕ) (ps : List Bytes) → grow c ps ≢ []
  grow-ne-nil c [] = cc
  grow-ne-nil c (p ∷ ps) = cc

  join-grow : (c : ℕ) (ps : List Bytes) → ps ≢ [] → join sep (grow c ps) ≡ c ∷ join sep ps
  join-grow c [] h = absurd (h refl)
  join-grow c (p ∷ []) h = refl
  join-grow c (p ∷ q ∷ qs) h = refl

  join-nil_cons : (ps : List Bytes) → ps ≢ [] → join sep ([] ∷ ps) ≡ sep ∷ join sep ps
  join-nil_cons [] h = absurd (h refl)
  join-nil_cons (p ∷ ps) h = refl

  pub join-split : (s : Bytes) → join sep (split sep s) ≡ s
  unfolding split
  join-split [] = refl
  join-split (c ∷ s) = ground (
    arith,
    join-split s,
    split-ne-nil s,
    join-grow c (split sep s) (split-ne-nil s),
    join-nil_cons (split sep s) (split-ne-nil s),
  )

  All-grow : (c : ℕ) (ps : List Bytes) → c ≢ sep → All (Lacks sep) ps → All (Lacks sep) (grow c ps)
  All-grow c [] h a = ((h, tt), tt)
  All-grow c (p ∷ ps) h (a, b) = ((h, a), b)

  -- No part of a split holds the separator.
  pub split-Lacks : (s : Bytes) → All (Lacks sep) (split sep s)
  unfolding split
  split-Lacks [] = (tt, tt)
  split-Lacks (c ∷ s) = ground (arith, split-Lacks s, All-grow c (split sep s))

  split_last : (p : Bytes) → Lacks sep p → split sep p ≡ p ∷ []
  unfolding split
  split_last [] h = refl
  split_last (c ∷ p) (h, hs) = ground (arith, split_last p hs)

  split_first : (p rest : Bytes) → Lacks sep p → split sep (p ++ (sep ∷ rest)) ≡ p ∷ split sep rest
  unfolding split
  split_first [] rest h = ground arith
  split_first (c ∷ p) rest (h, hs) = ground (arith, split_first p rest hs)

  pub split-join :
      (p : Bytes) (ps : List Bytes)
      → All (Lacks sep) (p ∷ ps)
      → split sep (join sep (p ∷ ps)) ≡ p ∷ ps
  split-join p [] (h, _) = split_last p h
  split-join p (q ∷ qs) (h, hs) = split_first p _ h ∙ ap (◌∷◌ p) (split-join q qs hs)
