-- ===== src/Setup/Flow/Reads.antt =====
-- What a dialogue that goes through says of its parts.
use zimaos_monitor.Base.{◌≡◌, refl, ap, List, [], ◌∷◌, Bytes}
use zimaos_monitor.Setup.Flow.{
  Input, line, broken, Reading, got, stopped, read_behind, Dialogue, ◌>>=◌, go_on,
}

-- These lines, and then what follows them.
abbrev pub lines : List Bytes → List Input → List Input
lines [] rest = rest
lines (s ∷ list) rest = line s ∷ lines list rest

module _ {A B : Type 0} where
  pub bind-eq-got :
      (m : Dialogue A) (f : A → Dialogue B) (inputs rest : List Input) (b : B)
      → ((m >>= f) inputs).0 ≡ got b rest
      → (a : A) × (middle : List Input) × ((m inputs).0 ≡ got a middle)
        × ((f a middle).0 ≡ got b rest)
  unfolding ◌>>=◌
  bind-eq-got m f inputs rest b h = go (m inputs) refl h
    where
      go :
          (r : Reading A × List Bytes)
          → m inputs ≡ r
          → (go_on r f).0 ≡ got b rest
          → (a : A) × (middle : List Input) × ((m inputs).0 ≡ got a middle)
            × ((f a middle).0 ≡ got b rest)
      go (got a middle, out) e h = (a, middle, ap (λ x. x.0) e, h)
      go (stopped x, out) e h = cc

-- A read gives the next line.
pub read_behind-eq-got :
    (out : List Bytes) (inputs rest : List Input) (s : Bytes)
    → (read_behind out inputs).0 ≡ got s rest
    → inputs ≡ line s ∷ rest
read_behind-eq-got out [] rest s h = cc
read_behind-eq-got out (line x ∷ inputs) rest s h = cc
read_behind-eq-got out (broken ∷ inputs) rest s h = cc
