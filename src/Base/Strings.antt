-- ===== src/Base/Strings.antt =====
-- Go strings are sequences of bytes: lists of numbers here. Equality of texts is decided.
use Prim.Native.Nat.{ℕ, compare, Ordering}
use Prim.Native.Char.{code}
use Prim.Native.String.{String}
use mathlib.Core.Path.{◌≡◌}
use mathlib.Core.Bool.{Bool, true, false, Bool-discrete}
use mathlib.Core.Logic.{◌↔◌, ◌≢◌, ite, dite}
use mathlib.Core.List.{List, [], ◌∷◌}
use native.Mathlib.Omega.{arith}

abbrev pub Bytes : Type 0
Bytes = List ℕ

-- The bytes of a literal; every literal here is ASCII.
abbrev pub codes : String → Bytes
codes String.[] = []
codes (String.◌∷◌ c s) = code c ∷ codes s

pub eq_bytes : Bytes → Bytes → Bool
eq_bytes [] [] = true
eq_bytes (x ∷ xs) (y ∷ ys) = elim (compare x y) [ Ordering.eq ↦ eq_bytes xs ys | _ ↦ false ]
eq_bytes _ _ = false

pub eq_bytes_iff : (a b : Bytes) → (eq_bytes a b ≡ true) ↔ (a ≡ b)
unfolding eq_bytes
eq_bytes_iff (x ∷ a) (y ∷ b) = ground (arith, eq_bytes_iff a b)
eq_bytes_iff _ _ = ground arith

-- Shut in proofs, where a split on `str_eq a b` gives the equation or its negation.
unfoldable pub bytes_discrete : Discrete Bytes
unfolding eq_bytes
bytes_discrete a b =
    dite (Bool-discrete (eq_bytes a b) true) (λ same. yes ((eq_bytes_iff a b).0 same))
      (λ differ. no (λ p. differ ((eq_bytes_iff a b).1 p)))

-- `a == b` on strings.
abbrev pub str_eq : Bytes → Bytes → Bool
str_eq a b = ite (bytes_discrete a b) true false

pub str_eq_refl : (a : Bytes) → str_eq a a ≡ true
str_eq_refl a = ground arith

pub str_eq_iff : (a b : Bytes) → (str_eq a b ≡ true) ↔ (a ≡ b)
str_eq_iff a b = ground arith

pub str_eq-eq-false : (a b : Bytes) → str_eq a b ≡ false → a ≢ b
str_eq-eq-false a b h = ground arith
