-- ===== src/Base/Distinct.antt =====
-- Lists without two equal elements.
use zimaos_monitor.Base.Lists.{In, In-append-left, In-append-right, In-append-cases}
use mathlib.Core.Path.{◌≡◌, refl, sym, ap, subst}
use mathlib.Core.Logic.{◌↔◌, inl, inr}
use mathlib.Core.List.{List, [], ◌∷◌, ◌++◌, map}

-- No element is one of those behind it.
abbrev pub Distinct : {A : Type 0} → List A → Type 0
Distinct [] = Unit
Distinct (x ∷ xs) = ¬ In x xs × Distinct xs

module _ {A B : Type 0} (f : A → B) where
  pub In-map : (a : A) (xs : List A) → In a xs → In (f a) (map f xs)
  In-map a [] i = absurd i
  In-map a (x ∷ xs) (inl e) = inl (ap f e)
  In-map a (x ∷ xs) (inr i) = inr (In-map a xs i)

  pub In-map-cases : (b : B) (xs : List A) → In b (map f xs) → (a : A) × In a xs × (b ≡ f a)
  In-map-cases b [] i = absurd i
  In-map-cases b (x ∷ xs) (inl e) = (x, inl refl, e)
  In-map-cases b (x ∷ xs) (inr i) = let (a, j, e) = In-map-cases b xs i in (a, inr j, e)

  -- An injective function makes no two elements equal.
  pub Distinct-map :
      ((a b : A) → f a ≡ f b → a ≡ b) → (xs : List A) → Distinct (map f xs) ↔ Distinct xs
  Distinct-map injective [] = (λ _. tt, λ _. tt)
  Distinct-map injective (x ∷ xs) = (
    λ (fresh, rest). (λ i. fresh (In-map x xs i), (Distinct-map injective xs).0 rest),
    λ (fresh, rest). (
      λ i.
          let (a, j, e) = In-map-cases (f x) xs i in
          fresh (subst (λ y. In y xs) (sym (injective x a e)) j),
      (Distinct-map injective xs).1 rest,
    ),
  )

module _ {A : Type 0} where
  abbrev pub Disjoint : List A → List A → Type 0
  Disjoint xs ys = (x : A) → In x xs → ¬ In x ys

  -- Two lists are distinct together exactly if each is, and they share no element.
  pub Distinct-append :
      (xs ys : List A) → Distinct (xs ++ ys) ↔ (Distinct xs × Distinct ys × Disjoint xs ys)
  Distinct-append [] ys = (λ h. (tt, h, λ x i. absurd i), λ (_, h, _). h)
  Distinct-append (x ∷ xs) ys = (
    λ (fresh, rest).
        let (left, right, apart) = (Distinct-append xs ys).0 rest in
        (
          (λ i. fresh (In-append-left x xs ys i), left),
          right,
          λ y i j. elim i [
            | inl e ↦ fresh (In-append-right x xs ys (subst (λ z. In z ys) e j))
            | inr k ↦ apart y k j
          ],
        ),
    λ ((fresh, left), right, apart). (
      λ i. elim (In-append-cases x xs ys i) [ inl j ↦ fresh j | inr j ↦ apart x (inl refl) j ],
      (Distinct-append xs ys).1 (left, right, λ y i. apart y (inr i)),
    ),
  )
