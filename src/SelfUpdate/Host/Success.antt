-- ===== src/SelfUpdate/Host/Success.antt =====
-- What a successful action tells of its parts.
use zimaos_monitor.Base.{
  ℕ, Bool, true, false, Option, none, some, Bytes, ◌≡◌, refl, arith, ap, sym, ◌∙◌,
}
use zimaos_monitor.SelfUpdate.Host.{
  Environment, World, Result, ok, err, Io, bind_result, ◌>>=◌, check, or_raise, ask, relabel,
  as_error, content_of, attempt, read, write,
}

module _ {E : Type 0} where
  pub bind-eq-ok :
      {A B : Type 0} (m : Io E A) (f : A → Io E B) (w : World) {b : B} {w' : World}
      → (m >>= f) w ≡ (ok b, w')
      → (a : A) × (v : World) × (m w ≡ (ok a, v)) × (f a v ≡ (ok b, w'))
  unfolding ◌>>=◌
  bind-eq-ok {A} {B} m f w {b} {w'} h = go (m w).0 (m w).1 refl h
    where
      go :
          (r : Result E A) (v : World)
          → m w ≡ (r, v)
          → bind_result r v f ≡ (ok b, w')
          → (a : A) × (v : World) × (m w ≡ (ok a, v)) × (f a v ≡ (ok b, w'))
      go (ok a) v e k = (a, v, e, k)
      go (err x) v e k = cc

  pub check-eq-ok :
      (test : Bool) (e : E) (w : World) {u : Unit {0}} {w' : World}
      → check test e w ≡ (ok u, w')
      → (test ≡ true) × (w' ≡ w)
  check-eq-ok true e w h = (refl, cc)
  check-eq-ok false e w h = cc

  pub or_raise-eq-ok :
      {A : Type 0} (o : Option A) (e : E) (w : World) {a : A} {w' : World}
      → or_raise o e w ≡ (ok a, w')
      → (o ≡ some a) × (w' ≡ w)
  or_raise-eq-ok none e w h = cc
  or_raise-eq-ok (some x) e w h = (cc, cc)

  pub ask-eq-ok :
      {A : Type 0} (f : ℕ → A) (w : World) {a : A} {w' : World}
      → ask {E = E} f w ≡ (ok a, w')
      → (f w.clock ≡ a) × (w'.files ≡ w.files)
  ask-eq-ok f w h = (cc, cc)

pub as_error-eq-ok :
    {E E' A : Type 0} (f : E → E') (m : Io E A) (w : World) {a : A} {w' : World}
    → as_error f m w ≡ (ok a, w')
    → m w ≡ (ok a, w')
unfolding as_error
as_error-eq-ok {E} {E'} {A} f m w {a} {w'} h = go (m w).0 (m w).1 refl h
  where
    go :
        (r : Result E A) (v : World)
        → m w ≡ (r, v)
        → ◌≡◌ {A = Result E' A × World} (relabel f r, v) (ok a, w')
        → m w ≡ (ok a, w')
    go (ok x) v e k = cc
    go (err x) v e k = cc

module _ (env : Environment) {E : Type 0} where
  pub attempt-eq-ok :
      (e : E) (w : World) {u : Unit {0}} {w' : World}
      → attempt env e w ≡ (ok u, w')
      → w'.files ≡ w.files
  unfolding attempt
  attempt-eq-ok e w h = cc

  pub read-eq-ok :
      (path : Bytes) (e : E) (w : World) {content : Bytes} {w' : World}
      → read env path e w ≡ (ok content, w')
      → (w.files path ≡ some content) × (w'.files ≡ w.files)
  unfolding read
  read-eq-ok path e w h =
      let (u, v, p, q) =
        bind-eq-ok (attempt env e) (λ _. content_of path >>= λ c. or_raise c e) w h in
      let (found, same) = or_raise-eq-ok (v.files path) e v q in
      let kept = attempt-eq-ok e w p in
      (ap (λ f. f path) (sym kept) ∙ found, ap (λ (x : World). x.files) same ∙ kept)

  pub write-eq-ok :
      (path content : Bytes) (e : E) (w : World) {u : Unit {0}} {w' : World}
      → write env path content e w ≡ (ok u, w')
      → w'.files path ≡ some content
  unfolding write
  write-eq-ok path content e w h = ground arith
