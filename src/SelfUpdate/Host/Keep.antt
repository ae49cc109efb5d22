-- ===== src/SelfUpdate/Host/Keep.antt =====
-- Which files an action leaves alone.
use zimaos_monitor.Base.{ℕ, Bool, List, Option, none, some, Bytes, ◌≡◌, ◌≢◌, refl, arith, ◌∙◌}
use zimaos_monitor.SelfUpdate.Host.{
  Environment, World, Result, ok, err, Io, bind_result, ◌>>=◌, pure, raise, check, or_raise, ask,
  as_error, finally, attempt, read, create, write, run,
}

-- The action does not touch the file at `p`, whatever its result.
pub record Keeps {E A : Type 0} (p : Bytes) (m : Io E A) : Type 0 where
  pub at_end : (w : World) → (m w).1.files p ≡ w.files p

module _ {E : Type 0} (p : Bytes) where
  pub Keeps-bind :
      {A B : Type 0} {m : Io E A} {f : A → Io E B}
      → Keeps p m
      → ((a : A) → Keeps p (f a))
      → Keeps p (m >>= f)
  unfolding ◌>>=◌
  Keeps-bind {B} {m} {f} hm hf = record { at_end = λ w. go w (m w).0 ∙ hm.at_end w }
    where
      go : (w : World) (r : Result E _) → (bind_result r (m w).1 f).1.files p ≡ (m w).1.files p
      go w (ok a) = (hf a).at_end (m w).1
      go w (err e) = refl

  pub Keeps-finally :
      {A : Type 0} {m : Io E A} (clean : World → World)
      → Keeps p m
      → ((w : World) → (clean w).files p ≡ w.files p)
      → Keeps p (finally clean m)
  unfolding finally
  Keeps-finally {m} clean hm hc = record { at_end = λ w. hc (m w).1 ∙ hm.at_end w }

  pub Keeps-or_raise : {A : Type 0} (o : Option A) (e : E) → Keeps p (or_raise o e)
  Keeps-or_raise none e = record { at_end = λ w. refl }
  Keeps-or_raise (some a) e = record { at_end = λ w. refl }

  pub Keeps-pure : {A : Type 0} (a : A) → Keeps p (pure {E = E} a)
  Keeps-pure a = record { at_end = λ w. refl }

  pub Keeps-raise : {A : Type 0} (e : E) → Keeps p (raise {A = A} e)
  Keeps-raise e = record { at_end = λ w. refl }

  pub Keeps-check : (test : Bool) (e : E) → Keeps p (check test e)
  Keeps-check test e = record { at_end = λ w. refl }

  pub Keeps-ask : {A : Type 0} (f : ℕ → A) → Keeps p (ask {E = E} f)
  Keeps-ask f = record { at_end = λ w. refl }

pub Keeps-as_error :
    {E E' A : Type 0} (p : Bytes) (f : E → E') {m : Io E A} → Keeps p m → Keeps p (as_error f m)
unfolding as_error
Keeps-as_error p f hm = record { at_end = hm.at_end }

module _ (env : Environment) {E : Type 0} (p : Bytes) where
  pub Keeps-attempt : (e : E) → Keeps p (attempt env e)
  unfolding attempt
  Keeps-attempt e = record { at_end = λ w. ground arith }

  pub Keeps-read : (path : Bytes) (e : E) → Keeps p (read env path e)
  unfolding read
  Keeps-read path e = record { at_end = λ w. ground arith }

  pub Keeps-create : (path : Bytes) (e : E) → p ≢ path → Keeps p (create env path e)
  unfolding create
  Keeps-create path e ne = record { at_end = λ w. ground arith }

  pub Keeps-write : (path content : Bytes) (e : E) → p ≢ path → Keeps p (write env path content e)
  unfolding write
  Keeps-write path content e ne = record { at_end = λ w. ground arith }

  pub Keeps-run : (args : List Bytes) (e : E) → Keeps p (run env args e)
  unfolding run
  Keeps-run args e = record { at_end = λ w. refl }
