-- ===== src/Setup/Flow/Prefix.antt =====
-- What a dialogue makes of the front of its inputs.
use zimaos_monitor.Base.{◌≡◌, refl, ap, ◌∙◌, Bool, ℕ, List, [], ◌∷◌, ◌++◌, Bytes}
use zimaos_monitor.Setup.Input.{
  Host, host, no_host, host_message, Port, port, no_port, port_message, normalize_broker_host,
  parse_broker_port,
}
use zimaos_monitor.Setup.Flow.{
  Input, line, broken, Reading, got, stopped, answer, prompt_host, prompt_port, read_behind,
  read_line, Dialogue, ◌>>=◌, go_on, behind, error_line, host_prompt, port_prompt, ask_login,
}

-- A dialogue that has its answer does not look at what is typed behind.
abbrev pub StaysAt : {A : Type 0} → Dialogue A → List Input → Type 0
StaysAt {A = A} m inputs =
    (a : A) (rest : List Input) (out : List Bytes) (more : List Input)
    → m inputs ≡ (got a rest, out)
    → m (inputs ++ more) ≡ (got a (rest ++ more), out)

abbrev pub Stays : {A : Type 0} → Dialogue A → Type 0
Stays m = (inputs : List Input) → StaysAt m inputs

module _ {A B : Type 0} where
  Stays-bind :
      (m : Dialogue A) (f : A → Dialogue B) → Stays m → ((a : A) → Stays (f a)) → Stays (m >>= f)
  unfolding ◌>>=◌
  Stays-bind m f stay_m stay_f inputs b rest out more h = first (m inputs) refl h
    where
      second :
          (a : A) (middle : List Input) (before : List Bytes) (r : Reading B × List Bytes)
          → f a middle ≡ r
          → m inputs ≡ (got a middle, before)
          → behind before r ≡ (got b rest, out)
          → go_on (m (inputs ++ more)) f ≡ (got b (rest ++ more), out)
      second a middle before (got c last, after) e e' k =
          ap (λ x. go_on x f) (stay_m inputs a middle before more e')
          ∙ ap (behind before) (stay_f a middle c last after more e)
          ∙ cc
      second a middle before (stopped x, after) e e' k = cc

      first :
          (r : Reading A × List Bytes)
          → m inputs ≡ r
          → go_on r f ≡ (got b rest, out)
          → go_on (m (inputs ++ more)) f ≡ (got b (rest ++ more), out)
      first (got a middle, before) e k = second a middle before (f a middle) refl e k
      first (stopped x, before) e k = cc

Stays-read_behind : (texts : List Bytes) → Stays (read_behind texts)
Stays-read_behind texts [] s rest out more h = cc
Stays-read_behind texts (line x ∷ inputs) s rest out more h = cc
Stays-read_behind texts (broken ∷ inputs) s rest out more h = cc

Stays-answer : {A : Type 0} (a : A) → Stays (answer a)
Stays-answer a inputs b rest out more h = cc

-- The same behind the texts that a refused answer makes
StaysAt-behind :
    {A : Type 0} (m : Dialogue A) (texts : List Bytes) (inputs : List Input)
    → StaysAt m inputs
    → (a : A) (rest : List Input) (out : List Bytes) (more : List Input)
    → behind texts (m inputs) ≡ (got a rest, out)
    → behind texts (m (inputs ++ more)) ≡ (got a (rest ++ more), out)
StaysAt-behind {A = A} m texts inputs stay a rest out more h = go (m inputs) refl h
  where
    go :
        (r : Reading A × List Bytes)
        → m inputs ≡ r
        → behind texts r ≡ (got a rest, out)
        → behind texts (m (inputs ++ more)) ≡ (got a (rest ++ more), out)
    go (got b last, after) e k = ap (behind texts) (stay b last after more e) ∙ cc
    go (stopped x, after) e k = cc

Stays-prompt_port : Stays prompt_port
unfolding prompt_port
Stays-prompt_port [] n rest out more h = cc
Stays-prompt_port (broken ∷ inputs) n rest out more h = cc
Stays-prompt_port (line s ∷ inputs) n rest out more h =
    go (parse_broker_port s) h (Stays-prompt_port inputs)
  where
    go :
        (r : Port)
        → (elim r as (λ _. Reading ℕ × List Bytes) [
          | port n ↦ (got n inputs, port_prompt ∷ [])
          | no_port e ↦ behind (port_prompt ∷ error_line (port_message e) ∷ []) (prompt_port inputs)
        ])
          ≡ (got n rest, out)
        → StaysAt prompt_port inputs
        → (elim r as (λ _. Reading ℕ × List Bytes) [
          | port n ↦ (got n (inputs ++ more), port_prompt ∷ [])
          | no_port e ↦
              behind (port_prompt ∷ error_line (port_message e) ∷ []) (prompt_port (inputs ++ more))
        ])
          ≡ (got n (rest ++ more), out)
    go (port m) k stay = cc
    go (no_port e) k stay =
        StaysAt-behind prompt_port (port_prompt ∷ error_line (port_message e) ∷ []) inputs stay n
          rest out more k

module _ (is_ip : Bytes → Bool) where
  Stays-prompt_host : Stays (prompt_host is_ip)
  unfolding prompt_host
  Stays-prompt_host [] n rest out more h = cc
  Stays-prompt_host (broken ∷ inputs) n rest out more h = cc
  Stays-prompt_host (line s ∷ inputs) n rest out more h =
      go (normalize_broker_host is_ip s) h (Stays-prompt_host inputs)
    where
      go :
          (r : Host)
          → (elim r as (λ _. Reading Bytes × List Bytes) [
            | host n ↦ (got n inputs, host_prompt ∷ [])
            | no_host e ↦
                behind (host_prompt ∷ error_line (host_message e) ∷ []) (prompt_host is_ip inputs)
          ])
            ≡ (got n rest, out)
          → StaysAt (prompt_host is_ip) inputs
          → (elim r as (λ _. Reading Bytes × List Bytes) [
            | host n ↦ (got n (inputs ++ more), host_prompt ∷ [])
            | no_host e ↦
                behind
                  (host_prompt ∷ error_line (host_message e) ∷ [])
                  (prompt_host is_ip (inputs ++ more))
          ])
            ≡ (got n (rest ++ more), out)
      go (host m) k stay = cc
      go (no_host e) k stay =
          StaysAt-behind (prompt_host is_ip) (host_prompt ∷ error_line (host_message e) ∷ []) inputs
            stay n rest out more k

  pub Stays-ask_login : Stays (ask_login is_ip)
  unfolding ask_login
  Stays-ask_login = Stays-bind (prompt_host is_ip) _ Stays-prompt_host λ h.
      Stays-bind prompt_port _ Stays-prompt_port
        λ n. Stays-bind (read_line _) _ (Stays-read_behind _) λ u. Stays-answer (h, n, u)
