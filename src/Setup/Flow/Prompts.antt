-- ===== src/Setup/Flow/Prompts.antt =====
-- The lines that the prompts for the host and for the port take.
use zimaos_monitor.Base.{◌≡◌, refl, ap, Bool, List, [], ◌∷◌, Bytes, ℕ, All}
use zimaos_monitor.Setup.Input.{
  Host, no_host, host_message, HostError, PortError, port_message, Port, no_port,
  normalize_broker_host, host, parse_broker_port, port,
}
use zimaos_monitor.Setup.Flow.{
  Input, line, broken, Reading, got, prompt_host, prompt_port, behind, error_line, host_prompt,
  port_prompt,
}
use zimaos_monitor.Setup.Flow.Reads.{lines}

-- A line that is refused as port
abbrev pub IsNoPort : Bytes → Type 0
IsNoPort s = (e : PortError) × (parse_broker_port s ≡ no_port e)

-- The lines that are refused as port, and the one that is taken.
pub record PortLines (inputs rest : List Input) (n : ℕ) : Type 0 where
  pub refused : List Bytes
  pub typed : Bytes
  pub each_refused : All IsNoPort refused
  pub taken : parse_broker_port typed ≡ port n
  pub in_order : inputs ≡ lines refused (line typed ∷ rest)

pub prompt_port-eq-got :
    (inputs rest : List Input) (n : ℕ)
    → (prompt_port inputs).0 ≡ got n rest
    → PortLines inputs rest n
unfolding prompt_port
prompt_port-eq-got [] rest n h = cc
prompt_port-eq-got (broken ∷ inputs) rest n h = cc
prompt_port-eq-got (line s ∷ inputs) rest n h =
    go (parse_broker_port s) refl h (prompt_port-eq-got inputs rest n)
  where
    go :
        (r : Port)
        → parse_broker_port s ≡ r
        → (elim r as (λ _. Reading ℕ × List Bytes) [
          | port n ↦ (got n inputs, port_prompt ∷ [])
          | no_port e ↦ behind (port_prompt ∷ error_line (port_message e) ∷ []) (prompt_port inputs)
        ]).0
          ≡ got n rest
        → ((prompt_port inputs).0 ≡ got n rest → PortLines inputs rest n)
        → PortLines (line s ∷ inputs) rest n
    go (port m) e h next =
        let same : inputs ≡ rest = cc in
        record {
          refused = [];
          typed = s;
          each_refused = tt;
          taken = cc;
          in_order = ap (◌∷◌ (line s)) same;
        }
    go (no_port x) e h next =
        let l = next h in
        record {
          refused = s ∷ l.refused;
          typed = l.typed;
          each_refused = ((x, e), l.each_refused);
          taken = l.taken;
          in_order = ap (◌∷◌ (line s)) l.in_order;
        }

module _ (is_ip : Bytes → Bool) where
  -- A line that is refused as host
  abbrev pub IsNoHost : Bytes → Type 0
  IsNoHost s = (e : HostError) × (normalize_broker_host is_ip s ≡ no_host e)

  -- The lines that are refused as host, and the one that is taken.
  pub record HostLines (inputs rest : List Input) (h : Bytes) : Type 0 where
    pub refused : List Bytes
    pub typed : Bytes
    pub each_refused : All IsNoHost refused
    pub taken : normalize_broker_host is_ip typed ≡ host h
    pub in_order : inputs ≡ lines refused (line typed ∷ rest)

  pub prompt_host-eq-got :
      (inputs rest : List Input) (h : Bytes)
      → (prompt_host is_ip inputs).0 ≡ got h rest
      → HostLines inputs rest h
  unfolding prompt_host
  prompt_host-eq-got [] rest n h = cc
  prompt_host-eq-got (broken ∷ inputs) rest n h = cc
  prompt_host-eq-got (line s ∷ inputs) rest n h =
      go (normalize_broker_host is_ip s) refl h (prompt_host-eq-got inputs rest n)
    where
      go :
          (r : Host)
          → normalize_broker_host is_ip s ≡ r
          → (elim r as (λ _. Reading Bytes × List Bytes) [
            | host n ↦ (got n inputs, host_prompt ∷ [])
            | no_host e ↦
                behind (host_prompt ∷ error_line (host_message e) ∷ []) (prompt_host is_ip inputs)
          ]).0
            ≡ got n rest
          → ((prompt_host is_ip inputs).0 ≡ got n rest → HostLines inputs rest n)
          → HostLines (line s ∷ inputs) rest n
      go (host m) e h next =
          let same : inputs ≡ rest = cc in
          record {
            refused = [];
            typed = s;
            each_refused = tt;
            taken = cc;
            in_order = ap (◌∷◌ (line s)) same;
          }
      go (no_host x) e h next =
          let l = next h in
          record {
            refused = s ∷ l.refused;
            typed = l.typed;
            each_refused = ((x, e), l.each_refused);
            taken = l.taken;
            in_order = ap (◌∷◌ (line s)) l.in_order;
          }
