-- ===== src/Setup/Candidate/Success.antt =====
-- What a setup that succeeds has written.
use mathlib.Core.Path.{subst}
use zimaos_monitor.Setup.Flow.{generated, validate_failed, serialize_failed}
use zimaos_monitor.Setup.Flow.Confirmed.{IsTyped, ask_answers-eq-got}
use zimaos_monitor.Base.{
  ◌≡◌, ◌≢◌, refl, sym, ap, ◌∙◌, arith, Bool, true, List, [], Option, none, some, Bytes,
  if◌then◌else◌,
}
use zimaos_monitor.Text.{is_empty}
use zimaos_monitor.SelfUpdate.Host.{Environment, World, Result, ok, err}
use zimaos_monitor.Setup.Flow.{
  SetupError, Input, Reading, got, stopped, Answers, ask_answers, Codec, GeneratedConfig,
  marshal_config,
}
use zimaos_monitor.Setup.Candidate.{write_exclusive, run_setup, write_answers, write_config}
use zimaos_monitor.Setup.Candidate.Untouched.{Written, write_exclusive_lem}

module _ (env : Environment) (is_ip : Bytes → Bool) (codec : Codec) (path : Bytes) where
  -- What a setup that succeeds has written: the answers that were typed, each at its place, and confirmed.
  pub record IsWritten (inputs : List Input) (w w' : World) : Type 0 where
    pub answers : Answers
    pub typed : IsTyped is_ip inputs answers
    pub contents : Bytes
    pub encoded : codec.marshal (generated codec answers) ≡ some contents
    pub validation : GeneratedConfig
    pub decoded : codec.unmarshal contents ≡ some validation
    pub with_broker : validation.broker ≢ []
    pub absent : w.files path ≡ none
    pub there : w'.files path ≡ some contents

  marshal_config-eq-ok :
      (answers : Answers) (contents : Bytes)
      → marshal_config codec answers ≡ ok contents
      → (codec.marshal (generated codec answers) ≡ some contents)
        × (validation : GeneratedConfig) × (codec.unmarshal contents ≡ some validation)
        × (validation.broker ≢ [])
  unfolding marshal_config
  marshal_config-eq-ok answers contents h = encoded (codec.marshal (generated codec answers)) refl h
    where
      decoded :
          (x : Bytes) (r : Option GeneratedConfig)
          → codec.unmarshal x ≡ r
          → ◌≡◌ {A = Result SetupError Bytes}
              (elim r [
                | none ↦ err validate_failed
                | some v ↦ if is_empty v.broker then err validate_failed else ok x
              ])
              (ok contents)
          → (x ≡ contents)
            × (validation : GeneratedConfig) × (codec.unmarshal contents ≡ some validation)
            × (validation.broker ≢ [])
      decoded x none e k = cc
      decoded x (some v) e k =
          let (same, broker) = parts in (same, v, ap codec.unmarshal (sym same) ∙ e, broker)
        where
          parts : (x ≡ contents) × (v.broker ≢ [])
          parts = ground arith

      encoded :
          (r : Option Bytes)
          → codec.marshal (generated codec answers) ≡ r
          → ◌≡◌ {A = Result SetupError Bytes}
              (elim r [
                | none ↦ err serialize_failed
                | some x ↦ elim (codec.unmarshal x) [
                  | none ↦ err validate_failed
                  | some v ↦ if is_empty v.broker then err validate_failed else ok x
                ]
              ])
              (ok contents)
          → (codec.marshal (generated codec answers) ≡ some contents)
            × (validation : GeneratedConfig) × (codec.unmarshal contents ≡ some validation)
            × (validation.broker ≢ [])
      encoded none e k = cc
      encoded (some x) e k =
          let (same, v, d, b) = decoded x (codec.unmarshal x) refl k in (e ∙ ap some same, v, d, b)

  -- A setup that succeeds ran on a terminal, where the lines were, in this order: hosts that are refused
  -- and the one that is taken, ports that are refused and the one that is taken, the username, the
  -- password, an affirmative line if there is a password without a username, and an affirmative line.
  -- The candidate, which was not there before, has the contents that these answers are encoded to,
  -- which decode to a configuration with a broker.
  pub run_setup-eq-ok :
      (terminal : Bool) (inputs : List Input) (w w' : World) (u : Unit {0})
      → run_setup env is_ip codec terminal inputs path w ≡ (ok u, w')
      → (terminal ≡ true) × IsWritten inputs w w'
  unfolding run_setup
  run_setup-eq-ok terminal inputs w w' u h =
      (tested.0, asked (ask_answers is_ip codec inputs).0 refl tested.1)
    where
      tested :
          (terminal ≡ true)
          × ◌≡◌ {A = Result SetupError (Unit {0}) × World}
              (write_answers env codec path (ask_answers is_ip codec inputs).0 w)
              (ok u, w')
      tested = ground arith

      written :
          (contents : Bytes)
          → ◌≡◌ {A = Result SetupError (Unit {0}) × World}
              (write_exclusive env path contents w)
              (ok u, w')
          → (w.files path ≡ none) × (w'.files path ≡ some contents)
      written contents k =
          let (absent, there, _) : Written path contents w (ok u) w' =
            subst (λ x. Written path contents w x.0 x.1) k
              (write_exclusive_lem env path contents w) in
          (absent, there)

      made :
          (answers : Answers) (rest : List Input) (m : Result SetupError Bytes)
          → (ask_answers is_ip codec inputs).0 ≡ got answers rest
          → marshal_config codec answers ≡ m
          → ◌≡◌ {A = Result SetupError (Unit {0}) × World} (write_config env path m w) (ok u, w')
          → IsWritten inputs w w'
      made answers rest (err x) asks e k = cc
      made answers rest (ok contents) asks e k =
          let (encoded, validation, decoded, broker) = marshal_config-eq-ok answers contents e in
          let (absent, there) = written contents k in
          record {
            answers = answers;
            typed = ask_answers-eq-got is_ip codec inputs rest answers asks;
            contents = contents;
            encoded = encoded;
            validation = validation;
            decoded = decoded;
            with_broker = broker;
            absent = absent;
            there = there;
          }

      asked :
          (r : Reading Answers)
          → (ask_answers is_ip codec inputs).0 ≡ r
          → ◌≡◌ {A = Result SetupError (Unit {0}) × World}
              (write_answers env codec path r w)
              (ok u, w')
          → IsWritten inputs w w'
      asked (stopped e) asks k = cc
      asked (got answers rest) asks k = made answers rest (marshal_config codec answers) asks refl k
