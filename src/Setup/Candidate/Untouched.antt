-- ===== src/Setup/Candidate/Untouched.antt =====
-- The setup changes no file that is there.
use zimaos_monitor.Base.{
  bytes_discrete, ◌≡◌, ◌≢◌, ◌⊎◌, inl, inr, sym, ap, ◌∙◌, arith, Bool, true, false, List, [], ◌∷◌,
  none, some, Bytes, if◌then◌else◌,
}
use zimaos_monitor.Text.{is_empty}
use zimaos_monitor.SelfUpdate.Host.{Environment, World, Result, ok, err, raise}
use zimaos_monitor.Setup.Flow.{
  SetupError, output_required, not_terminal, write_failed, Input, Reading, got, stopped, Answers,
  ask_answers, Codec, marshal_config,
}
use zimaos_monitor.Setup.Candidate.{write_exclusive, run_setup, write_answers, write_config}

-- What comes of the new file: it was not there and has the contents, or nothing that was there
-- has changed.
abbrev pub Written : Bytes → Bytes → World → Result SetupError (Unit {0}) → World → Type 0
Written path contents w (ok _) w' =
    (w.files path ≡ none)
    × (w'.files path ≡ some contents)
    × ((p : Bytes) → p ≢ path → w'.files p ≡ w.files p)
Written path contents w (err write_failed) w' =
    ((p : Bytes) → p ≢ path → w'.files p ≡ w.files p)
    × ((w.files path ≡ none) ⊎ (w'.files path ≡ w.files path))
Written path contents w (err _) w' = ⊥

pub write_exclusive_lem :
    (env : Environment) (path contents : Bytes) (w : World)
    → let (r, w') = write_exclusive env path contents w in Written path contents w r w'
unfolding write_exclusive
write_exclusive_lem env path contents w = ground arith

-- No file that was there has changed.
abbrev pub Untouched : World → World → Type 0
Untouched w w' = (p contents : Bytes) → w.files p ≡ some contents → w'.files p ≡ some contents

Untouched-Written :
    (path contents : Bytes) (w w' : World) (r : Result SetupError (Unit {0}))
    → Written path contents w r w'
    → Untouched w w'
Untouched-Written path contents w w' (ok _) (absent, there, others) p x h =
    elim (bytes_discrete p path) [
      | yes same ↦ absurd (cc (absent, h, ap w.files same))
      | no differ ↦ others p differ ∙ h
    ]
Untouched-Written path contents w w' (err write_failed) (others, kept) p x h =
    elim (bytes_discrete p path) [
      | yes same ↦ elim kept [
        | inl absent ↦ absurd (cc (absent, h, ap w.files same))
        | inr k ↦ ap w'.files same ∙ k ∙ sym (ap w.files same) ∙ h
      ]
      | no differ ↦ others p differ ∙ h
    ]
Untouched-Written path contents w w' (err _) h p x i = absurd h

module _ (env : Environment) (is_ip : Bytes → Bool) (codec : Codec) (path : Bytes) where
  -- Whatever is typed and whatever fails, the setup changes no file that is there.
  pub run_setup-Untouched :
      (terminal : Bool) (inputs : List Input) (w : World)
      → Untouched w (run_setup env is_ip codec terminal inputs path w).1
  unfolding run_setup
  run_setup-Untouched terminal inputs w = go path terminal (ask_answers is_ip codec inputs).0
    where
      written :
          (path : Bytes) (m : Result SetupError Bytes) → Untouched w (write_config env path m w).1
      written path (ok contents) =
          Untouched-Written path contents w _ _ (write_exclusive_lem env path contents w)
      written path (err e) = λ p x h. h

      asked :
          (path : Bytes) (r : Reading Answers) → Untouched w (write_answers env codec path r w).1
      asked path (got answers rest) = written path (marshal_config codec answers)
      asked path (stopped e) = λ p x h. h

      go :
          (path : Bytes) (terminal : Bool) (r : Reading Answers)
          → Untouched w
              ((if is_empty path
                  then raise output_required
                  else if terminal
                  then write_answers env codec path r
                  else raise not_terminal)
                w).1
      go [] terminal r = λ p x h. h
      go (c ∷ s) true r = asked (c ∷ s) r
      go (c ∷ s) false r = λ p x h. h
