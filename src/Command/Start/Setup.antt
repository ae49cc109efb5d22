-- ===== src/Command/Start/Setup.antt =====
-- What the command `setup` leaves of the files.
use zimaos_monitor.Base.{Bool, List, [], ◌∷◌, Option, none, some, Bytes, ◌≡◌, refl}
use zimaos_monitor.SelfUpdate.Host.{Environment, World, Result, ok, err}
use zimaos_monitor.Setup.Flow.{
  SetupError, cancelled, output_required, not_terminal, input_failed, serialize_failed,
  validate_failed, write_failed, Codec,
}
use zimaos_monitor.Setup.Terminal.{run_on_terminal, terminal_inputs}
use zimaos_monitor.Setup.Candidate.Untouched.{Untouched, run_setup-Untouched}
use zimaos_monitor.Command.Start.{report_setup, run_setup_command}

report_setup-world : (r : Result SetupError (Unit {0})) (w : World) → (report_setup (r, w)).1 ≡ w
report_setup-world (ok _) w = refl
report_setup-world (err cancelled) w = refl
report_setup-world (err output_required) w = refl
report_setup-world (err not_terminal) w = refl
report_setup-world (err input_failed) w = refl
report_setup-world (err serialize_failed) w = refl
report_setup-world (err validate_failed) w = refl
report_setup-world (err write_failed) w = refl

module _ (env : Environment) (is_ip : Bytes → Bool) (codec : Codec) where
  run_on_terminal-Untouched :
      (terminal : Option (Bool × Bytes)) (path : Bytes) (w : World)
      → Untouched w (run_on_terminal env is_ip codec terminal path w).1
  unfolding run_on_terminal
  run_on_terminal-Untouched none path w = λ p x h. h
  run_on_terminal-Untouched (some (is_terminal, typed)) path w =
      run_setup-Untouched env is_ip codec path is_terminal (terminal_inputs typed) w

  -- Whatever is typed and whatever fails, the command `setup` changes no file that is there.
  pub run_setup_command-Untouched :
      (terminal : Option (Bool × Bytes)) (output : Bytes) (args : List Bytes) (w : World)
      → Untouched w (run_setup_command env is_ip codec terminal output args w).1
  unfolding run_setup_command
  run_setup_command-Untouched terminal output (arg ∷ args) w = λ p x h. h
  run_setup_command-Untouched terminal [] [] w = λ p x h. h
  run_setup_command-Untouched terminal (c ∷ output) [] w =
      rw
        (report_setup-world (run_on_terminal env is_ip codec terminal (c ∷ output) w).0
          (run_on_terminal env is_ip codec terminal (c ∷ output) w).1)
        (run_on_terminal-Untouched terminal (c ∷ output) w)
