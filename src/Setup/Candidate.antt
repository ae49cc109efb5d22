-- ===== src/Setup/Candidate.antt =====
-- internal/setup/setup.go: `WriteExclusive` and `Runner.Run`, over the files of a machine on which
-- every system call may fail.
pub mod Untouched
pub mod Success
use zimaos_monitor.Base.{Bool, true, false, List, [], ◌∷◌, if◌then◌else◌, Bytes}
use zimaos_monitor.Text.{is_empty}
use zimaos_monitor.SelfUpdate.Host.{
  Environment, World, Result, ok, err, Io, ◌>>=◌, ◌>>◌, raise, attempt, create, write, remove,
  on_error,
}
use zimaos_monitor.Setup.Flow.{
  SetupError, output_required, not_terminal, write_failed, Input, Reading, got, stopped, Answers,
  ask_answers, Codec, marshal_config,
}

module _ (env : Environment) where
  -- `os.Remove`, whose result is dropped
  abbrev pub discard : Bytes → World → World
  discard path w = (remove env path tt tt w).1

  -- `Chmod`, `Write`, `Sync` and `Close` of the new file
  unfoldable pub fill : Bytes → Bytes → Io SetupError (Unit {0})
  unfolding ◌>>=◌ attempt write
  fill path contents = do
    attempt env write_failed
    write env path contents write_failed
    attempt env write_failed
    attempt env write_failed

  -- The deferred function removes the file unless all went well.
  unfoldable pub write_exclusive : Bytes → Bytes → Io SetupError (Unit {0})
  unfolding ◌>>=◌ create remove on_error fill
  write_exclusive path contents = do
    create env path write_failed
    on_error (fill path contents) λ e w. (err e, discard path w)

  abbrev pub write_config : Bytes → Result SetupError Bytes → Io SetupError (Unit {0})
  write_config path (err e) = raise e
  write_config path (ok contents) = write_exclusive path contents

  abbrev pub write_answers : Codec → Bytes → Reading Answers → Io SetupError (Unit {0})
  write_answers codec path (stopped e) = raise e
  write_answers codec path (got answers rest) = write_config path (marshal_config codec answers)

  -- `Runner.Run` on a terminal, if it is one, that gives these inputs
  unfoldable pub run_setup :
      (Bytes → Bool) → Codec → Bool → List Input → Bytes → Io SetupError (Unit {0})
  run_setup is_ip codec terminal inputs path =
      if is_empty path
      then raise output_required
      else if terminal
      then write_answers codec path (ask_answers is_ip codec inputs).0
      else raise not_terminal
