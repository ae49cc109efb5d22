-- ===== src/Setup/Terminal.antt =====
-- internal/setup/setup.go: `Run` and the reads of `terminalConsole`, on the bytes that are typed
-- until the terminal is closed. The echo and the signals are not modelled.
use zimaos_monitor.Base.{
  Bool, List, [], ◌∷◌, ◌++◌, map, Option, none, some, Bytes, codes, ◌≡◌, ◌∙◌, refl, ap, All,
  All-append,
}
use zimaos_monitor.Text.{split, split-join, join, Lacks, trim_suffix}
use zimaos_monitor.SelfUpdate.Host.{Environment, Io, raise}
use zimaos_monitor.Setup.Flow.{SetupError, not_terminal, Input, line, Codec}
use zimaos_monitor.Setup.Candidate.{run_setup}

-- The line without the `\r` of its end
abbrev pub typed_line : Bytes → Input
typed_line s = line (trim_suffix s (codes "\r"))

-- The parts that a line feed ends; what stands behind the last one ends the input.
unfoldable pub ended_lines : List Bytes → List Input
ended_lines [] = []
ended_lines (last ∷ []) = []
ended_lines (s ∷ next ∷ rest) = typed_line s ∷ ended_lines (next ∷ rest)

-- What `ReadLine` and `ReadSecret` give one after another
unfoldable pub terminal_inputs : Bytes → List Input
unfolding ended_lines split
terminal_inputs typed = ended_lines (split b'\n' typed)

-- The terminal is none where it cannot be opened; otherwise it is a terminal or not.
unfoldable pub run_on_terminal :
    Environment → (Bytes → Bool) → Codec → Option (Bool × Bytes) → Bytes → Io SetupError (Unit {0})
run_on_terminal env is_ip codec none path = raise not_terminal
run_on_terminal env is_ip codec (some (terminal, typed)) path =
    run_setup env is_ip codec terminal (terminal_inputs typed) path

ended_lines-append :
    (ls : List Bytes) (last : Bytes) → ended_lines (ls ++ (last ∷ [])) ≡ map typed_line ls
unfolding ended_lines
ended_lines-append [] last = refl
ended_lines-append (s ∷ []) last = refl
ended_lines-append (s ∷ next ∷ rest) last =
    ap (◌∷◌ (typed_line s)) (ended_lines-append (next ∷ rest) last)

-- Lines without a line feed inside are read as they were typed, less a `\r` at the end; what is typed
-- behind the last line feed is not read.
pub terminal_inputs-join :
    (s : Bytes) (ls : List Bytes) (last : Bytes)
    → All (Lacks b'\n') (s ∷ ls)
    → Lacks b'\n' last
    → terminal_inputs (join b'\n' ((s ∷ ls) ++ (last ∷ []))) ≡ map typed_line (s ∷ ls)
unfolding terminal_inputs
terminal_inputs-join s ls last plain plain_last =
    ap ended_lines (
      split-join b'\n' s (ls ++ (last ∷ []))
        (All-append (Lacks b'\n') (s ∷ ls) (last ∷ []) plain (plain_last, tt)))
    ∙ ended_lines-append (s ∷ ls) last
