-- ===== src/Command/Main/Kept.antt =====
-- What every run of the program keeps.
use zimaos_monitor.Base.{false, List, ◌∷◌, some, Bytes, codes, ◌≡◌, ◌≢◌, ◌⊎◌, All}
use zimaos_monitor.SelfUpdate.Host.{World}
use zimaos_monitor.Setup.Candidate.Untouched.{Untouched}
use zimaos_monitor.Command.Start.{Command, Exit, finished}
use zimaos_monitor.Command.Start.Update.{Reported}
use zimaos_monitor.Command.Service.{Settings, State}
use zimaos_monitor.Command.Service.DryRun.{IsPrinted}
use zimaos_monitor.Command.Program.Published.{IsTruthful, rounds_met}
use zimaos_monitor.Command.Main.{
  Machine, Ending, usage_shown, disconnected, updated, set_up, version_printed, unconfigured,
  served,
}

-- The program was started with this command.
abbrev IsCommand : Bytes → List Bytes → Type 0
IsCommand name args = (rest : List Bytes) × (args ≡ name ∷ rest)

module _ {F : Type 0} (m : Machine F) (path old : Bytes) where
  -- An update that fails before it starts changes nothing, and any other reports how it ended.
  abbrev pub IsUpdated : Exit → World → World → Type 0
  IsUpdated exit w w' =
      ((exit ≢ finished) × (w' ≡ w)) ⊎ Reported m.env m.version path old (exit, w')

  -- The service publishes what its rounds meet, its own installed versions and no latest one but a
  -- stable one; a dry run only prints and changes no retained message.
  abbrev pub IsServed : Settings → State → Type 0
  IsServed settings st =
      (settings.version ≡ m.version)
      × All
          (IsTruthful m.surroundings.codecs settings
            (m.surroundings.first ∷ rounds_met m.surroundings.happenings))
          st.outputs
      × ((settings.dry_run ≡ false)
          ⊎ ((st.retained ≡ m.surroundings.retained) × All IsPrinted st.outputs))

  -- What an ending says of the run, and of the machine that it leaves.
  abbrev pub IsEnd : List Bytes → World → Ending → World → Type 0
  IsEnd args w usage_shown w' = w' ≡ w
  IsEnd args w disconnected w' = w' ≡ w
  IsEnd args w (updated exit) w' = IsCommand (codes "update") args × IsUpdated exit w w'
  IsEnd args w (set_up exit) w' = IsCommand (codes "setup") args × Untouched w w'
  IsEnd args w (version_printed v) w' = (v ≡ m.version) × (w' ≡ w)
  IsEnd args w (unconfigured e) w' = w' ≡ w
  IsEnd args w (served settings st) w' = IsServed settings st × (w' ≡ w)

  -- The command is `update`, or the installed binary is what it was; and what the ending says.
  abbrev pub Kept : List Bytes → World → Ending × World → Type 0
  Kept args w (ending, w') =
      (IsCommand (codes "update") args ⊎ (w'.files path ≡ some old)) × IsEnd args w ending w'
