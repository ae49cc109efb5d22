-- ===== src/Command/Main.antt =====
-- cmd/zimaos-monitor/main.go: `main`, from the arguments of the program to its end. What the program
-- meets is a parameter: a flag parser is a function to what it reads, none where it ends the program.
-- The result has how the program ends and the machine that it leaves.
pub mod Kept
use zimaos_monitor.Base.{ℕ, Bool, List, Option, none, some, Bytes, codes}
use zimaos_monitor.SelfUpdate.Host.{Environment, World}
use zimaos_monitor.SelfUpdate.Release.{GithubRelease}
use zimaos_monitor.Setup.Flow.{Codec}
use zimaos_monitor.Config.Identity.{IdentitySource}
use zimaos_monitor.Config.Load.{ConfigFile, LoadError, Loaded, load_with_identity_source}
use zimaos_monitor.Mqtt.Client.{Retained, Broker}
use zimaos_monitor.Collector.Upstream.{UpstreamRelease}
use zimaos_monitor.Collector.Cpu.{CpuCollector, new_cpu_collector}
use zimaos_monitor.Collector.Disk.{Usage, Partition, discover_disks}
use zimaos_monitor.Command.Start.{
  run_update_with, run_setup_with, run_service, Command, dispatch, Exit, run_setup_command,
  run_update_command, Prepared, version_shown, no_config, prepared, prepare_service,
}
use zimaos_monitor.Command.Service.{Settings, Codecs, Moment, State}
use zimaos_monitor.Command.Program.{Answer, Happening, run_with_checkers}

-- The flags of the service
pub record Flags : Type 0 where
  pub config : Bytes
  pub dry_run : Bool
  pub show_version : Bool

-- What the service meets: the files, the identity of the machine, its disks and cores, the broker,
-- and what happens while it runs.
pub record Surroundings (F : Type 0) : Type 0 where
  pub open_config : Bytes → ConfigFile
  pub read_file : Bytes → Option Bytes
  pub exists : Bytes → Bool
  pub hwmon_stars : List Bytes
  pub started_at : ℕ
  pub source : IdentitySource
  pub digest_base32 : Bytes → Bytes
  pub partitions : Option (List Partition)
  pub usage : Bytes → Option (Usage F)
  pub num_cores : ℕ
  pub codecs : Codecs F
  pub decode_upstream : Bytes → Option (List UpstreamRelease)
  pub decode_release : Bytes → Option GithubRelease
  pub connects : Bool
  pub broker : Broker
  pub retained : Retained
  pub early : List Answer
  pub first : Moment F
  pub happenings : List (Happening F)

-- What the program meets, whichever command it runs. `setup` reads `-output` and what is left.
pub record Machine (F : Type 0) : Type 0 where
  pub version : Bytes
  pub parse_flags : List Bytes → Option Flags
  pub parse_update : List Bytes → Option (List Bytes)
  pub parse_setup : List Bytes → Option (Bytes × List Bytes)
  pub env : Environment
  pub is_root : Bool
  pub executable : Option Bytes
  pub is_ip : Bytes → Bool
  pub codec : Codec
  pub terminal : Option (Bool × Bytes)
  pub surroundings : Surroundings F

-- How the program ends.
pub data Ending : Type 0 where
  usage_shown disconnected : Ending
  updated set_up : Exit → Ending
  version_printed : Bytes → Ending
  unconfigured : LoadError → Ending
  served : Settings → State → Ending

abbrev pub ended : Settings → Option State → Ending
ended settings none = disconnected
ended settings (some st) = served settings st

module _ {F : Type 0} where
  -- `config.Load`
  abbrev pub load : Surroundings F → Bytes → Loaded
  load s path =
      load_with_identity_source s.digest_base32 s.read_file (some s.source) (s.open_config path)

  -- `main` from the checkers on
  abbrev pub start_service : Surroundings F → Prepared → Ending
  start_service s (version_shown v) = version_printed v
  start_service s (no_config e) = unconfigured e
  start_service s (prepared settings) = ended settings (
      run_with_checkers s.decode_upstream s.decode_release s.codecs settings
        (new_cpu_collector s.read_file s.exists s.hwmon_stars s.started_at) s.connects s.broker
        s.retained s.early s.first s.happenings)

  abbrev pub main_service : Bytes → Surroundings F → Flags → Ending
  main_service version s flags = start_service s (
      prepare_service version flags.dry_run flags.show_version (load s flags.config)
        (s.read_file (codes "/etc/os-release")) (discover_disks s.usage s.partitions) s.num_cores)

  -- The service writes no file and starts no command.
  abbrev pub main_command : Machine F → List Bytes → Command → World → Ending × World
  main_command m args (run_update_with rest) w = elim (m.parse_update rest) [
    | none ↦ (usage_shown, w)
    | some left ↦
        let (exit, w') = run_update_command m.env m.version m.is_root m.executable left w in
        (updated exit, w')
  ]
  main_command m args (run_setup_with rest) w = elim (m.parse_setup rest) [
    | none ↦ (usage_shown, w)
    | some (output, left) ↦
        let (exit, w') = run_setup_command m.env m.is_ip m.codec m.terminal output left w in
        (set_up exit, w')
  ]
  main_command m args run_service w = elim (m.parse_flags args) [
    | none ↦ (usage_shown, w)
    | some flags ↦ (main_service m.version m.surroundings flags, w)
  ]

  unfoldable pub main : Machine F → List Bytes → World → Ending × World
  unfolding dispatch
  main m args w = main_command m args (dispatch args) w
