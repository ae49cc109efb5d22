-- ===== src/Command/Start.antt =====
-- cmd/zimaos-monitor/main.go: `main` up to the service, and the commands `setup` and `update`. The
-- flag parser is a parameter: the positional arguments that are left of a command's arguments, where
-- it does not end the program itself.
pub mod Dispatch
pub mod Update
pub mod Setup
use zimaos_monitor.Base.{
  ℕ, Bool, List, [], ◌∷◌, ◌++◌, Option, none, some, if◌then◌else◌, Bytes, codes, str_eq,
}
use zimaos_monitor.Base.Int.{pos}
use zimaos_monitor.Text.{is_empty}
use zimaos_monitor.SelfUpdate.Host.{Environment, World, Result, ok, err}
use zimaos_monitor.SelfUpdate.Apply.{ApplyOptions, UpdateError, apply}
use zimaos_monitor.Setup.Flow.{SetupError, cancelled, Input, Codec}
use zimaos_monitor.Setup.Terminal.{run_on_terminal}
use zimaos_monitor.Config.{Config, DiskConfig}
use zimaos_monitor.Config.Load.{Loaded, loaded, not_loaded, LoadError}
use zimaos_monitor.Collector.OsInfo.{zimaos_version}
use zimaos_monitor.Command.Service.{Settings}

-- `main`: the first argument names a command.
pub data Command : Type 0 where
  run_update_with run_setup_with : List Bytes → Command
  run_service : Command

unfoldable pub dispatch : List Bytes → Command
dispatch [] = run_service
dispatch (arg ∷ args) =
    if str_eq arg (codes "update")
    then run_update_with args
    else if str_eq arg (codes "setup")
    then run_setup_with args
    else run_service

-- Why the program ends with `log.Fatal`, or that it ends without.
pub data Exit : Type 0 where
  finished : Exit
  positional_arguments output_missing not_root executable_unknown : Exit
  setup_error : SetupError → Exit
  update_error : UpdateError → Exit

-- A cancelled setup is no failure.
abbrev pub report_setup : Result SetupError (Unit {0}) × World → Exit × World
report_setup (ok _, w) = (finished, w)
report_setup (err cancelled, w) = (finished, w)
report_setup (err e, w) = (setup_error e, w)

-- `-output` and the positional arguments; the terminal as for `run_on_terminal`.
unfoldable pub run_setup_command :
    Environment
    → (Bytes → Bool)
    → Codec
    → Option (Bool × Bytes)
    → Bytes
    → List Bytes
    → World
    → Exit × World
run_setup_command env is_ip codec terminal output (arg ∷ args) w = (positional_arguments, w)
run_setup_command env is_ip codec terminal output [] w =
    if is_empty output
    then (output_missing, w)
    else report_setup (run_on_terminal env is_ip codec terminal output w)

-- The options of `Apply`: the endpoint, the service and the delay are those of `set_apply_defaults`.
abbrev pub update_options : Bytes → Bytes → ApplyOptions
update_options version path = record {
  current_version = version;
  executable_path = path;
  service_name = [];
  user_agent = codes "zimaos-monitor/" ++ version;
  endpoint = [];
  health_delay = pos 0;
}

abbrev pub report_update : Result UpdateError (Unit {0}) × World → Exit × World
report_update (ok _, w) = (finished, w)
report_update (err e, w) = (update_error e, w)

-- The executable is none where its path cannot be found.
unfoldable pub run_update_command :
    Environment → Bytes → Bool → Option Bytes → List Bytes → World → Exit × World
run_update_command env version is_root executable (arg ∷ args) w = (positional_arguments, w)
run_update_command env version is_root none [] w =
    if is_root then (executable_unknown, w) else (not_root, w)
run_update_command env version is_root (some path) [] w =
    if is_root then report_update (apply env (update_options version path) w) else (not_root, w)

-- The configuration that the service runs with: `discovered` are the disks that `DiscoverDisks` finds.
abbrev pub prepare_config : Bytes → List DiskConfig → Config → Config
prepare_config version discovered cfg = record cfg {
  device = record cfg.device { sw_version = codes "zimaos-monitor " ++ version };
  disks = elim cfg.disks [ [] ↦ discovered | ◌∷◌ d disks ↦ d ∷ disks ];
}

-- What `main` does before the client: it prints the version, or ends for want of a configuration, or
-- goes on. The contents of /etc/os-release are none where it cannot be read.
pub data Prepared : Type 0 where
  version_shown : Bytes → Prepared
  no_config : LoadError → Prepared
  prepared : Settings → Prepared

unfoldable pub prepare_service :
    Bytes → Bool → Bool → Loaded → Option Bytes → List DiskConfig → ℕ → Prepared
unfolding zimaos_version
prepare_service version dry_run show_version config os_release discovered num_cores =
    if show_version then version_shown version else elim config [
      | not_loaded e ↦ no_config e
      | loaded cfg ↦ prepared (record {
        cfg = prepare_config version discovered cfg;
        num_cores = num_cores;
        dry_run = dry_run;
        zimaos_version = zimaos_version os_release;
        version = version;
      })
    ]
