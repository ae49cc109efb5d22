-- ===== src/Tests/Programs.antt =====
-- The whole program: a service with its two checkers, and an update.
use zimaos_monitor.Base.{ℕ, true, false, List, [], ◌∷◌, Option, none, some, Bytes, codes}
use zimaos_monitor.SelfUpdate.Release.{GithubRelease, response}
use zimaos_monitor.Config.Load.{decoded}
use zimaos_monitor.Collector.Upstream.{UpstreamRelease}
use zimaos_monitor.Command.Program.{
  Answer, upstream_answer, monitor_answer, Happening, answered, round, interrupted,
}
use zimaos_monitor.Command.Main.{Machine}
use zimaos_monitor.Command.Main.Kept.{Kept}
use zimaos_monitor.Tests.Updates
use zimaos_monitor.Tests.Announce.{config, store, broker}
use zimaos_monitor.Tests.Service.{codecs, moment}
use zimaos_monitor.Tests.Dialogue.{codec}

abbrev decode_upstream : Bytes → Option (List UpstreamRelease)
decode_upstream _ = some (
    record { tag_name = codes "1.6.0-beta"; html_url = [] }
    ∷ record { tag_name = codes "1.5.5"; html_url = codes "u" }
    ∷ [])

abbrev decode_release : Bytes → Option GithubRelease
decode_release _ = some Updates.published

abbrev early : List Answer
early = upstream_answer (response 200 none []) 1 ∷ []

abbrev happenings : List (Happening ℕ)
happenings =
    round moment
    ∷ answered (monitor_answer (response 200 none []))
    ∷ round moment
    ∷ interrupted
    ∷ []

abbrev machine : Machine ℕ
machine = record {
  version = codes "1.1.9";
  parse_flags = λ _. some (record { config = codes "/c"; dry_run = false; show_version = false });
  parse_update = λ args. some args;
  parse_setup = λ args. none;
  env = Updates.env;
  is_root = true;
  executable = some (codes "/z");
  is_ip = λ _. false;
  codec = codec;
  terminal = none;
  surroundings = record {
    open_config = λ _. decoded config;
    read_file = λ _. none;
    exists = λ _. false;
    hwmon_stars = [];
    started_at = 0;
    source = record { hostname = none; read_file = λ _. none };
    digest_base32 = λ s. s;
    partitions = none;
    usage = λ _. none;
    num_cores = 1;
    codecs = codecs;
    decode_upstream = decode_upstream;
    decode_release = decode_release;
    connects = true;
    broker = broker;
    retained = store;
    early = early;
    first = moment;
    happenings = happenings;
  };
}
