-- ===== src/Tests/Service.antt =====
-- A service and a dry run of the device `d`, with numbers for floating point.
use zimaos_monitor.Base.{
  ℕ, ◌+◌, ◌/◌, ◌%◌, ◌≡◌, ◌↔◌, refl, true, false, List, [], ◌∷◌, none, some, codes, ltb, All, length,
}
use zimaos_monitor.Mqtt.Topic.Parse.{topic_of}
use zimaos_monitor.Mqtt.Discovery.Publish.Publication.{Advertised}
use zimaos_monitor.Collector.Cpu.{CpuCollector, Floats}
use zimaos_monitor.Command.Service.{
  Settings, Codecs, Moment, Event, tick, signal, State, open_service, serve,
}
use zimaos_monitor.Command.Service.Rounds.{announcements, encoded_rounds, serve-announcements}
use zimaos_monitor.Command.Service.DryRun.{IsPrinted, serve-dry_run}
use zimaos_monitor.Command.Service.Steps.{blank}
use zimaos_monitor.Command.Service.Topics.{IsAddressed, serve-IsAddressed}
use zimaos_monitor.Command.Service.Advertises.{wanted, serve-exact}
use zimaos_monitor.Tests.Announce.{
  config, address, device, store, broker, encoder, decode_probe, json, honest, complete, is_address,
  filter_run, can_encode,
}

abbrev floats : Floats ℕ
floats = record {
  zero_float = 0;
  thousandths = λ v. v / 1000;
  millionths = λ n. n / 1_000_000;
  quotient = λ a b. a / b;
  seconds = λ n. n / 1_000_000_000;
  is_positive = ltb 0;
}

abbrev pub codecs : Codecs ℕ
codecs = record {
  floats = floats;
  gigabytes = λ n. n / 1_000_000_000;
  encode_metrics = λ m. some (2 ∷ []);
  encode_zimaos = λ i. some (3 ∷ []);
  encode_monitor = λ i. none;
  encoder = encoder;
  decode_probe = decode_probe;
}

abbrev pub settings : Settings
settings = record {
  cfg = config;
  num_cores = 1;
  dry_run = false;
  zimaos_version = codes "1.5.4";
  version = codes "v1.2.3";
}

abbrev dry_settings : Settings
dry_settings = record settings { dry_run = true }

abbrev pub cpu : CpuCollector
cpu = record { rapl_path = []; hwmon_temp_path = []; last_energy = 0; last_time = none }

abbrev pub moment : Moment ℕ
moment = record {
  sample = record {
    files = λ _. none;
    measured_at = 0;
    stored_at = 0;
    total_percent = some (7 ∷ []);
    core_percents = some (7 ∷ []);
  };
  memory = none;
  load = some (1, 2, 3);
  uptime = 60;
  usage = λ _. some (record { total = 4; used = 1; free = 3; used_percent = 25 });
  zimaos_release = (codes "1.5.5", []);
  monitor_release = ([], []);
  broker = broker;
}

abbrev events : List (Event ℕ)
events = tick moment ∷ signal ∷ tick moment ∷ []

serve-exact_example :
    (st : State) × (serve codecs settings cpu true broker store moment events ≡ some st)
    × (Advertised decode_probe device (topic_of address) st.retained
        ↔ (wanted settings (topic_of address) ≡ true))
serve-exact_example =
    serve-exact codecs settings json broker store (codes "homeassistant/+/d/+/config") refl
      can_encode honest complete (λ _ _. refl) filter_run cpu moment events address is_address refl

serve-announcements_example :
    (st : State) × (serve codecs settings cpu true broker store moment events ≡ some st)
    × (announcements st.outputs
        ≡ 1
          + encoded_rounds codecs settings
              (open_service codecs settings cpu broker store)
              (tick moment ∷ events)
            / 10)
    × (st.counter
        ≡ encoded_rounds codecs settings
            (open_service codecs settings cpu broker store)
            (tick moment ∷ events)
          % 10)
serve-announcements_example =
    serve-announcements codecs settings refl cpu broker store moment events

serve-dry_run_example :
    (st : State) × (serve codecs dry_settings cpu false broker store moment events ≡ some st)
    × (st.retained ≡ store)
    × All IsPrinted st.outputs
    × (length st.outputs
        ≡ encoded_rounds codecs dry_settings (blank cpu store) (tick moment ∷ events))
serve-dry_run_example = serve-dry_run codecs dry_settings store refl cpu false broker moment events

serve-IsAddressed_example :
    (st : State) × (serve codecs settings cpu true broker store moment events ≡ some st)
    × All (IsAddressed codecs settings) st.outputs
serve-IsAddressed_example = serve-IsAddressed codecs settings cpu broker store moment events
