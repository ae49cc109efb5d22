-- ===== src/Tests/Dialogue.antt =====
-- A setup from its first prompt to its candidate file.
use zimaos_monitor.Base.{
  if◌then◌else◌, ◌≡◌, refl, true, false, List, [], ◌∷◌, ◌++◌, none, some, Bytes, codes, str_eq,
  bytes_discrete, take,
}
use zimaos_monitor.Text.{
  trim_space, split, strip_prefix, contains, contains_any_byte, one_of, skip_space, wide_space,
  wide_space_end, to_lower, lower_byte,
}
use zimaos_monitor.Setup.Input.{
  parse_broker_port, affirmative, normalize_broker_host, unbracket, check_host,
  has_blank_or_control, validate_dns_name, check_labels, scan_label, digits_and_dots,
}
use zimaos_monitor.SelfUpdate.Host.{Environment, World, ok, ◌>>=◌}
use zimaos_monitor.SelfUpdate.Release.{no_response}
use zimaos_monitor.Setup.Flow.{
  GeneratedConfig, Codec, Input, line, got, transcript, ask_answers, ask_login, ask_password,
  confirm_answers, confirm, prompt_host, prompt_port, marshal_config,
}
use zimaos_monitor.Setup.Flow.Secret.{transcript-hides_password}
use zimaos_monitor.Setup.Candidate.{run_setup, write_exclusive, fill}
use zimaos_monitor.Setup.Candidate.Untouched.{Untouched, run_setup-Untouched}
use zimaos_monitor.Setup.Candidate.Success.{IsWritten, run_setup-eq-ok}

abbrev env : Environment
env = record {
  fails = λ _. false;
  partial = λ _ content. content;
  answer = λ _ _. no_response;
  decode_release = λ _. none;
  sha256_hex = λ s. s;
  unpack = λ _. none;
  new_dir = λ _. codes "/t";
  removes = λ _ _. true;
  version_output = λ _ _. none;
  command_succeeds = λ _ _. true;
  cancelled = λ _. false;
}

abbrev pub codec : Codec
codec = record {
  tcp_uri = λ h p. h;
  marshal = λ g. some g.broker;
  unmarshal = λ s. some (record { broker = s; username = []; password = [] });
}

-- The first host is refused and asked for again.
abbrev inputs : List Input
inputs =
    line (codes "b@")
    ∷ line (codes "b.org")
    ∷ line []
    ∷ line []
    ∷ line (codes "p")
    ∷ line (codes "y")
    ∷ line (codes "Yes")
    ∷ []

abbrev path : Bytes
path = codes "/c"

abbrev world : World
world = record {
  clock = 0;
  files = λ p. if str_eq p (codes "/e") then some [] else none;
  calls = [];
}

abbrev written : World
written = (run_setup env (λ _. false) codec true inputs path world).1

setup_run : run_setup env (λ _. false) codec true inputs path world ≡ (ok tt, written)
unfolding run_setup write_exclusive fill ask_answers ask_login ask_password confirm_answers confirm
    prompt_host prompt_port marshal_config ◌>>=◌ parse_broker_port affirmative normalize_broker_host
    unbracket check_host has_blank_or_control validate_dns_name check_labels scan_label
    digits_and_dots split strip_prefix contains contains_any_byte one_of skip_space wide_space
    wide_space_end trim_space to_lower lower_byte take bytes_discrete
    zimaos_monitor.Setup.Flow.◌>>=◌
setup_run = refl

run_setup-Untouched_example :
    Untouched world (run_setup env (λ _. false) codec true inputs path world).1
run_setup-Untouched_example = run_setup-Untouched env (λ _. false) codec path true inputs world

run_setup-eq-ok_example : (true ≡ true) × IsWritten env (λ _. false) codec path inputs world written
run_setup-eq-ok_example =
    run_setup-eq-ok env (λ _. false) codec path true inputs world written tt setup_run

abbrev asked : List Input
asked = line (codes "b@") ∷ line (codes "b.org") ∷ line [] ∷ line [] ∷ []

abbrev texts : List Bytes
texts =
    codes "MQTT broker host (required): "
    ∷ codes "ERROR: MQTT broker host must not include a scheme, path, or credentials.\n"
    ∷ codes "MQTT broker host (required): "
    ∷ codes "MQTT broker port [1883]: "
    ∷ codes "MQTT username [none]: "
    ∷ []

login_run : ask_login (λ _. false) asked ≡ (got (codes "b.org", 1883, []) [], texts)
unfolding ask_login prompt_host prompt_port parse_broker_port normalize_broker_host unbracket
    check_host has_blank_or_control validate_dns_name check_labels scan_label digits_and_dots split
    strip_prefix contains contains_any_byte one_of skip_space wide_space wide_space_end trim_space
    take zimaos_monitor.Setup.Flow.◌>>=◌
login_run = refl

transcript-hides_password_example :
    transcript
      (λ _. false)
      codec
      true
      (asked ++ (line (codes "secret") ∷ line (codes "y") ∷ line (codes "y") ∷ []))
      path
    ≡ transcript
        (λ _. false)
        codec
        true
        (asked ++ (line (codes "other") ∷ line (codes "y") ∷ line (codes "y") ∷ []))
        path
transcript-hides_password_example =
    transcript-hides_password (λ _. false) codec true path asked
      (line (codes "y") ∷ line (codes "y") ∷ []) (codes "b.org", 1883, []) texts (codes "secret")
      (codes "other") login_run refl
