-- ===== src/Setup/Flow.antt =====
-- internal/setup/setup.go: the dialogue of `Runner.Run`, with what it prints, and `marshalConfig`.
-- Printing does not fail.
pub mod Reads
pub mod Prompts
pub mod Confirmed
pub mod Prefix
pub mod Secret
use zimaos_monitor.Base.{
  ℕ, Bool, true, false, not, ◌&&◌, List, [], ◌∷◌, ◌++◌, Option, none, some, if◌then◌else◌, Bytes,
  codes,
}
use zimaos_monitor.Text.{is_empty, format}
use zimaos_monitor.SelfUpdate.Host.{Result, ok, err}
use zimaos_monitor.Setup.Input.{
  Host, host, no_host, host_message, port_message, Port, port, no_port, normalize_broker_host,
  parse_broker_port, affirmative,
}

pub record Answers : Type 0 where
  pub broker_host : Bytes
  pub broker_port : ℕ
  pub username : Bytes
  pub password : Bytes
  pub confirmed : Bool

-- `MQTTConfig` of the generated configuration
pub record GeneratedConfig : Type 0 where
  pub broker : Bytes
  pub username : Bytes
  pub password : Bytes

pub data SetupError : Type 0 where
  output_required not_terminal cancelled input_failed : SetupError
  serialize_failed validate_failed write_failed : SetupError

-- What one read of the terminal gives; behind the last, the input ends.
pub data Input : Type 0 where
  line : Bytes → Input
  broken : Input

pub data Reading (A : Type 0) : Type 0 where
  got : A → List Input → Reading A
  stopped : SetupError → Reading A

-- What comes of the inputs, and the texts that are printed, in their order.
abbrev pub Dialogue : Type 0 → Type 0
Dialogue A = List Input → Reading A × List Bytes

abbrev pub go_on :
    {A B : Type 0} → Reading A × List Bytes → (A → Dialogue B) → Reading B × List Bytes
go_on (got a rest, out) f = let (r, more) = f a rest in (r, out ++ more)
go_on (stopped e, out) f = (stopped e, out)

infixl 5 ◌>>=◌
unfoldable pub ◌>>=◌ : {A B : Type 0} → Dialogue A → (A → Dialogue B) → Dialogue B
◌>>=◌ m f inputs = go_on (m inputs) f

abbrev pub answer : {A : Type 0} → A → Dialogue A
answer a inputs = (got a inputs, [])

-- A read behind what has been printed, with `inputError`
abbrev pub read_behind : List Bytes → Dialogue Bytes
read_behind out [] = (stopped cancelled, out)
read_behind out (line s ∷ rest) = (got s rest, out)
read_behind out (broken ∷ rest) = (stopped input_failed, out)

-- `ReadLine` of a prompt
abbrev pub read_line : Bytes → Dialogue Bytes
read_line prompt = read_behind (prompt ∷ [])

-- `ReadSecret` of a prompt: the input has no echo, so a line feed follows it.
abbrev pub read_secret : Bytes → Dialogue Bytes
read_secret prompt = read_behind (prompt ∷ codes "\n" ∷ [])

-- `Printf`
abbrev pub print : List Bytes → Dialogue (Unit {0})
print out inputs = (got tt inputs, out)

-- `!affirmative(…)` ends the setup.
abbrev pub insist : Bytes → Dialogue (Unit {0})
insist s inputs = (if not (affirmative s) then stopped cancelled else got tt inputs, [])

-- A text in front of what is printed
abbrev pub behind : {A : Type 0} → List Bytes → Reading A × List Bytes → Reading A × List Bytes
behind out (r, more) = (r, out ++ more)

-- `Printf("ERROR: %v.\n", err)`
abbrev pub error_line : Bytes → Bytes
error_line message = codes "ERROR: " ++ (message ++ codes ".\n")

abbrev pub port_prompt : Bytes
port_prompt = codes "MQTT broker port [1883]: "

-- `promptPort`
unfoldable pub prompt_port : Dialogue ℕ
prompt_port [] = (stopped cancelled, port_prompt ∷ [])
prompt_port (broken ∷ rest) = (stopped input_failed, port_prompt ∷ [])
prompt_port (line s ∷ rest) = elim (parse_broker_port s) [
  | port n ↦ (got n rest, port_prompt ∷ [])
  | no_port e ↦ behind (port_prompt ∷ error_line (port_message e) ∷ []) (prompt_port rest)
]

-- What the setup uses of other packages: the URI of a host and a port by `net.JoinHostPort` and
-- `net/url`, and the YAML encoder and decoder.
pub record Codec : Type 0 where
  pub tcp_uri : Bytes → Bytes → Bytes
  pub marshal : GeneratedConfig → Option Bytes
  pub unmarshal : Bytes → Option GeneratedConfig

-- `brokerURI`
abbrev pub broker_uri : Codec → Answers → Bytes
broker_uri codec answers = codec.tcp_uri answers.broker_host (format answers.broker_port)

-- The texts of `printSummary`
unfoldable pub summary : Codec → Answers → List Bytes
summary codec answers =
    codes "\nConfiguration summary:\n"
    ∷ (codes "  Broker: " ++ (broker_uri codec answers ++ codes "\n"))
    ∷ (codes "  Username: "
        ++ ((if is_empty answers.username then codes "not configured" else answers.username)
            ++ codes "\n"))
    ∷ (codes "  Password: "
        ++ ((if is_empty answers.password then codes "not configured" else codes "configured")
            ++ codes "\n"))
    ∷ codes "  Client and device IDs: derived per machine at startup\n"
    ∷ codes "  Publish interval: 30s\n"
    ∷ codes "  Device and disks: auto-detected\n"
    ∷ codes "  Update checks: enabled (6h intervals)\n\n"
    ∷ []

abbrev pub host_prompt : Bytes
host_prompt = codes "MQTT broker host (required): "

module _ (is_ip : Bytes → Bool) where
  -- `promptHost`
  unfoldable pub prompt_host : Dialogue Bytes
  prompt_host [] = (stopped cancelled, host_prompt ∷ [])
  prompt_host (broken ∷ rest) = (stopped input_failed, host_prompt ∷ [])
  prompt_host (line s ∷ rest) = elim (normalize_broker_host is_ip s) [
    | host h ↦ (got h rest, host_prompt ∷ [])
    | no_host e ↦ behind (host_prompt ∷ error_line (host_message e) ∷ []) (prompt_host rest)
  ]

  -- `Run` up to the username
  unfoldable pub ask_login : Dialogue (Bytes × ℕ × Bytes)
  ask_login = do
    broker_host ← prompt_host
    broker_port ← prompt_port
    username ← read_line (codes "MQTT username [none]: ")
    answer (broker_host, broker_port, username)

-- A password without a username is asked about.
abbrev pub confirm_anonymous : Bytes → Bytes → Dialogue (Unit {0})
confirm_anonymous username password inputs =
    if not (is_empty password) && is_empty username
    then go_on
        (read_line (codes "Password is configured without a username. Continue? [y/N]: ") inputs)
        insist
    else (got tt inputs, [])

-- The confirmation, in `Run`
unfoldable pub confirm : Answers → Dialogue Answers
confirm answers = do
  confirmation ← read_line (codes "Install and start zimaos-monitor? [y/N]: ")
  _ ← insist confirmation
  answer (record answers { confirmed = true })

-- `Run` from the summary to the confirmation
unfoldable pub confirm_answers : Codec → Answers → Dialogue Answers
unfolding summary confirm
confirm_answers codec answers = do _ ← print (summary codec answers); confirm answers

-- `Run` from the password on, behind the host, the port and the username
unfoldable pub ask_password : Codec → Bytes × ℕ × Bytes → Dialogue Answers
unfolding confirm_answers
ask_password codec (broker_host, broker_port, username) = do
  password ← read_secret (codes "MQTT password [none]: ")
  _ ← confirm_anonymous username password
  confirm_answers codec (record {
    broker_host = broker_host;
    broker_port = broker_port;
    username = username;
    password = password;
    confirmed = false;
  })

-- `Run` up to the confirmation
unfoldable pub ask_answers : (Bytes → Bool) → Codec → Dialogue Answers
unfolding ask_login ask_password
ask_answers is_ip codec = do login ← ask_login is_ip; ask_password codec login

-- What `Runner.Run` prints, on a terminal if it is one
unfoldable pub transcript : (Bytes → Bool) → Codec → Bool → List Input → Bytes → List Bytes
transcript is_ip codec terminal inputs path =
    if is_empty path then [] else if terminal then (ask_answers is_ip codec inputs).1 else []

abbrev pub generated : Codec → Answers → GeneratedConfig
generated codec answers = record {
  broker = broker_uri codec answers;
  username = answers.username;
  password = answers.password;
}

unfoldable pub marshal_config : Codec → Answers → Result SetupError Bytes
marshal_config codec answers = elim (codec.marshal (generated codec answers)) [
  | none ↦ err serialize_failed
  | some contents ↦ elim (codec.unmarshal contents) [
    | none ↦ err validate_failed
    | some validation ↦ if is_empty validation.broker then err validate_failed else ok contents
  ]
]
