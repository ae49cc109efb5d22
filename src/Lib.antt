-- ===== src/Lib.antt =====
-- zimaos-monitor: a service that publishes the measurements of a ZimaOS machine to Home Assistant
-- by MQTT, and a command that sets it up and updates its own binary.
--
-- The parts and their files. Names are those of the Go code in snake_case.
--
-- - SelfUpdate.Version: internal/selfupdate/release.go, the two patterns, `parseVersion` and
--   `IsNewer`. A pattern is a function of its own that returns the groups.
-- - SelfUpdate.Release: `FetchLatest` of the same file, from the server's answer to the release.
-- - SelfUpdate.Checker: `Checker` of the same file. The goroutine of `Start` is a function of the
--   events that it waits for; `Latest` reads the state between two of them.
-- - SelfUpdate.Host: the machine on which an update runs, its files and the commands that were
--   started. Every system call happens at a numbered moment and asks the environment whether it
--   fails, what a failed write leaves, what the network answers and whether the context has ended.
-- - SelfUpdate.Download, SelfUpdate.Extract, SelfUpdate.Apply: internal/selfupdate/updater.go, over
--   that machine. `Apply` is cut into steps at its comments and early returns: `select_release`,
--   `make_dir`, `prepare`, `install` (`copy_file`, `replace`, `check_or_rollback`,
--   `remove_if_there`). `finally` is `defer`, `on_error` is `if err := …; err != nil`.
-- - Config.Identity: internal/config/identity.go. Config.Load: `LoadWithIdentitySource` and
--   `readDMI` of internal/config/config.go, behind the decoder; Config has the types.
-- - Mqtt.Client: `Publish` and the handler of `CollectRetained` of internal/mqtt/client.go. The
--   broker's retained messages are a function from topics to payloads. Whether it takes a publication
--   is asked anew for each, by its number in its loop and its topic. Mqtt.Client.Scan: the loop of
--   `CollectRetained` with its two timers and the handler beside it, as a step relation, and around
--   it the subscription and its end.
--   Mqtt.Client.Connect: `NewClient`.
-- - Mqtt.Topic, Mqtt.Cleanup: the topics and the cleanup of internal/mqtt/autodiscovery.go.
--   Mqtt.Discovery: the records of the same file, Mqtt.Discovery.Publish: `PublishDiscovery`.
-- - Collector.OsInfo, Collector.Upstream, Collector.Disk, Collector.Cpu, Collector.Memory: the files
--   of internal/collector.
-- - Command.Info, Command.Service, Command.Start: cmd/zimaos-monitor/main.go. `collect` is a function
--   from the state between two rounds and from what the round meets; the state has the outputs of all
--   rounds. Command.Program: the service with the two checkers beside it, as one list of what happens.
--   Command.Main: `main` from its arguments to its end, with the files and the commands that it leaves.
-- - Setup.Input, Setup.Flow, Setup.Candidate: internal/setup/setup.go, what it accepts as port, host
--   and confirmation, its dialogue on the list of what the terminal's reads give, with the texts that
--   it prints, and its output file, over the files of SelfUpdate.Host. Setup.Terminal: these reads, on
--   the bytes typed.
-- - Base, Text: Boolean tests, lists and texts, and what the program uses of Go's `strings`,
--   `unicode` and `strconv`. Tests: runs on concrete inputs.
--
-- How the parts meet: `Checker` and `Apply` both call `fetch_latest`; `Apply` takes a release that
-- `is_newer`; `Load` asks `Config.Identity` for the IDs that a file leaves out and warns of a device
-- ID without a cleanup, and the cleanup of `Mqtt` refuses the filter of such an ID. A start of
-- Command.Service calls `publish_discovery`, which lets the cleanup go first, over the messages that
-- the scan collects; each round collects what Collector measures and sends it to the topics that the
-- records name, under keys that their templates read. In Command.Program the rounds of the service see
-- what its two checkers then show. `main` chooses the command, or makes the configuration, the disks
-- and the CPU collector that a service starts with.
--
-- Parameters: the HTTP client, the JSON and YAML decoders, gzip and tar, SHA-256 and base32, the
-- commands, `net.ParseIP`, the MQTT broker, the file system's failures, the measurements of gopsutil,
-- the clock, the flag parser, and float64 with its arithmetic. A Go map that is ranged
-- over is a list in some order. A text is a list of bytes; a duration an integer of nanoseconds.
--
-- Bounds: a number of a version fits 64 bits and a port 16, which `parse_uint` tests. `format`
-- has one more round of fuel than the number, and each round divides it by ten; `skip_space` has
-- the text as fuel, and each round takes a byte or more. All other loops go down a list.
--
-- Not modelled: the calls of gopsutil and of paho themselves, the terminal's echo and signals, log
-- lines, file modes and sleeping, the YAML and shell files.
pub mod Base
pub mod Text
pub mod SelfUpdate
pub mod Config
pub mod Mqtt
pub mod Setup
pub mod Collector
pub mod Command
pub mod Tests
