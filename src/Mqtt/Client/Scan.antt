-- ===== src/Mqtt/Client/Scan.antt =====
-- internal/mqtt/client.go: the loop of `CollectRetained` with its two timers, as a step relation. The
-- handler runs at any time beside the loop, and `select` takes any case that is ready.
pub mod Ends
use zimaos_monitor.Base.{
  ℕ, ◌+◌, ◌≤◌, ◌≡◌, Bool, true, false, not, List, [], ◌∷◌, Option, none, some, if◌then◌else◌,
}
use zimaos_monitor.Mqtt.Client.{Collected, Message, insert}

-- 300 milliseconds
abbrev pub idle_grace : ℕ
idle_grace = 300

-- Times are in milliseconds since the total timer was made. `activity` is what the channel holds,
-- `idle` the deadline of the idle timer, and `ended` holds behind `break collect`.
pub record Scan : Type 0 where
  pub now : ℕ
  pub collected : Collected
  pub activity : Bool
  pub idle : Option ℕ
  pub ended : Bool

abbrev pub start_scan : Scan
start_scan = record { now = 0; collected = []; activity = false; idle = none; ended = false }

-- The handler: a message that is not retained is passed over.
abbrev pub handle : Message → Scan → Scan
handle m s = record s {
  collected = if not m.retained then s.collected else insert m.topic m.payload s.collected;
  activity = if not m.retained then s.activity else true;
}

-- A step, with the message that it handles, if it handles one. The handler may still run when the
-- loop has ended, until the subscription has.
pub data Step (timeout : ℕ) : Scan → Option Message → Scan → Type 0 where
  hear : (s : Scan) (m : Message) → Step timeout s (some m) (handle m s)
  wait : (s : Scan) (time : ℕ) → Step timeout s none (record s { now = s.now + time })
  wake :
      (s : Scan)
      → s.ended ≡ false
      → s.activity ≡ true
      → Step timeout s none (record s { activity = false; idle = some (s.now + idle_grace) })
  expire :
      (s : Scan)
      → s.ended ≡ false
      → timeout ≤ s.now
      → Step timeout s none (record s { ended = true })
  fall_silent :
      (s : Scan) (deadline : ℕ)
      → s.ended ≡ false
      → s.idle ≡ some deadline
      → deadline ≤ s.now
      → Step timeout s none (record s { ended = true })

-- Steps one after another, with the messages that they handle.
pub data Run (timeout : ℕ) : Scan → List Message → Scan → Type 0 where
  here : (s : Scan) → Run timeout s [] s
  silent :
      {s t u : Scan} {messages : List Message}
      → Step timeout s none t
      → Run timeout t messages u
      → Run timeout s messages u
  heard :
      {s t u : Scan} {messages : List Message} (m : Message)
      → Step timeout s (some m) t
      → Run timeout t messages u
      → Run timeout s (m ∷ messages) u

-- What arrives and what `CollectRetained` then returns: none where the subscription or its end fails.
pub data Session (timeout : ℕ) : Option (List Message) → Option Collected → Type 0 where
  refused : Session timeout none none
  kept_open :
      {u : Scan} {messages : List Message}
      → Run timeout start_scan messages u
      → u.ended ≡ true
      → Session timeout none none
  completed :
      {u : Scan} {messages : List Message}
      → Run timeout start_scan messages u
      → u.ended ≡ true
      → Session timeout (some messages) (some u.collected)
