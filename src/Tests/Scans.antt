-- ===== src/Tests/Scans.antt =====
-- Scans for retained messages, with one that arrives after 20 milliseconds.
use zimaos_monitor.Base.{◌+◌, ◌-◌, ◌≤◌, ◌≡◌, ◌⊎◌, refl, arith, true, false, [], ◌∷◌, codes, some}
use zimaos_monitor.Mqtt.Client.{Message, Broker, collect_messages}
use zimaos_monitor.Mqtt.Client.Scan.{
  Scan, start_scan, idle_grace, handle, hear, wait, wake, fall_silent, Run, here, silent, heard,
}
use zimaos_monitor.Mqtt.Client.Scan.Ends.{Arrived, scan-ended, scan-ends}

abbrev message : Message
message = record { topic = codes "t"; payload = 1 ∷ []; retained = true }

abbrev heard_scan : Scan
heard_scan = handle message (record start_scan { now = 20 })

abbrev woken_scan : Scan
woken_scan = record heard_scan { activity = false; idle = some (20 + idle_grace) }

abbrev late_scan : Scan
late_scan = record woken_scan { now = 20 + 400 }

abbrev ended_scan : Scan
ended_scan = record late_scan { ended = true }

run : Run 2000 start_scan (message ∷ []) ended_scan
run = silent (wait start_scan 20) (
    heard message (hear _ message) (
      silent (wake heard_scan refl refl) (
        silent (wait woken_scan 400)
          (silent (fall_silent late_scan (20 + idle_grace) refl refl (omega arith)) (here _)))))

-- The subscription succeeds, and the message arrives.
abbrev broker : Broker
broker = record { delivers = λ _ _. true; arrivals = λ _ _. some (message ∷ []) }

scan-ended_example :
    (2000 ≤ ended_scan.now) ⊎ (Arrived (message ∷ []) × (idle_grace ≤ ended_scan.now))
scan-ended_example = scan-ended 2000 run refl

scan-ends_example :
    (u : Scan) × Run 2000 heard_scan (message ∷ []) u
    × (u.ended ≡ true)
    × (u.now ≡ heard_scan.now + (2000 - heard_scan.now))
    × (u.collected ≡ collect_messages heard_scan.collected (message ∷ []))
scan-ends_example = scan-ends 2000 heard_scan (message ∷ []) refl
