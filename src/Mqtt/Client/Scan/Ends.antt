-- ===== src/Mqtt/Client/Scan/Ends.antt =====
-- What a scan has collected, when it may end, and that it can.
use zimaos_monitor.Base.{
  ℕ, ◌+◌, ◌-◌, ◌≤◌, ◌≡◌, ◌⊎◌, ◌↔◌, inl, inr, refl, sym, ap, subst, ◌∙◌, arith, Bool-cases, true,
  false, List, [], ◌∷◌, Option, none, some, In, Bytes,
}
use mathlib.Core.Option
use zimaos_monitor.Mqtt.Client.{
  Message, Collected, Broker, Retained, collect_messages, collect_retained,
}
use zimaos_monitor.Mqtt.Client.Scan.{
  Scan, start_scan, idle_grace, handle, Step, hear, wait, wake, expire, fall_silent, Run, here,
  silent, heard, Session, refused, kept_open, completed,
}

-- A retained message has arrived.
abbrev pub Arrived : List Message → Type 0
Arrived messages = (m : Message) × In m messages × (m.retained ≡ true)

module _ (timeout : ℕ) where
  Step-collected : {s t : Scan} → Step timeout s none t → t.collected ≡ s.collected
  Step-collected (wait s time) = refl
  Step-collected (wake s _ _) = refl
  Step-collected (expire s _ _) = refl
  Step-collected (fall_silent s d _ _ _) = refl

  Step-heard : {s t : Scan} {m : Message} → Step timeout s (some m) t → t ≡ handle m s
  Step-heard (hear s m) = refl

  Run-collected :
      {s u : Scan} {messages : List Message}
      → Run timeout s messages u
      → u.collected ≡ collect_messages s.collected messages
  unfolding collect_messages
  Run-collected (here s) = refl
  Run-collected (silent {s} {t} {u} {messages} step run) =
      Run-collected run ∙ ap (λ c. collect_messages c messages) (Step-collected step)
  Run-collected (heard {s} {t} {u} {messages} m step run) =
      Run-collected run ∙ ap (λ (x : Scan). collect_messages x.collected messages) (Step-heard step)

  -- Whatever the timers do, a scan has collected just what its handler makes of the messages that
  -- arrived, in their order.
  pub scan-collect_messages :
      {u : Scan} {messages : List Message}
      → Run timeout start_scan messages u
      → u.collected ≡ collect_messages [] messages
  scan-collect_messages run = Run-collected run

  session-arrivals :
      {arrivals : Option (List Message)} {result : Option Collected}
      → Session timeout arrivals result
      → result ≡ Option.map (collect_messages []) arrivals
  session-arrivals refused = refl
  session-arrivals (kept_open run e) = refl
  session-arrivals (completed run e) = ap some (scan-collect_messages run)

  -- What holds between two steps, if the messages so far hold a retained one when `some_retained`.
  record IsTimed (some_retained : Type 0) (s : Scan) : Type 0 where
    woken : s.activity ≡ true → some_retained
    armed : (d : ℕ) → s.idle ≡ some d → some_retained × (idle_grace ≤ d) × (d ≤ s.now + idle_grace)
    over : s.ended ≡ true → (timeout ≤ s.now) ⊎ (some_retained × (idle_grace ≤ s.now))

  start-IsTimed : (A : Type 0) → IsTimed A start_scan
  start-IsTimed A = record { woken = λ e. cc; armed = λ d e. cc; over = λ e. cc }

  Step-IsTimed : {A : Type 0} {s t : Scan} → Step timeout s none t → IsTimed A s → IsTimed A t
  Step-IsTimed (wait s time) h = record {
    woken = h.woken;
    armed = λ d e. let (a, b, c) = h.armed d e in (a, b, omega arith);
    over = λ e. elim (h.over e) [ inl x ↦ inl (omega arith) | inr (a, x) ↦ inr (a, omega arith) ];
  }
  Step-IsTimed (wake s _ active) h = record {
    woken = λ e. cc;
    armed = λ d e. (h.woken active, ground arith, ground arith);
    over = h.over;
  }
  Step-IsTimed (expire s _ late) h = record {
    woken = h.woken;
    armed = h.armed;
    over = λ _. inl late;
  }
  Step-IsTimed (fall_silent s d _ set late) h = record {
    woken = h.woken;
    armed = h.armed;
    over = λ _. let (a, b, c) = h.armed d set in inr (a, omega arith);
  }

  handle-IsTimed :
      {A : Type 0} (m : Message) (s : Scan)
      → (m.retained ≡ true → A)
      → IsTimed A s
      → IsTimed A (handle m s)
  handle-IsTimed m s arrived h = elim (Bool-cases m.retained) [
    | inl yes_retained ↦ record {
      woken = λ _. arrived yes_retained;
      armed = h.armed;
      over = h.over;
    }
    | inr e ↦ record { woken = λ w. h.woken (ground (arith, e, w)); armed = h.armed; over = h.over }
  ]

  Run-IsTimed :
      {A : Type 0} {s u : Scan} {messages : List Message}
      → Run timeout s messages u
      → (Arrived messages → A)
      → IsTimed A s
      → IsTimed A u
  Run-IsTimed (here s) arrived h = h
  Run-IsTimed (silent step run) arrived h = Run-IsTimed run arrived (Step-IsTimed step h)
  Run-IsTimed {A} (heard {s} m step run) arrived h =
      Run-IsTimed run (λ (n, i, r). arrived (n, inr i, r))
        (subst (IsTimed A) (sym (Step-heard step))
          (handle-IsTimed m s (λ r. arrived (m, inl refl, r)) h))

  -- A scan ends early only behind a retained message, and not before the idle grace: otherwise the
  -- whole timeout has passed.
  pub scan-ended :
      {u : Scan} {messages : List Message}
      → Run timeout start_scan messages u
      → u.ended ≡ true
      → (timeout ≤ u.now) ⊎ (Arrived messages × (idle_grace ≤ u.now))
  scan-ended {messages} run e = (Run-IsTimed run (λ a. a) (start-IsTimed (Arrived messages))).over e

  -- A loop that has not ended never gets stuck: whatever further messages arrive, it can end with
  -- them collected, at the total deadline or at once when that has passed.
  pub scan-ends :
      (s : Scan) (messages : List Message)
      → s.ended ≡ false
      → (u : Scan) × Run timeout s messages u
        × (u.ended ≡ true)
        × (u.now ≡ s.now + (timeout - s.now))
        × (u.collected ≡ collect_messages s.collected messages)
  unfolding collect_messages
  scan-ends s [] running =
      let t = record s { now = s.now + (timeout - s.now) } in
      (
        record t { ended = true },
        silent (wait s (timeout - s.now)) (silent (expire t running (omega arith)) (here _)),
        refl,
        refl,
        refl,
      )
  scan-ends s (m ∷ messages) running =
      let (u, run, over, late, all_heard) = scan-ends (handle m s) messages running in
      (u, heard m (hear s m) run, over, late, all_heard)

  arrivals-session :
      (arrivals : Option (List Message))
      → Session timeout arrivals (Option.map (collect_messages []) arrivals)
  arrivals-session none = refused
  arrivals-session (some messages) =
      let (u, run, over, _, heard_all) = scan-ends start_scan messages refl in
      subst (λ c. Session timeout (some messages) (some c)) heard_all (completed run over)

  -- For what arrives from a broker, a scan can return just what `collect_retained` returns: whatever
  -- the timers do, and whether or not the subscription and its end succeed.
  pub session_iff :
      (broker : Broker) (filter : Bytes) (store : Retained) (result : Option Collected)
      → Session timeout (broker.arrivals filter store) result
        ↔ (result ≡ collect_retained broker filter store)
  unfolding collect_retained
  session_iff broker filter store result = (
    λ session. session-arrivals session ∙ same (broker.arrivals filter store),
    λ e.
        subst (Session timeout (broker.arrivals filter store))
          (same (broker.arrivals filter store) ∙ sym e)
          (arrivals-session (broker.arrivals filter store)),
  )
    where
      same :
          (r : Option (List Message))
          → Option.map (collect_messages []) r
            ≡ elim r [ none ↦ none | some messages ↦ some (collect_messages [] messages) ]
      same none = refl
      same (some messages) = refl
