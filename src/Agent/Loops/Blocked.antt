-- ===== src/Agent/Loops/Blocked.antt =====
-- What the reports of the loops do to the delivery of the telemetry.
use guardian_pi.Base.{
  ℕ, ◌-◌, String, ◌≡◌, refl, ap, ◌∙◌, ◌≢◌, Bool, true, false, ◌||◌, List, [], ◌∷◌, ◌++◌, Option,
  none, map, any, any-append, drop-append_le, All, length, drop, length-append, if_ind,
  false_ne_true, arith, leb,
}
use guardian_pi.Db.{Uuid}
use guardian_pi.Models.{Time}
use guardian_pi.Telemetry.{Event, Data, is_alarming}
use guardian_pi.Agent.FileIntegrity
use guardian_pi.Agent.Sender.{max_queue, queue_event}
use guardian_pi.Agent.Monitors.Processes
use guardian_pi.Agent.Monitors.Network
use guardian_pi.Agent.Tamper.{verify_integrity}
use guardian_pi.Agent.Crypto.{Bytes, Primitives}
use guardian_pi.Agent.Loops.{
  Tools, queue_all, Agent, Round, heartbeat, processes, files_checked, connections, partitions,
  tamper_check, failed, process_event, file_event, network_event, usb_event, reports, round,
}
use guardian_pi.Delivery.{Server, flush_times}
use guardian_pi.Delivery.Flush.{IsPaired, flush_times-alarming}

or_true : (a : Bool) → (a || true) ≡ true
or_true true = refl
or_true false = refl

-- The event that is queued is in the queue.
queue_event-any :
    {E : Type 0} (p : E → Bool) (event : E) (queue : List E)
    → p event ≡ true
    → any p (queue_event event queue) ≡ true
unfolding queue_event
queue_event-any {E} p event queue h =
    if_ind (λ q. any p q ≡ true) (leb max_queue (length (queue ++ event ∷ [])))
      (λ full.
        ap (any p) (
          drop-append_le (length (queue ++ event ∷ []) - max_queue) queue (event ∷ [])
            (omega (arith, length-append queue (event ∷ []))))
        ∙ held (drop (length (queue ++ event ∷ []) - max_queue) queue))
      (λ short. held queue)
  where
    held : (xs : List E) → any p (xs ++ event ∷ []) ≡ true
    held xs =
        any-append p xs (event ∷ []) ∙ ap (λ b. any p xs || (b || false)) h ∙ or_true (any p xs)

abbrev IsAlarming : Event → Type 0
IsAlarming e = is_alarming e ≡ true

queue_all-any :
    (event : Event) (events queue : List Event)
    → All IsAlarming (event ∷ events)
    → any is_alarming (queue_all (event ∷ events) queue) ≡ true
unfolding queue_all
queue_all-any event [] queue (h, rest) = queue_event-any is_alarming event queue h
queue_all-any event (next ∷ events) queue (h, rest) =
    queue_all-any next events (queue_event event queue) rest

All-map_each :
    {A B : Type 0} (f : A → B) (P : B → Type 0) (xs : List A)
    → ((x : A) → P (f x))
    → All P (map f xs)
All-map_each f P [] h = tt
All-map_each f P (x ∷ xs) h = (h x, All-map_each f P xs h)

module _ (T : Tools) {File : Type 0} (write : FileIntegrity.Baseline → File → File) where
  -- A round of a monitor, which is not a heartbeat.
  abbrev pub IsMonitor : Round T write → Type 0
  IsMonitor (heartbeat metrics) = ⊥
  IsMonitor (processes procs) = Unit
  IsMonitor files_checked = Unit
  IsMonitor (connections seen) = Unit
  IsMonitor (partitions seen) = Unit
  IsMonitor (tamper_check content) = Unit
  IsMonitor failed = Unit

  process_event-IsAlarming : (a : Processes.Alert T.V) → IsAlarming (process_event T write a)
  process_event-IsAlarming (Processes.suspicious title pid process_name username description) = refl
  process_event-IsAlarming (Processes.high_cpu title pid process_name cpu) = refl
  process_event-IsAlarming (Processes.many_connections title pid connection_count) = refl

  network_event-IsAlarming : (a : Network.Alert) → IsAlarming (network_event T write a)
  network_event-IsAlarming (Network.connection_spike current) = refl
  network_event-IsAlarming (Network.suspicious_port local_port remote_ip) = refl
  network_event-IsAlarming (Network.port_scan port_count) = refl
  network_event-IsAlarming (Network.burst new_ip_count) = refl

  reports-IsAlarming :
      (r : Round T write) (a : Agent T write) → IsMonitor r → All IsAlarming (reports T write r a).0
  reports-IsAlarming (heartbeat metrics) a monitor = elim monitor [ ]
  reports-IsAlarming (processes procs) a monitor =
      All-map_each (process_event T write) IsAlarming _ process_event-IsAlarming
  reports-IsAlarming files_checked a monitor =
      All-map_each (file_event T write) IsAlarming _ (λ c. refl)
  reports-IsAlarming (connections seen) a monitor =
      All-map_each (network_event T write) IsAlarming _ network_event-IsAlarming
  reports-IsAlarming (partitions seen) a monitor =
      All-map_each (usb_event T write) IsAlarming _ (λ e. refl)
  reports-IsAlarming (tamper_check content) a monitor =
      if_ind (λ es. All IsAlarming es) (verify_integrity T.H content a.engine).0 (λ intact. tt)
        (λ tampered. (refl, tt))
  reports-IsAlarming failed a monitor = tt

  queue-round :
      (r : Round T write) (a : Agent T write)
      → a.running ≡ true
      → (round T write r a).queue ≡ queue_all (reports T write r a).0 a.queue
  unfolding round
  queue-round r a running =
      if_ind (λ (b : Agent T write). b.queue ≡ queue_all (reports T write r a).0 a.queue) a.running
        (λ yes_running. refl) (λ stopped. absurd (false_ne_true stopped running))

  -- As soon as a running agent's monitor reports anything, a suspicious process, a changed file, a
  -- network anomaly, a USB device or a changed binary, the sender is stuck: however often it flushes
  -- then, with any API key, with the server's key or with none, its queue and the server's alerts
  -- stay as they were, since "self" is the text of no UUID.
  pub flush_times-round :
      (P : Primitives Data) (S : Server) (fresh : ℕ → Uuid) (now : Time) (api_key : String)
      (crypto : Option P.Key) (nonces : List Bytes) (s : S.alerts.Store) (r : Round T write)
      (a : Agent T write)
      → All (λ nonce. IsPaired P S fresh now api_key crypto nonce (round T write r a).queue) nonces
      → S.security.parse_uuid "self" ≡ none
      → a.running ≡ true
      → IsMonitor r
      → (reports T write r a).0 ≢ []
      → flush_times P S fresh now api_key crypto nonces ((round T write r a).queue, s)
        ≡ ((round T write r a).queue, s)
  flush_times-round P S fresh now api_key crypto nonces s r a paired p running monitor some_report =
      flush_times-alarming P S fresh now api_key crypto nonces (round T write r a).queue s paired p
        (ap (any is_alarming) (queue-round r a running)
          ∙ queued (reports T write r a).0 (reports-IsAlarming r a monitor) some_report)
    where
      queued :
          (events : List Event)
          → All IsAlarming events
          → events ≢ []
          → any is_alarming (queue_all events a.queue) ≡ true
      queued [] all some_event = absurd (some_event refl)
      queued (event ∷ events) all some_event = queue_all-any event events a.queue all
