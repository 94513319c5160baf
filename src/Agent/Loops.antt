-- ===== src/Agent/Loops.antt =====
-- agent/guardian_agent.py: the monitoring loops of a GuardianAgent, a round at a time, and the event
-- that agent/telemetry/sender.py makes of what they report.
pub mod Blocked
use guardian_pi.Base.{
  ℕ, String, ◌<>◌, Bool, true, false, List, [], ◌∷◌, ◌++◌, Option, none, some, map, get_or,
  if◌then◌else◌,
}
use guardian_pi.Db.{Json}
use guardian_pi.Telemetry.{Event}
use guardian_pi.Agent.FileIntegrity
use guardian_pi.Agent.Hashing.{Sha256}
use guardian_pi.Agent.Sender.{queue_event}
use guardian_pi.Agent.Monitors.Processes
use guardian_pi.Agent.Monitors.Network
use guardian_pi.Agent.Monitors.Usb
use guardian_pi.Agent.Tamper

-- The event of queue_event, as the server reads it: `title` is details.get("title").
abbrev pub new_event : (event_type severity : String) → (title : Option String) → Json → Event
new_event event_type severity title details = record {
  event_type = some event_type;
  severity = some severity;
  title = some (get_or title (event_type <> " event"));
  description = none;
  details = some details;
}

-- for alert in alerts: queue_event(...)
unfoldable pub queue_all : List Event → List Event → List Event
queue_all [] queue = queue
queue_all (event ∷ events) queue = queue_all events (queue_event event queue)

-- What the parts of the agent use of other code, and the JSON and titles of their reports.
pub record Tools : Type 1 where
  pub V : Processes.Values
  pub lower : String → String
  pub total_gb : String → Option String
  pub triples : ℕ → List ℕ → Bool
  pub hash_file : String → FileIntegrity.Hash
  pub H : Sha256
  pub process_alert : Processes.Alert V → Option String × Json
  pub file_change : FileIntegrity.Change → Option String × Json
  pub network_anomaly : Network.Alert → Option String × Json
  pub usb_event : Usb.Event → Option String × Json
  pub tamper : Json

module _ (T : Tools) {File : Type 0} (write : FileIntegrity.Baseline → File → File) where
  -- The agent after its start: the states of its modules, and the queue of its sender.
  pub record Agent : Type 0 where
    pub running : Bool
    pub baseline_pids : List ℕ
    pub files : FileIntegrity.Monitor write
    pub network : Network.Monitor
    pub known_devices : List String
    pub engine : Tamper.Engine
    pub queue : List Event

  -- What a round of a loop finds when it looks. A module that raises leaves the agent as it was, and
  -- the loop goes on.
  pub data Round : Type 0 where
    heartbeat : Json → Round
    processes : List (Option (Processes.Info T.V)) → Round
    files_checked : Round
    connections : Option (List Network.Connection) → Round
    partitions : List Usb.Partition → Round
    tamper_check : (content : Option (List ℕ)) → Round
    failed : Round

  abbrev pub process_event : Processes.Alert T.V → Event
  process_event a =
      let (title, details) = T.process_alert a in
      new_event "process_alert" (Processes.severity a) title details

  abbrev pub file_event : FileIntegrity.Change → Event
  file_event c =
      let (title, details) = T.file_change c in new_event "file_change" "high" title details

  abbrev pub network_event : Network.Alert → Event
  network_event a =
      let (title, details) = T.network_anomaly a in
      new_event "network_anomaly" (Network.severity a) title details

  abbrev pub usb_event : Usb.Event → Event
  usb_event e = let (title, details) = T.usb_event e in new_event "usb_event" "medium" title details

  -- The events of a round, and the agent without them queued.
  abbrev pub reports : Round → Agent → List Event × Agent
  reports (heartbeat metrics) a = (new_event "heartbeat" "info" none metrics ∷ [], a)
  reports (processes procs) a =
      let (alerts, known) = Processes.scan procs a.baseline_pids in
      (map process_event alerts, record a { baseline_pids = known })
  reports files_checked a =
      let (changes, files) = FileIntegrity.check write T.hash_file a.files in
      (map file_event changes, record a { files = files })
  reports (connections seen) a =
      let (anomalies, network) = Network.detect_anomalies T.triples seen a.network in
      (map network_event anomalies, record a { network = network })
  reports (partitions seen) a =
      let (events, known) = Usb.check T.lower T.total_gb seen a.known_devices in
      (map usb_event events, record a { known_devices = known })
  reports (tamper_check content) a =
      let (intact, engine) = Tamper.verify_integrity T.H content a.engine in
      (
        if intact then [] else new_event "tamper_detected" "critical" none T.tamper ∷ [],
        record a { engine = engine },
      )
  reports failed a = ([], a)

  -- `while self.running: ...`
  unfoldable pub round : Round → Agent → Agent
  round r a =
      let (events, b) = reports r a in
      if a.running then record b { queue = queue_all events a.queue } else a

  unfoldable pub stop : Agent → Agent
  stop a = record a { running = false }
