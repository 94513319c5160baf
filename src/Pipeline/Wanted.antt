-- ===== src/Pipeline/Wanted.antt =====
-- Which alerts a batch asks for, decided without the database.
use guardian_pi.Base.{
  ℕ, String, ◌≡◌, refl, ◌&&◌, List, [], ◌∷◌, ◌++◌, map, none, ltb, get_or, contains, ◌==◌,
  if◌then◌else◌, arith,
}
use guardian_pi.Detection.{Texts, Numbers, Match, match_process, calculate_anomaly_score}
use guardian_pi.Detection.Rules.{sigma_rules}
use guardian_pi.Pipeline.{
  Details, Event, Request, AlertData, Create, append_created, anomaly_request, match_request,
  event_request, process_name_of, create_matches, after_matching, process_event, process_events,
  process_telemetry_batch,
}

module _ (N : Numbers) (T : Texts) (str : ℕ → String) (device_id : String) where
  abbrev pub by_severity : String → String → String → Details N → List Request
  by_severity event_type severity title details =
      if contains ("critical" ∷ "high" ∷ "medium" ∷ []) severity
      then event_request N T str device_id event_type severity title details ∷ []
      else []

  abbrev pub by_matching : String → String → String → Details N → List Match → List Request
  by_matching event_type severity title details [] = by_severity event_type severity title details
  by_matching event_type severity title details (m ∷ ms) =
      map (match_request N T str device_id (process_name_of N T str device_id details) details)
        (m ∷ ms)

  -- The alerts that one event asks for.
  unfoldable pub wanted : Event N → List Request
  wanted event =
      let event_type = get_or event.event_type "" in
      let severity = get_or event.severity "info" in
      let title = get_or event.title "" in
      let details = event.details in
      if event_type == "system_metrics" && severity == "info"
      then (let anomaly = calculate_anomaly_score N details.metrics in
          if ltb 30 anomaly.anomaly_score
          then anomaly_request N T str device_id details anomaly ∷ []
          else [])
      else if contains ("process_alert" ∷ "detection" ∷ []) event_type
      then by_matching event_type severity title details (
          match_process T sigma_rules (process_name_of N T str device_id details)
            (get_or details.cmdline ""))
      else by_severity event_type severity title details

  unfoldable pub wanted_all : List (Event N) → List Request
  wanted_all [] = []
  wanted_all (event ∷ events) = wanted event ++ wanted_all events

-- Creating the alerts of a list in turn.
unfoldable pub create_all :
    {S : Type 0} → Create S → List AlertData → List Request → S → List AlertData × S
create_all create created [] s = (created, s)
create_all create created (r ∷ rs) s =
    let (alert, t) = create r s in create_all create (append_created created alert) rs t

module _ (N : Numbers) (T : Texts) (str : ℕ → String) (device_id : String) {S : Type 0}
    (create : Create S) where
  create_all-append :
      (xs ys : List Request) (created : List AlertData) (s : S)
      → create_all create created (xs ++ ys) s
        ≡ create_all create (create_all create created xs s).0 ys (create_all create created xs s).1
  unfolding create_all
  create_all-append [] ys created s = refl
  create_all-append (x ∷ xs) ys created s =
      create_all-append xs ys (append_created created (create x s).0) (create x s).1

  create_matches-eq :
      (name : String) (details : Details N) (ms : List Match) (created : List AlertData) (s : S)
      → create_matches N T str device_id create name details created ms s
        ≡ create_all create created (map (match_request N T str device_id name details) ms) s
  unfolding create_matches create_all
  create_matches-eq name details [] created s = refl
  create_matches-eq name details (m ∷ ms) created s =
      let r = match_request N T str device_id name details m in
      create_matches-eq name details ms (append_created created (create r s).0) (create r s).1

  by_matching-eq :
      (event_type severity title : String) (details : Details N) (ms : List Match)
      (created : List AlertData) (s : S)
      → after_matching N T str device_id create event_type severity title details ms created s
        ≡ create_all create created
            (by_matching N T str device_id event_type severity title details ms)
            s
  unfolding after_matching create_all
  by_matching-eq event_type severity title details [] created s = ground arith
  by_matching-eq event_type severity title details (m ∷ ms) created s =
      create_matches-eq (process_name_of N T str device_id details) details (m ∷ ms) created s

  process_event-eq :
      (event : Event N) (created : List AlertData) (s : S)
      → process_event N T str device_id create event created s
        ≡ create_all create created (wanted N T str device_id event) s
  unfolding process_event wanted create_all
  process_event-eq event created s = ground (
    arith,
    by_matching-eq (get_or event.event_type "") (get_or event.severity "info")
        (get_or event.title "") event.details
        (match_process T sigma_rules (process_name_of N T str device_id event.details)
          (get_or event.details.cmdline ""))
        created s,
  )

  process_events-eq :
      (events : List (Event N)) (created : List AlertData) (s : S)
      → process_events N T str device_id create events created s
        ≡ create_all create created (wanted_all N T str device_id events) s
  unfolding process_events wanted_all create_all
  process_events-eq [] created s = refl
  process_events-eq (event ∷ events) created s = ground (
    arith,
    process_event-eq event created s,
    process_events-eq events (process_event N T str device_id create event created s).0
        (process_event N T str device_id create event created s).1,
    create_all-append (wanted N T str device_id event) (wanted_all N T str device_id events) created
        s,
  )

-- The batch does what its events ask for, in their order, whatever creating an alert does: what is
-- asked for depends on the events alone, and each alert that is created is returned.
pub process_telemetry_batch-eq :
    (N : Numbers) (T : Texts) (str : ℕ → String) (device_id : String) {S : Type 0}
    (create : Create S) (events : List (Event N)) (s : S)
    → process_telemetry_batch N T str device_id create events s
      ≡ create_all create [] (wanted_all N T str device_id events) s
unfolding process_telemetry_batch
process_telemetry_batch-eq N T str device_id create events s =
    process_events-eq N T str device_id create events [] s

pub create_all_failing :
    {S : Type 0} (create : Create S) (rs : List Request) (s : S)
    → ((r : Request) (s : S) → create r s ≡ (none, s))
    → create_all create [] rs s ≡ ([], s)
unfolding create_all
create_all_failing create [] s h = refl
create_all_failing create (r ∷ rs) s h = rw (h r s) (create_all_failing create rs s h)
