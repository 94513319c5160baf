-- ===== src/Pipeline.antt =====
-- backend/app/services/alert_pipeline.py: what a batch of telemetry asks for, and how an alert is
-- stored and sent on.
pub mod Wanted
pub mod Alarming
pub mod Create
use guardian_pi.Base.{
  ℕ, String, ◌<>◌, Bool, true, false, not, ◌&&◌, ◌||◌, List, [], ◌∷◌, ◌++◌, Option, none, some, ltb,
  get_or, contains, join, ◌==◌, if◌then◌else◌, all,
}
use guardian_pi.Db.{Uuid, Json, Table}
use guardian_pi.Models.{Alert, Time}
use guardian_pi.Detection.{
  Texts, Numbers, Metrics, Match, Anomaly, match_process, calculate_anomaly_score,
}
use guardian_pi.Detection.Rules.{DetectionRule, sigma_rules}

module _ (N : Numbers) where
  -- An event's details: the keys that the pipeline reads, and the whole dict. `none` is a key that is
  -- missing. Events with null under such a key, on which the code raises, are not in the model.
  pub record Details : Type 0 where
    pub process_name : Option String
    pub name : Option String
    pub cmdline : Option String
    pub metrics : Metrics N
    pub dict : Json

  pub record Event : Type 0 where
    pub event_type : Option String
    pub severity : Option String
    pub title : Option String
    pub details : Details

-- The details of an alert: the event's, below the keys that the pipeline adds.
pub data AlertDetails : Type 0 where
  plain : Json → AlertDetails
  with_anomaly : Anomaly → Json → AlertDetails
  with_rule : (rule_id mitre_tactic mitre_technique : String) → Json → AlertDetails

-- The arguments of _create_alert.
pub record Request : Type 0 where
  pub device_id : String
  pub title : String
  pub description : String
  pub severity : String
  pub alert_type : String
  pub details : AlertDetails

pub record AlertData : Type 0 where
  pub id : Uuid
  pub title : String
  pub severity : String
  pub alert_type : String
  pub device_id : String
  pub details : AlertDetails
  pub created_at : Time

-- _create_alert, as the batch sees it.
abbrev pub Create : Type 0 → Type 0
Create S = Request → S → Option AlertData × S

-- `if alert: alerts_created.append(alert)`
abbrev pub append_created : List AlertData → Option AlertData → List AlertData
append_created created none = created
append_created created (some alert) = created ++ alert ∷ []

module _ (N : Numbers) (T : Texts) (str : ℕ → String) (device_id : String) where
  abbrev pub anomaly_request : Details N → Anomaly → Request
  anomaly_request details anomaly = record {
    device_id = device_id;
    title = "Anomaly detected: score " <> str anomaly.anomaly_score;
    description = join "; " anomaly.reasons;
    severity = anomaly.risk;
    alert_type = "anomaly";
    details = with_anomaly anomaly details.dict;
  }

  abbrev pub match_request : String → Details N → Match → Request
  match_request process_name details match = record {
    device_id = device_id;
    title = match.rule_name <> (": " <> process_name);
    description = match.description;
    severity = match.severity;
    alert_type = match.category;
    details = with_rule match.rule_id match.mitre_tactic match.mitre_technique details.dict;
  }

  abbrev pub event_request : String → String → String → Details N → Request
  event_request event_type severity title details = record {
    device_id = device_id;
    title = title;
    description = event_type <> (": " <> title);
    severity = severity;
    alert_type = event_type;
    details = plain details.dict;
  }

  -- details.get("process_name", details.get("name", ""))
  abbrev pub process_name_of : Details N → String
  process_name_of details = get_or details.process_name (get_or details.name "")

  module _ {S : Type 0} (create : Create S) where
    -- await self._create_alert(...), and the append
    unfoldable pub create_and_append : List AlertData → Request → S → List AlertData × S
    create_and_append created request s =
        let (alert, t) = create request s in (append_created created alert, t)

    -- for match in matches
    unfoldable pub create_matches :
        String → Details N → List AlertData → List Match → S → List AlertData × S
    unfolding create_and_append
    create_matches process_name details created [] s = (created, s)
    create_matches process_name details created (match ∷ matches) s =
        let (created', t) =
          create_and_append created (match_request process_name details match) s in
        create_matches process_name details created' matches t

    -- `if severity in ("critical", "high", "medium")`, the last part of the loop's body
    unfoldable pub create_by_severity :
        String → String → String → Details N → List AlertData → S → List AlertData × S
    unfolding create_and_append
    create_by_severity event_type severity title details created s =
        if contains ("critical" ∷ "high" ∷ "medium" ∷ []) severity
        then create_and_append created (event_request event_type severity title details) s
        else (created, s)

    unfoldable pub after_matching :
        String → String → String → Details N → List Match → List AlertData → S → List AlertData × S
    unfolding create_matches create_by_severity
    after_matching event_type severity title details [] created s =
        create_by_severity event_type severity title details created s
    after_matching event_type severity title details (m ∷ ms) created s =
        create_matches (process_name_of details) details created (m ∷ ms) s

    -- The body of `for event in events`.
    unfoldable pub process_event : Event N → List AlertData → S → List AlertData × S
    unfolding after_matching
    process_event event created s =
        let event_type = get_or event.event_type "" in
        let severity = get_or event.severity "info" in
        let title = get_or event.title "" in
        let details = event.details in
        if event_type == "system_metrics" && severity == "info"
        then (let anomaly = calculate_anomaly_score N details.metrics in
            if ltb 30 anomaly.anomaly_score
            then create_and_append created (anomaly_request details anomaly) s
            else (created, s))
        else if contains ("process_alert" ∷ "detection" ∷ []) event_type
        then after_matching event_type severity title details
            (match_process T sigma_rules (process_name_of details) (get_or details.cmdline ""))
            created s
        else create_by_severity event_type severity title details created s

    unfoldable pub process_events : List (Event N) → List AlertData → S → List AlertData × S
    unfolding process_event
    process_events [] created s = (created, s)
    process_events (event ∷ events) created s =
        let (created', t) = process_event event created s in process_events events created' t

    unfoldable pub process_telemetry_batch : List (Event N) → S → List AlertData × S
    unfolding process_events
    process_telemetry_batch events s = process_events events [] s
