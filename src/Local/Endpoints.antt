-- ===== src/Local/Endpoints.antt =====
-- run_local.py: the endpoints on devices, alerts, policies, investigations, the audit log and the
-- metrics, and the clients of its WebSocket. Only /auth/me asks for a user.
use guardian_pi.Base.{
  ℕ, suc, String, Bool, List, [], ◌∷◌, ◌++◌, Option, none, some, map, filter, length, any, contains,
  get_or, nat_eq, not, is_substring, ◌==◌, if◌then◌else◌,
}
use guardian_pi.Http.{Result, ok, http, raised, ◌>>=◌}
use guardian_pi.Db.{Table, flush, fetch, found, modify}
use guardian_pi.Pages.{where_eq}
use guardian_pi.Telemetry.{Event}
use guardian_pi.Local.Tables.{Device, Alert, AuditLog, Policy, Investigation, add_all}
use guardian_pi.Local.Responses.{
  DeviceResponse, DeviceSummary, Listed, AlertResponse, IngestBody, IngestResponse, PolicyResponse,
  InvestigationSummary, InvestigationBody, InvestigationCreated, AuditLogResponse, Metrics, listed,
  device_response, alert_response, policy_response, investigation_summary, audit_log_response,
}

unfoldable pub list_devices : (T : Table Device) → T.Store → Listed DeviceResponse
list_devices T s = listed (map device_response (T.rows s))

unfoldable pub get_device :
    (T : Table Device) → (device_id : String) → T.Store → Result DeviceSummary
get_device T device_id s = do
  d ← fetch (λ d. d.id) device_id (T.rows s)
  d ← found (http 404 "Device not found") d
  ok (record {
    id = d.id;
    hostname = d.hostname;
    os_type = d.os_type;
    status = d.status;
    os_version = d.os_version;
    cpu_model = d.cpu_model;
    ram_mb = d.ram_mb;
  })

-- `order` is ORDER BY created_at DESC.
unfoldable pub list_alerts :
    (order : List Alert → List Alert) (T : Table Alert)
    → (severity status_filter : Option String) → T.Store
    → Listed AlertResponse
list_alerts order T severity status_filter s = listed (
    map alert_response (
      where_eq (λ a. a.status) status_filter
        (where_eq (λ a. a.severity) severity (order (T.rows s)))))

unfoldable pub ack_alert :
    (T : Table Alert) → (alert_id : String) → T.Store → Result (String × T.Store)
ack_alert T alert_id s = do
  (alert, t) ←
      modify (λ a. a.id) T alert_id (http 404 "Not Found")
        (λ alert. ok (record alert { status = "acknowledged" })) s
  ok ("acknowledged", t)

-- body.get("data", {}).get("events", [])
abbrev pub events_of : IngestBody → List Event
events_of body = get_or (get_or body.payload_data none) []

-- evt.get("severity", "info") in ("critical", "high", "medium")
abbrev pub is_alarming : Event → Bool
is_alarming evt = contains ("critical" ∷ "high" ∷ "medium" ∷ []) (get_or evt.severity "info")

module _ (fresh : ℕ → String) (date : String) where
  abbrev pub event_alert : Option String → ℕ → Event → Alert
  event_alert device_id n evt = record {
    id = fresh n;
    device_id = device_id;
    severity = get_or evt.severity "info";
    category = get_or evt.event_type "agent";
    title = get_or evt.title "Agent event";
    description = none;
    status = "open";
    source = some "agent";
    evidence = none;
    mitre_tactic = none;
    mitre_technique = none;
    created_at = date;
  }

  -- The loop over the events, after `created` of them became alerts.
  unfoldable pub created_alerts : Option String → (created : ℕ) → List Event → List Alert
  created_alerts device_id created [] = []
  created_alerts device_id created (evt ∷ events) =
      let taken = created_alerts device_id (suc created) events in
      let skipped = created_alerts device_id created events in
      if is_alarming evt then event_alert device_id created evt ∷ taken else skipped

  unfoldable pub ingest_telemetry :
      (T : Table Alert) → IngestBody → T.Store → Result (IngestResponse × T.Store)
  ingest_telemetry T body s =
      let alerts = created_alerts body.device_id 0 (events_of body) in
      (add_all T alerts s >>= λ t. ok (
        record {
          status = "ingested";
          events = length (events_of body);
          alerts_created = length alerts;
        },
        t,
      ))

unfoldable pub list_policies : (T : Table Policy) → T.Store → Listed PolicyResponse
list_policies T s = listed (map policy_response (T.rows s))

unfoldable pub list_investigations : (T : Table Investigation) → T.Store → List InvestigationSummary
list_investigations T s = map investigation_summary (T.rows s)

unfoldable pub create_investigation :
    (id date : String) (T : Table Investigation)
    → InvestigationBody
    → T.Store
    → Result (InvestigationCreated × T.Store)
create_investigation id date T body s = do
  title ← found (raised "KeyError") body.title
  t ← flush (
      T.add
        (record {
          id = id;
          title = title;
          description = body.description;
          status = "open";
          priority = get_or body.priority "medium";
          timeline = "[]";
          findings = none;
          created_at = date;
        })
        s)
  ok (record { id = id; title = title; status = "open" }, t)

-- `order` is ORDER BY created_at DESC.
unfoldable pub audit_log :
    (order : List AuditLog → List AuditLog) (T : Table AuditLog) → T.Store → List AuditLogResponse
audit_log order T s = map audit_log_response (order (T.rows s))

-- The numbers of the text.
unfoldable pub metrics : (D : Table Device) (A : Table Alert) → D.Store → A.Store → Metrics
metrics D A d a = record {
  devices = length (D.rows d);
  online = length (filter (λ x. x.status == "online") (D.rows d));
  alerts = length (A.rows a);
  open_alerts = length (filter (λ x. x.status == "open") (A.rows a));
}

-- ws_alerts with the texts up to the disconnection: the pongs, and the clients afterwards.
abbrev pub pongs : List String → ℕ
pongs [] = 0
pongs (text ∷ texts) =
    let rest = pongs texts in if is_substring "\"ping\"" text then suc rest else rest

unfoldable pub ws_alerts : (ws : ℕ) → List String → (ws_clients : List ℕ) → ℕ × List ℕ
ws_alerts ws texts ws_clients =
    let joined = if any (nat_eq ws) ws_clients then ws_clients else ws_clients ++ ws ∷ [] in
    (pongs texts, filter (λ c. not (nat_eq c ws)) joined)
