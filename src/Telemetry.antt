-- ===== src/Telemetry.antt =====
-- backend/app/api/v1/telemetry.py: the ingestion of an agent's events.
pub mod Ingest
use guardian_pi.Base.{
  ℕ, suc, ◌+◌, String, Bool, true, false, List, [], ◌∷◌, Option, none, some, length, contains,
  get_or, ◌==◌, if◌then◌else◌,
}
use guardian_pi.Http.{Error, Result, ok, err, http, ◌>>=◌, ◌>>◌}
use guardian_pi.Db.{Uuid, Json, Table, flush}
use guardian_pi.Models.{Alert, Time}
use guardian_pi.Deps.{Security, uuid, is_text, validate_agent_api_key}

pub record Event : Type 0 where
  pub event_type : Option String
  pub severity : Option String
  pub title : Option String
  pub description : Option String
  pub details : Option Json

-- `data` and what is decrypted are dicts, of which the endpoint reads "events".
abbrev pub Data : Type 0
Data = Option (List Event)

-- The field `data`, with its timestamp left out; an empty dict, which is falsy, is `none` too.
pub record TelemetryPayload : Type 0 where
  pub device_id : String
  pub encrypted_data : Option String
  pub payload_data : Option Data
  pub nonce : Option String
  pub tag : Option String

pub record IngestResponse : Type 0 where
  pub status : String
  pub events_processed : ℕ
  pub alerts_created : ℕ

-- `if a:` for an optional text
abbrev pub is_given : Option String → Bool
is_given none = false
is_given (some s) = if s == "" then false else true

-- severity in ("critical", "high", "medium")
abbrev pub is_alarming : Event → Bool
is_alarming e = elim e.severity [
  | none ↦ false
  | some s ↦ contains ("critical" ∷ "high" ∷ "medium" ∷ []) s
]

-- db.add(alert) leaves the row pending; `pending` are the rows of this request so far.
module _ (sec : Security) (decrypt : (nonce encrypted tag : String) → Option Data)
    (is_development : Bool) (fresh : ℕ → Uuid) (now : Time) where
  -- The events of a payload. `decrypt` is base64, AES-GCM and JSON; `none` is any exception of them.
  abbrev pub decrypted : Option Data → Result Data
  decrypted none = err (http 400 "Decryption failed")
  decrypted (some d) = ok d

  abbrev pub plaintext : Option Data → Result Data
  plaintext none = err (http 400 "Encrypted payload required")
  plaintext (some d) = if is_development then ok d else err (http 400 "Encrypted payload required")

  abbrev pub read : TelemetryPayload → Result Data
  read p =
      if is_given p.encrypted_data
      then if is_given p.nonce
        then if is_given p.tag
          then decrypted
              (decrypt (get_or p.nonce "") (get_or p.encrypted_data "") (get_or p.tag ""))
          else plaintext p.payload_data
        else plaintext p.payload_data
      else plaintext p.payload_data

  abbrev pub event_alert : Uuid → ℕ → Event → Alert
  event_alert device_id n e = record {
    id = fresh n;
    device_id = device_id;
    severity = get_or e.severity "";
    category = get_or e.event_type "telemetry";
    title = get_or e.title "Telemetry Alert";
    description = e.description;
    evidence = e.details;
    status = "open";
    acknowledged_by = none;
    source = some "agent_telemetry";
    mitre_tactic = none;
    mitre_technique = none;
    created_at = now;
    resolved_at = none;
  }

  -- The loop over the events, after `n` of them were turned into pending rows.
  unfoldable pub pending_alerts : (device_id : String) → ℕ → List Event → Result (List Alert)
  pending_alerts device_id n [] = ok []
  pending_alerts device_id n (e ∷ events) =
      let here =
        (uuid sec device_id >>= λ id.
        pending_alerts device_id (suc n) events >>= λ rest. ok (event_alert id n e ∷ rest)) in
      let later = pending_alerts device_id n events in if is_alarming e then here else later

  module _ (T : Table Alert) where
    -- The flush at the end writes the pending rows in their order.
    unfoldable pub flush_all : List Alert → T.Store → Result T.Store
    flush_all [] s = ok s
    flush_all (a ∷ alerts) s = do t ← flush (T.add a s); flush_all alerts t

    unfoldable pub ingest_telemetry :
        TelemetryPayload → (api_key : Option String) → T.Store → Result (IngestResponse × T.Store)
    unfolding pending_alerts flush_all
    ingest_telemetry payload api_key s = do
      validate_agent_api_key sec api_key
      payload_events ← read payload
      let events = get_or payload_events []
      alerts ← pending_alerts payload.device_id 0 events
      t ← flush_all alerts s
      ok (
        record {
          status = "accepted";
          events_processed = length events;
          alerts_created = length alerts;
        },
        t,
      )
