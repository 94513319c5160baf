-- ===== src/Tests/Intake.antt =====
-- The intake of telemetry at concrete inputs.
use guardian_pi.Base.{
  ℕ, String, ◌≡◌, refl, true, List, [], ◌∷◌, ◌++◌, Option, none, some, filter, All, get_or, length,
}
use guardian_pi.Http.{ok}
use guardian_pi.Db.{Table}
use guardian_pi.Db.Memory.{memory, memory-IsLawful}
use guardian_pi.Models.{Alert}
use guardian_pi.Deps.{validate_agent_api_key, validate_api_key}
use guardian_pi.Telemetry.{
  Event, Data, TelemetryPayload, IngestResponse, is_alarming, read, event_alert, pending_alerts,
  flush_all, ingest_telemetry,
}
use guardian_pi.Telemetry.Ingest.{IsTelemetryAlert, ingest_telemetry-eq-ok}
use guardian_pi.Tests.Samples.{sec}

abbrev alerts : Table Alert
alerts = memory (λ a. a.id)

abbrev alarm : Event
alarm = record {
  event_type = some "process_alert";
  severity = some "high";
  title = some "Process";
  description = none;
  details = none;
}

abbrev calm : Event
calm = record alarm { severity = some "info" }

abbrev payload : String → TelemetryPayload
payload device_id = record {
  device_id = device_id;
  encrypted_data = none;
  payload_data = some (some (alarm ∷ calm ∷ []));
  nonce = none;
  tag = none;
}

abbrev sealed : (nonce encrypted tag : String) → Option Data
sealed nonce encrypted tag = none

abbrev fresh : ℕ → String
fresh n = "a9"

abbrev first_alert : Alert
first_alert = event_alert sec sealed true fresh 5 "d1" 0 alarm

abbrev answer : IngestResponse
answer = record { status = "accepted"; events_processed = 2; alerts_created = 1 }

ingested :
    ingest_telemetry sec sealed true fresh 5 alerts (payload "d1") (some "key") []
    ≡ ok (answer, first_alert ∷ [])
unfolding ingest_telemetry validate_agent_api_key validate_api_key pending_alerts flush_all
ingested = refl

ingest_telemetry-eq-ok_example :
    (found : Data) × (new : List Alert) × (read sec sealed true fresh 5 (payload "d1") ≡ ok found)
    × (answer.events_processed ≡ length (get_or found []))
    × (answer.alerts_created ≡ length (filter is_alarming (get_or found [])))
    × (first_alert ∷ [] ≡ [] ++ new)
    × (length new ≡ answer.alerts_created)
    × All IsTelemetryAlert new
ingest_telemetry-eq-ok_example =
    ingest_telemetry-eq-ok sec sealed true fresh 5 alerts (payload "d1") (some "key") []
      (first_alert ∷ []) answer (memory-IsLawful (λ a. a.id)) ingested

key_valid : validate_agent_api_key sec (some "key") ≡ ok "key"
unfolding validate_agent_api_key validate_api_key
key_valid = refl
