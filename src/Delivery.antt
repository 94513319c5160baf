-- ===== src/Delivery.antt =====
-- agent/telemetry/sender.py and backend/app/api/v1/telemetry.py together: a flush of the agent's
-- queue as a request that the server answers, under backend/app/core/database.py's get_db.
pub mod Decrypt
pub mod Flush
use guardian_pi.Base.{ℕ, zero, suc, String, Bool, List, [], ◌∷◌, Option, none, some, ◌++◌, ◌==◌}
use guardian_pi.Http.{Error, Result, ok, err, http, raised}
use guardian_pi.Db.{Uuid, Table, get_db}
use guardian_pi.Models.{Alert, Time}
use guardian_pi.Deps.{Security}
use guardian_pi.Telemetry.{Event, Data, TelemetryPayload, ingest_telemetry}
use guardian_pi.Agent.Crypto.{Bytes, Primitives, Encrypted, ◌>>=◌, encrypt}
use guardian_pi.Agent.Sender.{Outcome, responded, finish}

module _ (P : Primitives Data) where
  -- base64.b64decode(settings.TELEMETRY_ENCRYPTION_KEY), which raises on None
  abbrev pub setting_key : Option String → Option Bytes
  setting_key none = none
  setting_key (some text) = P.b64decode text

  -- The server's decryption of a payload; `none` is an exception.
  unfoldable pub server_decrypt :
      (telemetry_encryption_key : Option String) → (nonce encrypted_data tag : String) → Option Data
  server_decrypt telemetry_encryption_key nonce encrypted_data tag = do
    key ← setting_key telemetry_encryption_key
    nonce_bytes ← P.b64decode nonce
    ct ← P.b64decode encrypted_data
    tag_bytes ← P.b64decode tag
    aesgcm ← P.aesgcm key
    plaintext ← P.unseal aesgcm nonce_bytes (ct ++ tag_bytes)
    P.loads plaintext

  -- The body of the agent's request, with or without self.crypto.
  unfoldable pub body : (crypto : Option P.Key) → (nonce : Bytes) → List Event → TelemetryPayload
  body none nonce events = record {
    device_id = "self";
    encrypted_data = none;
    payload_data = some (some events);
    nonce = none;
    tag = none;
  }
  body (some aesgcm) nonce events =
      let encrypted = encrypt P aesgcm nonce (some events) in
      record {
        device_id = "self";
        encrypted_data = some encrypted.encrypted_data;
        payload_data = none;
        nonce = some encrypted.nonce;
        tag = some encrypted.tag;
      }

-- The status that a client sees of an endpoint whose success has status 202.
abbrev pub status_of {ℓ} : {R : Type ℓ} → Result R → ℕ
status_of (ok response) = 202
status_of (err (http status_code detail)) = status_code
status_of (err (raised exception)) = 500

-- A server: its settings, its table of alerts, and the commit of a session.
pub record Server : Type 1 where
  pub security : Security
  pub telemetry_encryption_key : Option String
  pub is_development : Bool
  pub alerts : Table Alert
  pub commit : alerts.Store → Option alerts.Store

module _ (P : Primitives Data) (S : Server) (fresh : ℕ → Uuid) (now : Time) where
  unfoldable pub post_telemetry :
      TelemetryPayload → (api_key : Option String) → S.alerts.Store → ℕ × S.alerts.Store
  post_telemetry payload api_key s =
      let (response, t) =
        get_db S.commit
          (ingest_telemetry S.security (server_decrypt P S.telemetry_encryption_key)
            S.is_development fresh now S.alerts payload api_key)
          s in
      (status_of response, t)

  -- A flush during which nothing is queued: the queue and the server's store after it.
  unfoldable pub flush_queue :
      (api_key : String) (crypto : Option P.Key) (nonce : Bytes)
      → List Event × S.alerts.Store
      → List Event × S.alerts.Store
  flush_queue api_key crypto nonce ([], s) = ([], s)
  flush_queue api_key crypto nonce (event ∷ rest, s) =
      let events = event ∷ rest in
      let (status_code, t) = post_telemetry (body P crypto nonce events) (some api_key) s in
      (finish (responded status_code) events [], t)

  -- The loop of the flushes, each with a nonce of its own, while nothing else is queued.
  unfoldable pub flush_times :
      (api_key : String) (crypto : Option P.Key)
      → List Bytes
      → List Event × S.alerts.Store
      → List Event × S.alerts.Store
  flush_times api_key crypto [] q = q
  flush_times api_key crypto (nonce ∷ nonces) q =
      flush_times api_key crypto nonces (flush_queue api_key crypto nonce q)
