-- ===== src/Compliance.antt =====
-- backend/app/services/compliance_service.py, backend/app/api/v1/compliance.py,
-- backend/app/models/audit_log.py and the signatures of backend/app/core/security.py.
-- HMAC-SHA256 and the writing of JSON are parameters.
pub mod Signatures
use guardian_pi.Base.{
  ℕ, ◌-◌, ◌*◌, String, ◌≡◌, Bool, List, [], ◌∷◌, Option, none, some, map, filter, length, ◌==◌,
  if◌then◌else◌, leb, ◌&&◌,
}
use guardian_pi.Http.{Error, Result, ok, err, http, require, ◌>>=◌, ◌>>◌}
use guardian_pi.Db.{Uuid, Json, Table, flush, fetch}
use guardian_pi.Pages.{where_eq, paginate}
use guardian_pi.Models.{User, Device, Alert, Time}
use guardian_pi.Deps.{require_role}

pub record AuditLog : Type 0 where
  pub id : Uuid
  pub user_id : Option Uuid
  pub device_id : Option Uuid
  pub action : String
  pub category : String
  pub details : Option Json
  pub ip_address : Option String
  pub user_agent : Option String
  pub hmac_signature : String
  pub previous_hash : Option String
  pub created_at : Time

-- What is signed: the dict that is written with sorted keys.
pub record Entry : Type 0 where
  pub action : String
  pub category : String
  pub user_id : Option Uuid
  pub device_id : Option Uuid
  pub details : Option Json
  pub timestamp : Time

-- hmac.new(secret, text, sha256).hexdigest(), hmac.compare_digest, and json.dumps(.., sort_keys=True)
pub record Signer : Type 0 where
  pub hmac : (secret text : String) → String
  pub compare_digest : String → String → Bool
  pub dumps : Entry → String
  pub secret_key : String

-- The arguments of create_audit_entry.
pub record Action : Type 0 where
  pub action : String
  pub category : String
  pub user_id : Option Uuid
  pub device_id : Option Uuid
  pub details : Option Json
  pub ip_address : Option String
  pub user_agent : Option String

-- The entry that is signed at a time.
abbrev pub signed_entry : Time → Action → Entry
signed_entry now a = record {
  action = a.action;
  category = a.category;
  user_id = a.user_id;
  device_id = a.device_id;
  details = a.details;
  timestamp = now;
}

module _ (S : Signer) where
  unfoldable pub sign_audit_entry : (entry_data : String) → String
  sign_audit_entry entry_data = S.hmac S.secret_key entry_data

  unfoldable pub verify_audit_signature : (entry_data signature : String) → Bool
  unfolding sign_audit_entry
  verify_audit_signature entry_data signature =
      S.compare_digest (sign_audit_entry entry_data) signature

  -- `now` is the time of the signature, `later` the default of created_at, at the flush.
  abbrev pub created_log : (id : Uuid) (now later : Time) → Action → AuditLog
  created_log id now later a = record {
    id = id;
    user_id = a.user_id;
    device_id = a.device_id;
    action = a.action;
    category = a.category;
    details = a.details;
    ip_address = a.ip_address;
    user_agent = a.user_agent;
    hmac_signature = sign_audit_entry (S.dumps (signed_entry now a));
    previous_hash = none;
    created_at = later;
  }

  unfoldable pub create_audit_entry :
      (T : Table AuditLog) (id : Uuid) (now later : Time)
      → Action
      → T.Store
      → Result (AuditLog × T.Store)
  create_audit_entry T id now later a s =
      let log = created_log id now later a in (flush (T.add log s) >>= λ t. ok (log, t))

pub record AuditLogResponse : Type 0 where
  pub id : String
  pub action : String
  pub category : String
  pub details : Option Json
  pub ip_address : Option String
  pub hmac_signature : String
  pub created_at : Time

pub record AuditLogPage : Type 0 where
  pub logs : List AuditLogResponse
  pub total : ℕ
  pub page : ℕ

abbrev pub log_response : AuditLog → AuditLogResponse
log_response l = record {
  id = l.id;
  action = l.action;
  category = l.category;
  details = l.details;
  ip_address = l.ip_address;
  hmac_signature = l.hmac_signature;
  created_at = l.created_at;
}

-- `order` is ORDER BY created_at DESC.
unfoldable pub get_audit_log :
    (order : List AuditLog → List AuditLog) (T : Table AuditLog)
    → Result User
    → (page page_size : ℕ) → (action_filter : Option String) → T.Store
    → Result AuditLogPage
get_audit_log order T current_user page page_size action_filter s = do
  user ← current_user
  require_role ("admin" ∷ []) user
  require (leb 1 page && leb 1 page_size && leb page_size 500) (http 422 "Unprocessable Entity")
  let query = where_eq (λ l. l.action) action_filter (order (T.rows s))
  ok (record {
    logs = map log_response (paginate page page_size query);
    total = length query;
    page = page;
  })

-- The answer: the device's data and the counts, or {"error": "Device not found"}.
pub data GdprExport : Type 0 where
  not_found : GdprExport
  export :
      (id : Uuid) (hostname os_type : String) (registered_at : Time) (alerts_count scans_count : ℕ)
      → GdprExport

-- The ids of the devices of the scan results are all that is read of that table.
unfoldable pub gdpr_export :
    (device_id : Uuid)
    → Result User
    → List Device
    → List Alert
    → (scans : List Uuid) → Result GdprExport
gdpr_export device_id current_user devices alerts scans = do
  user ← current_user
  require_role ("admin" ∷ []) user
  device ← fetch (λ d. d.id) device_id devices
  ok (exported device)
  where
    exported : Option Device → GdprExport
    exported none = not_found
    exported (some device) =
        export device.id device.hostname device.os_type device.registered_at
          (length (filter (λ a. a.device_id == device_id) alerts))
          (length (filter (λ d. d == device_id) scans))
