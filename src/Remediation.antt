-- ===== src/Remediation.antt =====
-- backend/app/api/v1/remediation.py and its requests in backend/app/schemas/telemetry.py.
pub mod Rollback
use guardian_pi.Base.{
  String, ◌<>◌, Bool, false, List, [], ◌∷◌, Option, none, some, contains, ◌==◌, if◌then◌else◌,
}
use guardian_pi.Http.{Result, ok, err, http, require, ◌>>=◌, ◌>>◌}
use guardian_pi.Db.{Uuid, Json, Table, flush, modify, with_store}
use guardian_pi.Schemas.{Pydantic, RemediationResponse, remediation_response}
use guardian_pi.Models.{RemediationAction, User, Time}
use guardian_pi.Deps.{Security, uuid, require_role}

pub record RemediationRequest : Type 0 where
  pub device_id : String
  pub action_type : String
  pub parameters : Json
  pub alert_id : Option String

unfoldable pub request_valid : RemediationRequest → Bool
request_valid r =
    contains
      ("quarantine_process" ∷ "block_ip" ∷ "disable_service" ∷ "isolate_endpoint" ∷ "kill_process"
        ∷ [])
      r.action_type

-- UUID(text) if text else None
abbrev pub optional_uuid : Security → Option String → Result (Option Uuid)
optional_uuid sec none = ok none
optional_uuid sec (some text) =
    if text == "" then ok none else (uuid sec text >>= λ id. ok (some id))

module _ (sec : Security) (pydantic : Pydantic) (T : Table RemediationAction) where
  abbrev pub new_action :
      (id device_id : Uuid) (alert_id : Option Uuid) (now : Time)
      → User
      → RemediationRequest
      → RemediationAction
  new_action id device_id alert_id now user r = record {
    id = id;
    device_id = device_id;
    alert_id = alert_id;
    initiated_by = some user.id;
    action_type = r.action_type;
    status = "pending";
    parameters = some r.parameters;
    rollback_data = none;
    result_message = none;
    is_automated = false;
    created_at = now;
    completed_at = none;
  }

  unfoldable pub create_remediation :
      (id : Uuid) (now : Time)
      → RemediationRequest
      → Result User
      → T.Store
      → Result (RemediationResponse × T.Store)
  create_remediation id now request current_user s = do
    user ← current_user
    user ← require_role ("admin" ∷ []) user
    require (request_valid request) (http 422 "Unprocessable Entity")
    device_id ← uuid sec request.device_id
    alert_id ← optional_uuid sec request.alert_id
    t ← flush (T.add (new_action id device_id alert_id now user request) s)
    with_store (remediation_response pydantic (new_action id device_id alert_id now user request)) t

  abbrev pub rolled_back : (reason : String) → RemediationAction → Result RemediationAction
  rolled_back reason action =
      if action.status == "completed"
      then ok (record action {
        status = "rolled_back";
        result_message = some ("Rolled back: " <> reason);
      })
      else err (http 400 "Can only rollback completed actions")

  unfoldable pub rollback_action :
      Uuid → (reason : String) → Result User → T.Store → Result (RemediationResponse × T.Store)
  rollback_action action_id reason current_user s = do
    user ← current_user
    require_role ("admin" ∷ []) user
    (action, t) ←
        modify (λ a. a.id) T action_id (http 404 "Remediation action not found")
          (rolled_back reason) s
    with_store (remediation_response pydantic action) t
