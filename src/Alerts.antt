-- ===== src/Alerts.antt =====
-- backend/app/api/v1/alerts.py and backend/app/schemas/alert.py.
pub mod Lifecycle
pub mod Stats
use Prim.Native.String.{count}
use guardian_pi.Base.{
  ℕ, String, Bool, true, false, not, ◌&&◌, List, [], ◌∷◌, Option, none, some, leb, length, filter,
  contains, ◌==◌, if◌then◌else◌,
}
use guardian_pi.Http.{Result, ok, err, http, raised, require, ◌>>=◌, ◌>>◌}
use guardian_pi.Db.{Uuid, Json, Table, flush, modify, with_store}
use guardian_pi.Schemas.{Pydantic, AlertResponse, alert_response}
use guardian_pi.Models.{Alert, User, Time}
use guardian_pi.Deps.{Security, uuid, validate_agent_api_key, require_role}
use guardian_pi.Pages.{where_eq, ListResponse, list_page}

pub record AlertCreate : Type 0 where
  pub device_id : String
  pub severity : String
  pub category : String
  pub title : String
  pub description : Option String
  pub evidence : Option Json
  pub source : Option String
  pub mitre_tactic : Option String
  pub mitre_technique : Option String

abbrev pub severities : List String
severities = "critical" ∷ "high" ∷ "medium" ∷ "low" ∷ "info" ∷ []

unfoldable pub create_valid : AlertCreate → Bool
create_valid r =
    contains severities r.severity && leb (count r.category) 100 && leb (count r.title) 500

pub record AlertUpdateRequest : Type 0 where
  pub status : String
  pub resolution_note : Option String

unfoldable pub update_valid : AlertUpdateRequest → Bool
update_valid r = contains ("acknowledged" ∷ "resolved" ∷ "false_positive" ∷ []) r.status

pub record AlertStats : Type 0 where
  pub total : ℕ
  pub critical : ℕ
  pub high : ℕ
  pub medium : ℕ
  pub low : ℕ
  pub info : ℕ
  pub open_count : ℕ
  pub resolved_count : ℕ

-- (await db.execute(select(func.count(Row.id)).where(test))).scalar() or 0
abbrev pub count_where : {Row : Type 0} → (Row → Bool) → List Row → ℕ
count_where test rows = length (filter test rows)

module _ (sec : Security) (pydantic : Pydantic) (T : Table Alert) where
  abbrev pub new_alert : (id device_id : Uuid) (now : Time) → AlertCreate → Alert
  new_alert id device_id now r = record {
    id = id;
    device_id = device_id;
    severity = r.severity;
    category = r.category;
    title = r.title;
    description = r.description;
    evidence = r.evidence;
    status = "open";
    acknowledged_by = none;
    source = r.source;
    mitre_tactic = r.mitre_tactic;
    mitre_technique = r.mitre_technique;
    created_at = now;
    resolved_at = none;
  }

  unfoldable pub create_alert :
      (id : Uuid) (now : Time)
      → AlertCreate
      → Option String
      → T.Store
      → Result (AlertResponse × T.Store)
  create_alert id now request api_key s = do
    validate_agent_api_key sec api_key
    require (create_valid request) (http 422 "Unprocessable Entity")
    device_id ← uuid sec request.device_id
    t ← flush (T.add (new_alert id device_id now request) s)
    with_store (alert_response pydantic (new_alert id device_id now request)) t

  abbrev pub updated : Time → User → AlertUpdateRequest → Alert → Alert
  updated now user request alert = record alert {
    status = request.status;
    acknowledged_by = some user.id;
    resolved_at = if request.status == "resolved" then some now else alert.resolved_at;
  }

  unfoldable pub update_alert :
      (now : Time)
      → Uuid
      → AlertUpdateRequest
      → Result User
      → T.Store
      → Result (AlertResponse × T.Store)
  update_alert now alert_id request current_user s = do
    user ← current_user
    user ← require_role ("admin" ∷ "analyst" ∷ []) user
    require (update_valid request) (http 422 "Unprocessable Entity")
    (alert, t) ←
        modify (λ a. a.id) T alert_id (http 404 "Alert not found")
          (λ alert. ok (updated now user request alert)) s
    with_store (alert_response pydantic alert) t

  -- `if device_id: query = query.where(Alert.device_id == UUID(device_id))`
  abbrev pub where_device : Option String → List Alert → Result (List Alert)
  where_device none rows = ok rows
  where_device (some d) rows =
      if d == "" then ok rows else (uuid sec d >>= λ id. ok (filter (λ a. a.device_id == id) rows))

  -- `order` is ORDER BY created_at DESC.
  unfoldable pub list_alerts :
      (order : List Alert → List Alert)
      → Result User
      → (page page_size : ℕ) → (severity status_filter device_id : Option String) → T.Store
      → Result (ListResponse AlertResponse)
  list_alerts order current_user page page_size severity status_filter device_id s = do
    current_user
    query ← where_device device_id (
        where_eq (λ a. a.status) status_filter
          (where_eq (λ a. a.severity) severity (order (T.rows s))))
    list_page 200 (alert_response pydantic) page page_size query

  abbrev pub count_severity : String → List Alert → ℕ
  count_severity sev = count_where (λ a. a.severity == sev)

  unfoldable pub get_alert_stats : Result User → T.Store → Result AlertStats
  get_alert_stats current_user s = do
    current_user
    ok (record {
      total = length (T.rows s);
      critical = count_severity "critical" (T.rows s);
      high = count_severity "high" (T.rows s);
      medium = count_severity "medium" (T.rows s);
      low = count_severity "low" (T.rows s);
      info = count_severity "info" (T.rows s);
      open_count = count_where (λ a. a.status == "open") (T.rows s);
      resolved_count = count_where (λ a. a.status == "resolved") (T.rows s);
    })
