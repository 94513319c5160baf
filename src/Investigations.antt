-- ===== src/Investigations.antt =====
-- backend/app/api/v1/investigations.py: cases with a timeline.
pub mod Timeline
use Prim.Native.String.{count}
use guardian_pi.Base.{
  ℕ, String, ◌<>◌, Bool, ◌&&◌, List, [], ◌∷◌, ◌++◌, Option, none, some, leb, contains, get_or,
  filter, length, ◌==◌, if◌then◌else◌,
}
use guardian_pi.Http.{Error, Result, ok, err, http, require, ◌>>=◌, ◌>>◌}
use guardian_pi.Db.{Uuid, Json, Table, flush, modify, fetch, found, with_store}
use guardian_pi.Schemas.{Pydantic, InvestigationResponse, investigation_response}
use guardian_pi.Models.{Investigation, TimelineItem, User, Time}
use guardian_pi.Deps.{require_role}
use guardian_pi.Pages.{where_eq, validate_all}

pub record InvestigationCreate : Type 0 where
  pub title : String
  pub description : Option String
  pub priority : String
  pub alert_ids : Option (List String)
  pub device_ids : Option (List String)
  pub mitre_tactics : Option (List String)

unfoldable pub create_valid : InvestigationCreate → Bool
create_valid r =
    leb (count r.title) 500 && contains ("critical" ∷ "high" ∷ "medium" ∷ "low" ∷ []) r.priority

pub record TimelineEntry : Type 0 where
  pub action : String
  pub content : String
  pub metadata : Option Json

module _ (pydantic : Pydantic) (T : Table Investigation) where
  abbrev pub new_investigation :
      (id : Uuid) (now : Time) → User → InvestigationCreate → Investigation
  new_investigation id now user r = record {
    id = id;
    title = r.title;
    description = r.description;
    status = "open";
    priority = r.priority;
    assignee_id = none;
    alert_ids = r.alert_ids;
    device_ids = r.device_ids;
    timeline = some (
        record {
          action = "created";
          content = "Investigation created by " <> user.email;
          metadata = none;
          user = user.email;
          timestamp = now;
        }
        ∷ []);
    findings = none;
    mitre_tactics = r.mitre_tactics;
    created_by = some user.id;
    created_at = now;
    closed_at = none;
  }

  unfoldable pub create_investigation :
      (id : Uuid) (now : Time)
      → InvestigationCreate
      → Result User
      → T.Store
      → Result (InvestigationResponse × T.Store)
  create_investigation id now request current_user s = do
    user ← current_user
    user ← require_role ("admin" ∷ "analyst" ∷ []) user
    require (create_valid request) (http 422 "Unprocessable Entity")
    t ← flush (T.add (new_investigation id now user request) s)
    with_store (investigation_response pydantic (new_investigation id now user request)) t

  -- `order` is ORDER BY created_at DESC.
  unfoldable pub list_investigations :
      (order : List Investigation → List Investigation)
      → Result User
      → (status_filter : Option String) → T.Store
      → Result (List InvestigationResponse × ℕ)
  list_investigations order current_user status_filter s = do
    current_user
    let query = where_eq (λ i. i.status) status_filter (order (T.rows s))
    investigations ← validate_all (investigation_response pydantic) query
    ok (investigations, length query)

  abbrev pub not_found : Error
  not_found = http 404 "Investigation not found"

  unfoldable pub get_investigation : Uuid → Result User → T.Store → Result InvestigationResponse
  get_investigation inv_id current_user s = do
    current_user
    inv ← fetch (λ i. i.id) inv_id (T.rows s)
    inv ← found not_found inv
    investigation_response pydantic inv

  -- timeline = list(inv.timeline or []); timeline.append(item)
  abbrev pub appended : TimelineItem → Investigation → Option (List TimelineItem)
  appended item inv = some (get_or inv.timeline [] ++ item ∷ [])

  abbrev pub with_entry : Time → User → TimelineEntry → Investigation → Investigation
  with_entry now user entry inv = record inv {
    timeline =
        appended
          (record {
            action = entry.action;
            content = entry.content;
            metadata = entry.metadata;
            user = user.email;
            timestamp = now;
          })
          inv;
    status = "in_progress";
  }

  unfoldable pub add_timeline_entry :
      (now : Time)
      → Uuid
      → TimelineEntry
      → Result User
      → T.Store
      → Result (InvestigationResponse × T.Store)
  add_timeline_entry now inv_id entry current_user s = do
    user ← current_user
    user ← require_role ("admin" ∷ "analyst" ∷ []) user
    (inv, t) ← modify (λ i. i.id) T inv_id not_found (λ inv. ok (with_entry now user entry inv)) s
    with_store (investigation_response pydantic inv) t

  abbrev pub assigned : Time → Uuid → Investigation → Investigation
  assigned now assignee_id inv = record inv { assignee_id = some assignee_id }

  unfoldable pub assign_investigation :
      (now : Time) → Uuid → (assignee_id : Uuid) → Result User → T.Store → Result (Uuid × T.Store)
  assign_investigation now inv_id assignee_id current_user s = do
    user ← current_user
    require_role ("admin" ∷ []) user
    (inv, t) ← modify (λ i. i.id) T inv_id not_found (λ inv. ok (assigned now assignee_id inv)) s
    ok (assignee_id, t)

  abbrev pub closed : Time → User → (findings : String) → Investigation → Investigation
  closed now user findings inv = record inv {
    status = "closed";
    findings = some findings;
    closed_at = some now;
    timeline =
        appended
          (record {
            action = "closed";
            content = "Investigation closed: " <> findings;
            metadata = none;
            user = user.email;
            timestamp = now;
          })
          inv;
  }

  unfoldable pub close_investigation :
      (now : Time) → Uuid → (findings : String) → Result User → T.Store → Result T.Store
  close_investigation now inv_id findings current_user s = do
    user ← current_user
    user ← require_role ("admin" ∷ "analyst" ∷ []) user
    (inv, t) ← modify (λ i. i.id) T inv_id not_found (λ inv. ok (closed now user findings inv)) s
    ok t
