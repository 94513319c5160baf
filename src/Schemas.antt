-- ===== src/Schemas.antt =====
-- The responses of backend/app/schemas, and those of backend/app/api/v1/policies.py and
-- backend/app/api/v1/investigations.py: `model_validate` of a row, field by field. The framework
-- pydantic is a parameter; fields whose column has the declared type are taken over.
pub mod Refused
pub mod Reached
use guardian_pi.Base.{String, ℤ, Bool, List, Option, none, some}
use guardian_pi.Http.{Result, ok, err, raised, ◌>>=◌}
use guardian_pi.Db.{Uuid, Json}
use guardian_pi.Models.{
  Device, Alert, User, RemediationAction, Policy, Investigation, TimelineItem, Time,
}

-- What a field that is declared `str` can find in its attribute: a text, or a uuid.UUID.
pub data Attribute : Type 0 where
  text_of : String → Attribute
  uuid_of : Uuid → Attribute

pub record Pydantic : Type 0 where
  -- the validation of a field `str`, by default not strict
  pub str_field : Attribute → Result String

-- A field whose type does not admit None.
abbrev pub present : {A : Type 0} → Option A → Result A
present none = err (raised "ValidationError")
present (some value) = ok value

pub record DeviceResponse : Type 0 where
  pub id : String
  pub hostname : String
  pub os_type : String
  pub os_version : String
  pub architecture : String
  pub ram_mb : ℤ
  pub cpu_cores : ℤ
  pub agent_version : String
  pub status : String
  pub is_rooted : Bool
  pub is_virtual : Bool
  pub is_compatible : Bool
  pub ip_address : Option String
  pub last_heartbeat : Option Time
  pub registered_at : Time

pub record AlertResponse : Type 0 where
  pub id : String
  pub device_id : String
  pub severity : String
  pub category : String
  pub title : String
  pub description : Option String
  pub evidence : Option Json
  pub status : String
  pub source : Option String
  pub mitre_tactic : Option String
  pub mitre_technique : Option String
  pub created_at : Time
  pub resolved_at : Option Time

pub record UserResponse : Type 0 where
  pub id : String
  pub email : String
  pub full_name : String
  pub role : String
  pub is_active : Bool
  pub last_login : Option Time
  pub created_at : Time

pub record RemediationResponse : Type 0 where
  pub id : String
  pub device_id : String
  pub action_type : String
  pub status : String
  pub parameters : Option Json
  pub result_message : Option String
  pub is_automated : Bool
  pub created_at : Time
  pub completed_at : Option Time

pub record PolicyResponse : Type 0 where
  pub id : String
  pub name : String
  pub description : Option String
  pub category : String
  pub rules : Json
  pub severity : String
  pub is_enabled : Bool
  pub target_os : List String
  pub created_at : Time

-- Without updated_at, which the rows of the model do not have.
pub record InvestigationResponse : Type 0 where
  pub id : String
  pub title : String
  pub description : Option String
  pub status : String
  pub priority : String
  pub assignee_id : Option String
  pub alert_ids : Option (List String)
  pub device_ids : Option (List String)
  pub timeline : Option (List TimelineItem)
  pub findings : Option String
  pub mitre_tactics : Option (List String)
  pub created_at : Time
  pub closed_at : Option Time

module _ (pydantic : Pydantic) where
  unfoldable pub device_response : Device → Result DeviceResponse
  device_response d = do
    id ← pydantic.str_field (uuid_of d.id)
    ok (record {
      id = id;
      hostname = d.hostname;
      os_type = d.os_type;
      os_version = d.os_version;
      architecture = d.architecture;
      ram_mb = d.ram_mb;
      cpu_cores = d.cpu_cores;
      agent_version = d.agent_version;
      status = d.status;
      is_rooted = d.is_rooted;
      is_virtual = d.is_virtual;
      is_compatible = d.is_compatible;
      ip_address = d.ip_address;
      last_heartbeat = d.last_heartbeat;
      registered_at = d.registered_at;
    })

  unfoldable pub alert_response : Alert → Result AlertResponse
  alert_response a = do
    id ← pydantic.str_field (uuid_of a.id)
    device_id ← pydantic.str_field (uuid_of a.device_id)
    ok (record {
      id = id;
      device_id = device_id;
      severity = a.severity;
      category = a.category;
      title = a.title;
      description = a.description;
      evidence = a.evidence;
      status = a.status;
      source = a.source;
      mitre_tactic = a.mitre_tactic;
      mitre_technique = a.mitre_technique;
      created_at = a.created_at;
      resolved_at = a.resolved_at;
    })

  unfoldable pub user_response : User → Result UserResponse
  user_response u = do
    id ← pydantic.str_field (uuid_of u.id)
    ok (record {
      id = id;
      email = u.email;
      full_name = u.full_name;
      role = u.role;
      is_active = u.is_active;
      last_login = u.last_login;
      created_at = u.created_at;
    })

  unfoldable pub remediation_response : RemediationAction → Result RemediationResponse
  remediation_response a = do
    id ← pydantic.str_field (uuid_of a.id)
    device_id ← pydantic.str_field (uuid_of a.device_id)
    ok (record {
      id = id;
      device_id = device_id;
      action_type = a.action_type;
      status = a.status;
      parameters = a.parameters;
      result_message = a.result_message;
      is_automated = a.is_automated;
      created_at = a.created_at;
      completed_at = a.completed_at;
    })

  unfoldable pub policy_response : Policy → Result PolicyResponse
  policy_response p = do
    id ← pydantic.str_field (uuid_of p.id)
    rules ← present p.rules
    target_os ← present p.target_os
    ok (record {
      id = id;
      name = p.name;
      description = p.description;
      category = p.category;
      rules = rules;
      severity = p.severity;
      is_enabled = p.is_enabled;
      target_os = target_os;
      created_at = p.created_at;
    })

  -- A field `str | None`.
  abbrev optional_str : Option Uuid → Result (Option String)
  optional_str none = ok none
  optional_str (some id) = do text ← pydantic.str_field (uuid_of id); ok (some text)

  unfoldable pub investigation_response : Investigation → Result InvestigationResponse
  investigation_response i = do
    id ← pydantic.str_field (uuid_of i.id)
    assignee_id ← optional_str i.assignee_id
    ok (record {
      id = id;
      title = i.title;
      description = i.description;
      status = i.status;
      priority = i.priority;
      assignee_id = assignee_id;
      alert_ids = i.alert_ids;
      device_ids = i.device_ids;
      timeline = i.timeline;
      findings = i.findings;
      mitre_tactics = i.mitre_tactics;
      created_at = i.created_at;
      closed_at = i.closed_at;
    })
