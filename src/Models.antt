-- ===== src/Models.antt =====
-- The rows of the database: backend/app/models, and the models that the routers of policies and
-- investigations declare themselves. A time is a number of seconds.
-- The columns updated_at, which SQLAlchemy sets by itself, are left out.
use guardian_pi.Base.{ℕ, ℤ, String, Bool, List, Option}
use guardian_pi.Db.{Uuid, Json}

abbrev pub Time : Type 0
Time = ℕ

pub record User : Type 0 where
  pub id : Uuid
  pub email : String
  pub password_hash : String
  pub full_name : String
  pub role : String
  pub is_active : Bool
  pub last_login : Option Time
  pub created_at : Time
  pub mfa_secret : Option String

pub record Device : Type 0 where
  pub id : Uuid
  pub hostname : String
  pub os_type : String
  pub os_version : String
  pub architecture : String
  pub ram_mb : ℤ
  pub cpu_cores : ℤ
  pub cpu_model : Option String
  pub storage_gb : Option ℤ
  pub agent_version : String
  pub status : String
  pub is_rooted : Bool
  pub is_virtual : Bool
  pub is_compatible : Bool
  pub ip_address : Option String
  pub mac_address : Option String
  pub api_key_hash : Option String
  pub last_heartbeat : Option Time
  pub registered_at : Time
  pub metadata_json : Option (List (String × Json))

pub record Alert : Type 0 where
  pub id : Uuid
  pub device_id : Uuid
  pub severity : String
  pub category : String
  pub title : String
  pub description : Option String
  pub evidence : Option Json
  pub status : String
  pub acknowledged_by : Option Uuid
  pub source : Option String
  pub mitre_tactic : Option String
  pub mitre_technique : Option String
  pub created_at : Time
  pub resolved_at : Option Time

pub record RemediationAction : Type 0 where
  pub id : Uuid
  pub device_id : Uuid
  pub alert_id : Option Uuid
  pub initiated_by : Option Uuid
  pub action_type : String
  pub status : String
  pub parameters : Option Json
  pub rollback_data : Option Json
  pub result_message : Option String
  pub is_automated : Bool
  pub created_at : Time
  pub completed_at : Option Time

-- An entry of an investigation's timeline.
pub record TimelineItem : Type 0 where
  pub action : String
  pub content : String
  pub metadata : Option Json
  pub user : String
  pub timestamp : Time

pub record Investigation : Type 0 where
  pub id : Uuid
  pub title : String
  pub description : Option String
  pub status : String
  pub priority : String
  pub assignee_id : Option Uuid
  pub alert_ids : Option (List String)
  pub device_ids : Option (List String)
  pub timeline : Option (List TimelineItem)
  pub findings : Option String
  pub mitre_tactics : Option (List String)
  pub created_by : Option Uuid
  pub created_at : Time
  pub closed_at : Option Time

pub record Policy : Type 0 where
  pub id : Uuid
  pub name : String
  pub description : Option String
  pub category : String
  pub rules : Option Json
  pub severity : String
  pub is_enabled : Bool
  pub target_os : Option (List String)
  pub created_by : Option Uuid
  pub created_at : Time
