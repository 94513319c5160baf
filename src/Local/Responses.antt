-- ===== src/Local/Responses.antt =====
-- The answers of the endpoints of run_local.py, and the JSON that they read.
use guardian_pi.Base.{ℕ, String, Bool, List, Option, length}
use guardian_pi.Telemetry.{Data}
use guardian_pi.Local.Tables.{Device, Alert, AuditLog, Policy, Investigation}

pub record DeviceResponse : Type 0 where
  pub id : String
  pub hostname : String
  pub os_type : String
  pub os_version : String
  pub architecture : String
  pub cpu_model : Option String
  pub cpu_cores : ℕ
  pub ram_mb : ℕ
  pub storage_gb : Option ℕ
  pub agent_version : String
  pub status : String
  pub is_rooted : Bool
  pub is_virtual : Bool
  pub last_heartbeat : Option String
  pub registered_at : String

pub record DeviceSummary : Type 0 where
  pub id : String
  pub hostname : String
  pub os_type : String
  pub status : String
  pub os_version : String
  pub cpu_model : Option String
  pub ram_mb : ℕ

-- A list and its length.
pub record Listed (R : Type 0) : Type 0 where
  pub items : List R
  pub total : ℕ

abbrev pub listed : {R : Type 0} → List R → Listed R
listed rs = record { items = rs; total = length rs }

abbrev pub device_response : Device → DeviceResponse
device_response d = record {
  id = d.id;
  hostname = d.hostname;
  os_type = d.os_type;
  os_version = d.os_version;
  architecture = d.architecture;
  cpu_model = d.cpu_model;
  cpu_cores = d.cpu_cores;
  ram_mb = d.ram_mb;
  storage_gb = d.storage_gb;
  agent_version = d.agent_version;
  status = d.status;
  is_rooted = d.is_rooted;
  is_virtual = d.is_virtual;
  last_heartbeat = d.last_heartbeat;
  registered_at = d.registered_at;
}

pub record AlertResponse : Type 0 where
  pub id : String
  pub device_id : Option String
  pub severity : String
  pub category : String
  pub title : String
  pub description : Option String
  pub status : String
  pub source : Option String
  pub mitre_tactic : Option String
  pub mitre_technique : Option String
  pub created_at : String

abbrev pub alert_response : Alert → AlertResponse
alert_response a = record {
  id = a.id;
  device_id = a.device_id;
  severity = a.severity;
  category = a.category;
  title = a.title;
  description = a.description;
  status = a.status;
  source = a.source;
  mitre_tactic = a.mitre_tactic;
  mitre_technique = a.mitre_technique;
  created_at = a.created_at;
}

-- The JSON of an ingestion: `data` has "events" or not.
pub record IngestBody : Type 0 where
  pub device_id : Option String
  pub payload_data : Option Data

pub record IngestResponse : Type 0 where
  pub status : String
  pub events : ℕ
  pub alerts_created : ℕ

pub record PolicyResponse : Type 0 where
  pub id : String
  pub name : String
  pub description : Option String
  pub category : String
  pub severity : String
  pub is_enabled : Bool
  pub created_at : String

abbrev pub policy_response : Policy → PolicyResponse
policy_response p = record {
  id = p.id;
  name = p.name;
  description = p.description;
  category = p.category;
  severity = p.severity;
  is_enabled = p.is_enabled;
  created_at = p.created_at;
}

pub record InvestigationSummary : Type 0 where
  pub id : String
  pub title : String
  pub status : String
  pub priority : String
  pub created_at : String

abbrev pub investigation_summary : Investigation → InvestigationSummary
investigation_summary i = record {
  id = i.id;
  title = i.title;
  status = i.status;
  priority = i.priority;
  created_at = i.created_at;
}

-- The JSON of a new investigation; body["title"] raises KeyError if it is missing.
pub record InvestigationBody : Type 0 where
  pub title : Option String
  pub description : Option String
  pub priority : Option String

pub record InvestigationCreated : Type 0 where
  pub id : String
  pub title : String
  pub status : String

pub record AuditLogResponse : Type 0 where
  pub id : String
  pub action : String
  pub category : String
  pub details : Option String
  pub created_at : String

abbrev pub audit_log_response : AuditLog → AuditLogResponse
audit_log_response l = record {
  id = l.id;
  action = l.action;
  category = l.category;
  details = l.details;
  created_at = l.created_at;
}

pub record Metrics : Type 0 where
  pub devices : ℕ
  pub online : ℕ
  pub alerts : ℕ
  pub open_alerts : ℕ
