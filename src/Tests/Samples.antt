-- ===== src/Tests/Samples.antt =====
-- A small world for the tests: a security library, users, devices, alerts and the other rows.
use guardian_pi.Base.{String, refl, pos, ◌≡◌, true, false, [], ◌∷◌, none, some, ◌==◌, if◌then◌else◌}
use guardian_pi.Http.{Result, ok, err, raised}
use guardian_pi.Schemas.{Pydantic, Attribute, text_of, uuid_of}
use guardian_pi.Schemas.Refused.{IsPydantic}
use guardian_pi.Models.{User, Device, Alert, RemediationAction, Investigation, Policy, Time}
use guardian_pi.Deps.{Security, Claims}

abbrev pub alice_claims : Claims
alice_claims = record {
  sub = some "u1";
  role = some "admin";
  type = some "access";
  iat = 0;
  exp = 1800;
  jti = "j";
}

-- One token is valid, "token"; what is issued expires at once. "self" is no UUID.
abbrev pub sec : Security
sec = record {
  encode = λ c. "issued";
  decode = λ now t. if t == "token" then some alice_claims else none;
  hashpw = λ p. p;
  checkpw = λ p h. p == h;
  compare_digest = λ a b. a == b;
  parse_uuid = λ s. if s == "self" then none else some s;
  agent_api_keys = "key" ∷ [];
  jwt_access_token_expire_minutes = 30;
  jwt_refresh_token_expire_minutes = 1440;
}

pub encode-decode : (t : Time) (c d : Claims) → sec.decode t (sec.encode c) ≡ some d → d ≡ c
encode-decode t c d h = absurd (cc)

abbrev pub alice : User
alice = record {
  id = "u1";
  email = "alice@example.com";
  password_hash = "correct horse";
  full_name = "Alice";
  role = "admin";
  is_active = true;
  last_login = none;
  created_at = 0;
  mfa_secret = none;
}

abbrev pub laptop : Device
laptop = record {
  id = "d1";
  hostname = "laptop";
  os_type = "linux";
  os_version = "6";
  architecture = "x86_64";
  ram_mb = pos 8192;
  cpu_cores = pos 4;
  cpu_model = none;
  storage_gb = some (pos 100);
  agent_version = "1";
  status = "online";
  is_rooted = false;
  is_virtual = false;
  is_compatible = true;
  ip_address = none;
  mac_address = none;
  api_key_hash = none;
  last_heartbeat = none;
  registered_at = 0;
  metadata_json = none;
}

abbrev pub open_alert : Alert
open_alert = record {
  id = "a1";
  device_id = "d1";
  severity = "critical";
  category = "malware";
  title = "Mimikatz";
  description = none;
  evidence = none;
  status = "open";
  acknowledged_by = none;
  source = none;
  mitre_tactic = none;
  mitre_technique = none;
  created_at = 0;
  resolved_at = none;
}

abbrev pub block : RemediationAction
block = record {
  id = "r1";
  device_id = "d1";
  alert_id = none;
  initiated_by = some "u1";
  action_type = "block_ip";
  status = "completed";
  parameters = some "{}";
  rollback_data = none;
  result_message = none;
  is_automated = false;
  created_at = 0;
  completed_at = some 1;
}

abbrev pub case : Investigation
case = record {
  id = "i1";
  title = "Case";
  description = none;
  status = "closed";
  priority = "high";
  assignee_id = none;
  alert_ids = none;
  device_ids = none;
  timeline = none;
  findings = some "none";
  mitre_tactics = none;
  created_by = some "u1";
  created_at = 0;
  closed_at = some 1;
}

abbrev pub usb_policy : Policy
usb_policy = record {
  id = "p1";
  name = "USB";
  description = none;
  category = "usb";
  rules = some "{}";
  severity = "high";
  is_enabled = true;
  target_os = some ("linux" ∷ []);
  created_by = some "u1";
  created_at = 0;
}

-- As pydantic 2 documents it.
abbrev str_field : Attribute → Result String
str_field (text_of text) = ok text
str_field (uuid_of id) = err (raised "ValidationError")

abbrev pub pydantic : Pydantic
pydantic = record { str_field = str_field }

pub pydantic-IsPydantic : IsPydantic pydantic
pydantic-IsPydantic = record { refuses = λ id. refl }
