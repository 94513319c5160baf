-- ===== src/Local/Seed.antt =====
-- run_local.py: seed_data, which fills an empty database at the start of the server.
pub mod Data
pub mod Again
use guardian_pi.Base.{
  ℕ, zero, suc, ◌+◌, String, Bool, true, false, List, [], ◌∷◌, Option, none, some, map, filter,
  lookup, insert, ◌==◌, if◌then◌else◌,
}
use guardian_pi.Http.{Result, ok, ◌>>=◌}
use guardian_pi.Db.{Table, flush, scalar_one_or_none}
use guardian_pi.Local.Tables.{User, Device, Alert, AuditLog, Policy, Schema, add_all}
use guardian_pi.Local.Seed.Data.{
  SeedDevice, SeedAlert, SeedPolicy, devices_data, alerts_data, policies_data,
}

-- The stores of the tables that seed_data uses.
pub record State (S : Schema) : Type 0 where
  pub users : S.users.Store
  pub devices : S.devices.Store
  pub alerts : S.alerts.Store
  pub audit_logs : S.audit_logs.Store
  pub policies : S.policies.Store

-- `password_hash` is hash_pw("admin123456"), `fresh` the ids, and `date` the date of each row.
module _ (password_hash : String) (fresh : ℕ → String) (date : String) where
  abbrev pub admin : User
  admin = record {
    id = fresh 0;
    email = "admin@guardianpi.io";
    password_hash = password_hash;
    full_name = "Admin";
    role = "admin";
    is_active = true;
    last_login = none;
    created_at = date;
  }

  abbrev pub seeded_device : ℕ → SeedDevice → Device
  seeded_device n d = record {
    id = fresh n;
    hostname = d.hostname;
    os_type = d.os_type;
    os_version = d.os_version;
    architecture = d.architecture;
    cpu_model = some d.cpu_model;
    cpu_cores = d.cpu_cores;
    ram_mb = d.ram_mb;
    storage_gb = some d.storage_gb;
    agent_version = "2.0.0";
    status = d.status;
    is_rooted = false;
    is_virtual = false;
    ip_address = none;
    last_heartbeat = some date;
    registered_at = date;
    metadata_json = none;
  }

  -- The rows made of the tuples, with the ids from n on.
  abbrev pub seeded {ℓ} : {A : Type ℓ} {Row : Type 0} → (ℕ → A → Row) → ℕ → List A → List Row
  seeded f n [] = []
  seeded f n (x ∷ xs) = f n x ∷ seeded f (suc n) xs

  -- device_map: first None for each hostname of the data, then the ids of all rows.
  abbrev pub blank_map : List SeedDevice → List (String × Option String)
  blank_map [] = []
  blank_map (d ∷ ds) = insert d.hostname none (blank_map ds)

  abbrev pub device_map :
      List Device → List (String × Option String) → List (String × Option String)
  device_map [] found = found
  device_map (d ∷ ds) found = device_map ds (insert d.hostname (some d.id) found)

  -- device_map.get(dev_hn)
  abbrev pub device_id_of : Option (Option String) → Option String
  device_id_of none = none
  device_id_of (some id) = id

  abbrev pub seeded_alert : List (String × Option String) → ℕ → SeedAlert → Alert
  seeded_alert ids n a = record {
    id = fresh n;
    device_id = device_id_of (lookup a.hostname ids);
    severity = a.severity;
    category = a.category;
    title = a.title;
    description = some a.description;
    status = "open";
    source = some "agent";
    evidence = none;
    mitre_tactic = a.tactic;
    mitre_technique = a.technique;
    created_at = date;
  }

  abbrev pub seeded_policy : ℕ → SeedPolicy → Policy
  seeded_policy n p = record {
    id = fresh n;
    name = p.name;
    description = none;
    category = p.category;
    rules = p.rules;
    severity = p.severity;
    is_enabled = true;
    target_os = "[\"windows\",\"linux\",\"macos\"]";
    created_at = date;
  }

  abbrev pub startup_log : AuditLog
  startup_log = record {
    id = fresh 17;
    action = "system_startup";
    category = "system";
    details = some "{\"version\":\"2.0.0\"}";
    hmac_signature = "local";
    created_at = date;
  }

  module _ (S : Schema) (commit : State S → Option (State S)) where
    -- What follows if there is no administrator yet.
    unfoldable pub fill : State S → Result (State S)
    fill s = do
      users ← add_all S.users (admin ∷ []) s.users
      devices ← add_all S.devices (seeded seeded_device 1 devices_data) s.devices
      let ids = device_map (S.devices.rows devices) (blank_map devices_data)
      alerts ← add_all S.alerts (seeded (seeded_alert ids) 7 alerts_data) s.alerts
      policies ← add_all S.policies (seeded seeded_policy 14 policies_data) s.policies
      audit_logs ← add_all S.audit_logs (startup_log ∷ []) s.audit_logs
      flush (
          commit (record {
            users = users;
            devices = devices;
            alerts = alerts;
            audit_logs = audit_logs;
            policies = policies;
          }))

    abbrev pub unless_present : Option User → State S → Result (State S)
    unless_present none s = fill s
    unless_present (some user) s = ok s

    -- An exception leaves the database as it was.
    unfoldable pub seed_data : State S → Result (State S)
    seed_data s = do
      existing ←
          scalar_one_or_none (filter (λ u. u.email == "admin@guardianpi.io") (S.users.rows s.users))
      unless_present existing s
