-- ===== src/Local/Tables.antt =====
-- The models of run_local.py. A date is its text, and so is a JSON value.
use guardian_pi.Base.{String, Bool, List, [], ◌∷◌, Option}
use guardian_pi.Base.{ℕ}
use guardian_pi.Http.{Result, ok, ◌>>=◌}
use guardian_pi.Db.{Table, flush}

pub record User : Type 0 where
  pub id : String
  pub email : String
  pub password_hash : String
  pub full_name : String
  pub role : String
  pub is_active : Bool
  pub last_login : Option String
  pub created_at : String

pub record Device : Type 0 where
  pub id : String
  pub hostname : String
  pub os_type : String
  pub os_version : String
  pub architecture : String
  pub cpu_model : Option String
  pub cpu_cores : ℕ
  pub ram_mb : ℕ
  pub storage_gb : Option ℕ
  pub agent_version : String
  pub status : String
  pub is_rooted : Bool
  pub is_virtual : Bool
  pub ip_address : Option String
  pub last_heartbeat : Option String
  pub registered_at : String
  pub metadata_json : Option String

pub record Alert : Type 0 where
  pub id : String
  pub device_id : Option String
  pub severity : String
  pub category : String
  pub title : String
  pub description : Option String
  pub status : String
  pub source : Option String
  pub evidence : Option String
  pub mitre_tactic : Option String
  pub mitre_technique : Option String
  pub created_at : String

pub record AuditLog : Type 0 where
  pub id : String
  pub action : String
  pub category : String
  pub details : Option String
  pub hmac_signature : String
  pub created_at : String

pub record Policy : Type 0 where
  pub id : String
  pub name : String
  pub description : Option String
  pub category : String
  pub rules : String
  pub severity : String
  pub is_enabled : Bool
  pub target_os : String
  pub created_at : String

pub record Investigation : Type 0 where
  pub id : String
  pub title : String
  pub description : Option String
  pub status : String
  pub priority : String
  pub timeline : String
  pub findings : Option String
  pub created_at : String

-- The tables of the SQLite database.
pub record Schema : Type 1 where
  pub users : Table User
  pub devices : Table Device
  pub alerts : Table Alert
  pub audit_logs : Table AuditLog
  pub policies : Table Policy
  pub investigations : Table Investigation

-- db.add of each row, in order, and their flush at the latest with the commit.
unfoldable pub add_all : {Row : Type 0} (T : Table Row) → List Row → T.Store → Result T.Store
add_all T [] s = ok s
add_all T (row ∷ rows) s = do t ← flush (T.add row s); add_all T rows t
