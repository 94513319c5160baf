-- ===== src/Devices.antt =====
-- backend/app/api/v1/devices.py and backend/app/schemas/device.py.
pub mod Compatibility
pub mod Registry
use Prim.Native.String.{count}
use guardian_pi.Base.{
  ℕ, ◌-◌, ◌*◌, ℤ, pos, below, String, ◌<>◌, Bool, true, false, not, ◌&&◌, List, [], ◌∷◌, ◌++◌,
  Option, none, some, leb, ltb, nat_eq, length, map, lookup, insert, contains, get_or, ◌==◌,
  if◌then◌else◌,
}
use guardian_pi.Http.{Result, ok, err, http, require, ◌>>=◌, ◌>>◌}
use guardian_pi.Db.{Uuid, Json, Table, flush, fetch, found, modify, with_store}
use guardian_pi.Schemas.{Pydantic, DeviceResponse, device_response}
use guardian_pi.Models.{Device, User, Time}
use guardian_pi.Deps.{Security, validate_agent_api_key}
use guardian_pi.Pages.{where_eq, ListResponse, list_page}

pub record Requirements : Type 0 where
  pub min_ram_mb : ℕ
  pub min_storage_gb : ℕ
  pub architectures : List String

abbrev pub minimum_requirements : List (String × Requirements)
minimum_requirements =
    (
      "windows",
      record { min_ram_mb = 2048; min_storage_gb = 5; architectures = "x86_64" ∷ "arm64" ∷ [] },
    )
    ∷ (
      "linux",
      record {
        min_ram_mb = 512;
        min_storage_gb = 2;
        architectures = "x86_64" ∷ "arm64" ∷ "armv7l" ∷ [];
      },
    )
    ∷ (
      "macos",
      record { min_ram_mb = 4096; min_storage_gb = 5; architectures = "x86_64" ∷ "arm64" ∷ [] },
    )
    ∷ (
      "raspberrypi",
      record { min_ram_mb = 256; min_storage_gb = 2; architectures = "armv7l" ∷ "arm64" ∷ [] },
    )
    ∷ (
      "android",
      record { min_ram_mb = 2048; min_storage_gb = 1; architectures = "arm64" ∷ "armv7l" ∷ [] },
    )
    ∷ ("ios", record { min_ram_mb = 2048; min_storage_gb = 1; architectures = "arm64" ∷ [] })
    ∷ []

pub record CompatibilityCheckResponse : Type 0 where
  pub is_compatible : Bool
  pub issues : List String
  pub recommendations : List String

-- `if test: messages.append(message)`
abbrev pub append_if : Bool → String → List String → List String
append_if test message messages = if test then messages ++ message ∷ [] else messages

module _ (str : ℤ → String) where
  abbrev pub check_requirements : Requirements → String → ℤ → ℤ → CompatibilityCheckResponse
  check_requirements reqs architecture ram_mb storage_gb =
      let low_ram = below ram_mb reqs.min_ram_mb in
      let issues =
        append_if (below storage_gb reqs.min_storage_gb)
          ("Insufficient storage: "
            <> (str storage_gb <> ("GB (minimum " <> (str (pos reqs.min_storage_gb) <> "GB)"))))
          (append_if low_ram
            ("Insufficient RAM: "
              <> (str ram_mb <> ("MB (minimum " <> (str (pos reqs.min_ram_mb) <> "MB)"))))
            (append_if (not (contains reqs.architectures architecture))
              ("Unsupported architecture: " <> architecture) [])) in
      record {
        is_compatible = nat_eq (length issues) 0;
        issues = issues;
        recommendations = append_if low_ram "Upgrade device RAM" [];
      }

  -- `reqs` is what MINIMUM_REQUIREMENTS.get(os_type) returned.
  abbrev pub check_against :
      Option Requirements
      → (os_type architecture : String) (ram_mb storage_gb : ℤ) → CompatibilityCheckResponse
  check_against none os_type architecture ram_mb storage_gb = record {
    is_compatible = false;
    issues = ("Unsupported OS: " <> os_type) ∷ [];
    recommendations = "Use a supported platform" ∷ [];
  }
  check_against (some reqs) os_type architecture ram_mb storage_gb =
      check_requirements reqs architecture ram_mb storage_gb

  unfoldable pub check_compatibility :
      (os_type os_version architecture : String) (ram_mb storage_gb : ℤ)
      → CompatibilityCheckResponse
  check_compatibility os_type os_version architecture ram_mb storage_gb =
      check_against (lookup os_type minimum_requirements) os_type architecture ram_mb storage_gb

pub record DeviceRegisterRequest : Type 0 where
  pub hostname : String
  pub os_type : String
  pub os_version : String
  pub architecture : String
  pub ram_mb : ℤ
  pub cpu_cores : ℤ
  pub cpu_model : Option String
  pub storage_gb : Option ℤ
  pub agent_version : String
  pub is_rooted : Bool
  pub is_virtual : Bool
  pub ip_address : Option String
  pub mac_address : Option String
  pub metadata_json : Option (List (String × Json))

-- Field(max_length=n), Field(gt=0), Field(pattern="^(a|b)$") with the alternatives in a list
abbrev pub max_length : ℕ → String → Bool
max_length n s = leb (count s) n

abbrev pub positive : ℤ → Bool
positive i = not (below i 1)

-- The constraints of the schema, which the framework checks before the endpoint runs.
unfoldable pub register_valid : DeviceRegisterRequest → Bool
register_valid r =
    max_length 255 r.hostname
    && contains ("windows" ∷ "linux" ∷ "macos" ∷ "android" ∷ "ios" ∷ "raspberrypi" ∷ []) r.os_type
    && max_length 100 r.os_version
    && max_length 50 r.architecture
    && positive r.ram_mb
    && positive r.cpu_cores
    && max_length 50 r.agent_version

module _ (sec : Security) (str : ℤ → String) (pydantic : Pydantic) (T : Table Device) where
  abbrev pub new_device : (id : Uuid) (now : Time) → DeviceRegisterRequest → Device
  new_device id now r = record {
    id = id;
    hostname = r.hostname;
    os_type = r.os_type;
    os_version = r.os_version;
    architecture = r.architecture;
    ram_mb = r.ram_mb;
    cpu_cores = r.cpu_cores;
    cpu_model = r.cpu_model;
    storage_gb = r.storage_gb;
    agent_version = r.agent_version;
    status = "online";
    is_rooted = r.is_rooted;
    is_virtual = r.is_virtual;
    is_compatible =
        (check_compatibility str r.os_type r.os_version r.architecture r.ram_mb
          (get_or r.storage_gb (pos 0))).is_compatible;
    ip_address = r.ip_address;
    mac_address = r.mac_address;
    api_key_hash = none;
    last_heartbeat = some now;
    registered_at = now;
    metadata_json = r.metadata_json;
  }

  unfoldable pub register_device :
      (id : Uuid) (now : Time)
      → DeviceRegisterRequest
      → Option String
      → T.Store
      → Result (DeviceResponse × T.Store)
  register_device id now request api_key s = do
    validate_agent_api_key sec api_key
    require (register_valid request) (http 422 "Unprocessable Entity")
    t ← flush (T.add (new_device id now request) s)
    with_store (device_response pydantic (new_device id now request)) t

  unfoldable pub get_device : Uuid → Result User → T.Store → Result DeviceResponse
  get_device device_id current_user s = do
    current_user
    device ← fetch (λ d. d.id) device_id (T.rows s)
    device ← found (http 404 "Device not found") device
    device_response pydantic device

  abbrev pub beaten : Time → Json → Device → Device
  beaten now heartbeat device = record device {
    last_heartbeat = some now;
    status = "online";
    metadata_json = some (insert "last_metrics" heartbeat (get_or device.metadata_json []));
  }

  unfoldable pub device_heartbeat :
      (now : Time) → Uuid → (heartbeat : Json) → Option String → T.Store → Result T.Store
  device_heartbeat now device_id heartbeat api_key s = do
    validate_agent_api_key sec api_key
    (device, t) ←
        modify (λ d. d.id) T device_id (http 404 "Device not found")
          (λ device. ok (beaten now heartbeat device)) s
    ok t

abbrev pub selected : Option String → Option String → List Device → List Device
selected status_filter os_type rows =
    where_eq (λ d. d.os_type) os_type (where_eq (λ d. d.status) status_filter rows)

module _ (pydantic : Pydantic) (T : Table Device) where
  unfoldable pub list_devices :
      Result User
      → (page page_size : ℕ) → (status_filter os_type : Option String) → T.Store
      → Result (ListResponse DeviceResponse)
  list_devices current_user page page_size status_filter os_type s = do
    current_user
    list_page 200 (device_response pydantic) page page_size
        (selected status_filter os_type (T.rows s))
