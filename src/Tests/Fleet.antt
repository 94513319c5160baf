-- ===== src/Tests/Fleet.antt =====
-- The endpoints on devices at concrete inputs.
use guardian_pi.Base.{
  ℤ, pos, String, ◌≡◌, refl, ◌↔◌, true, false, [], ◌∷◌, none, some, lookup, insert, get_or,
}
use guardian_pi.Http.{ok}
use guardian_pi.Db.{Table, fetch, scalar_one_or_none, modify}
use guardian_pi.Db.Memory.{memory, memory-IsLawful}
use guardian_pi.Db.Modify.{Modified}
use guardian_pi.Models.{Device}
use guardian_pi.Deps.{validate_agent_api_key, validate_api_key}
use guardian_pi.Devices.{
  Requirements, minimum_requirements, check_compatibility, device_heartbeat, DeviceRegisterRequest,
}
use guardian_pi.Devices.Compatibility.{Meets, check_compatibility_iff}
use guardian_pi.Devices.Registry.{device_heartbeat-Modified}
use guardian_pi.Tests.Samples.{pydantic, sec, laptop}

abbrev show : ℤ → String
show i = "n"

check_compatibility_iff_example :
    ((check_compatibility show "linux" "6" "x86_64" (pos 512) (pos 2)).is_compatible ≡ true) ↔ (
      (reqs : Requirements) × (lookup "linux" minimum_requirements ≡ some reqs)
      × Meets reqs "x86_64" (pos 512) (pos 2))
check_compatibility_iff_example =
    check_compatibility_iff show "linux" "6" "x86_64" (pos 512) (pos 2)

abbrev stolen : Device
stolen = record laptop { status = "compromised" }

abbrev beating : Device
beating = record stolen {
  last_heartbeat = some 9;
  status = "online";
  metadata_json = some (insert "last_metrics" "{}" []);
}

abbrev devices : Table Device
devices = memory (λ d. d.id)

stolen_beats :
    device_heartbeat sec show pydantic devices 9 "d1" "{}" (some "key") (stolen ∷ [])
    ≡ ok (beating ∷ [])
unfolding device_heartbeat validate_agent_api_key validate_api_key modify fetch scalar_one_or_none
stolen_beats = refl

abbrev registration : DeviceRegisterRequest
registration = record {
  hostname = "pi";
  os_type = "raspberrypi";
  os_version = "12";
  architecture = "arm64";
  ram_mb = pos 4096;
  cpu_cores = pos 4;
  cpu_model = none;
  storage_gb = some (pos 32);
  agent_version = "1";
  is_rooted = false;
  is_virtual = false;
  ip_address = none;
  mac_address = none;
  metadata_json = none;
}

device_heartbeat-Modified_example :
    (device : Device) × Modified
      (λ d. d.id)
      "d1"
      (stolen ∷ [])
      (beating ∷ [])
      device
      (record device {
        last_heartbeat = some 9;
        status = "online";
        metadata_json = some (insert "last_metrics" "{}" (get_or device.metadata_json []));
      })
device_heartbeat-Modified_example =
    device_heartbeat-Modified sec show pydantic devices 9 "d1" "{}" (some "key") (stolen ∷ [])
      (beating ∷ []) (memory-IsLawful (λ d. d.id)) stolen_beats
