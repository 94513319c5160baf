-- ===== src/Devices/Registry.antt =====
-- Heartbeats, and what becomes of registrations.
use guardian_pi.Base.{true, ℤ, String, ◌≡◌, refl, [], Option, some, get_or, insert}
use guardian_pi.Http.{ok, http, >>-eq-ok}
use guardian_pi.Db.{Uuid, Json, Table, IsLawful}
use guardian_pi.Db.Modify.{Modified, modify-then, ok-injective}
use guardian_pi.Schemas.{Pydantic}
use guardian_pi.Schemas.Refused.{IsPydantic}
use guardian_pi.Models.{Device, Time}
use guardian_pi.Deps.{Security, validate_agent_api_key}
use guardian_pi.Devices.{
  device_heartbeat, beaten, DeviceRegisterRequest, new_device, register_valid,
}

-- A heartbeat that is accepted changes only the device that it names: its time of heartbeat, its
-- status, which is online whatever it was, and its last metrics.
pub device_heartbeat-Modified :
    (sec : Security) (str : ℤ → String) (pydantic : Pydantic) (T : Table Device) (now : Time)
    (id : Uuid) (heartbeat : Json) (key : Option String) (s t : T.Store)
    → IsLawful (λ d. d.id) T
    → device_heartbeat sec str pydantic T now id heartbeat key s ≡ ok t
    → (device : Device) × Modified
        (λ d. d.id)
        id
        (T.rows s)
        (T.rows t)
        device
        (record device {
          last_heartbeat = some now;
          status = "online";
          metadata_json = some (insert "last_metrics" heartbeat (get_or device.metadata_json []));
        })
unfolding device_heartbeat
device_heartbeat-Modified sec str pydantic T now id heartbeat key s t law h =
    let h1 = >>-eq-ok (validate_agent_api_key sec key) _ h in
    let (device, u, m, same) =
      modify-then (λ d. d.id) T id (http 404 "Device not found")
        (beaten sec str pydantic T now heartbeat) s (λ (d, u). ok u) law (λ d. refl) h1 in
    (device, rw (ok-injective same) at m)

module _ (sec : Security) (str : ℤ → String) (pydantic : Pydantic) (law : IsPydantic pydantic)
    (T : Table Device) where
  -- What a registration must pass to get as far as its response, which no row passes.
  abbrev pub IsReached :
      (id : Uuid) (now : Time) → DeviceRegisterRequest → Option String → T.Store → Type 0
  IsReached id now r key s =
      ((k : String) × (validate_agent_api_key sec key ≡ ok k))
      × ((register_valid r ≡ true)
          × ((t : T.Store) × (T.add (new_device sec str pydantic T id now r) s ≡ some t)))
