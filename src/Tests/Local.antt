-- ===== src/Tests/Local.antt =====
-- The development server at concrete inputs.
use guardian_pi.Base.{
  ℕ, String, ◌≡◌, refl, Bool, false, List, [], ◌∷◌, Option, none, some, filter, lookup, insert,
  ◌==◌, if◌then◌else◌, arith,
}
use guardian_pi.Http.{ok}
use guardian_pi.Db.{Table, fetch, scalar_one_or_none}
use guardian_pi.Db.Memory.{memory, memory-IsLawful}
use guardian_pi.Local.Tables.{User, Device, Alert, Schema, add_all}
use guardian_pi.Local.Tokens.{Libraries, LoginResponse, login, make_token, make_refresh}
use guardian_pi.Local.Tokens.Admission.{
  IsAdmitting, access_claims, refresh_claims, login-get_current_user,
}
use guardian_pi.Local.Seed.{
  State, seed_data, admin, fill, seeded, seeded_device, seeded_alert, seeded_policy, startup_log,
  device_map, blank_map,
}
use guardian_pi.Local.Seed.Data.{devices_data, alerts_data, policies_data}
use guardian_pi.Local.Seed.Again.{seed_data-seed_data}

abbrev alerts : Table Alert
alerts = memory (λ a. a.id)

abbrev fresh : ℕ → String
fresh n = "x"

abbrev users : Table User
users = memory (λ u. u.id)

-- Carol's account is not active.
abbrev carol : User
carol = record {
  id = "u3";
  email = "carol@example.com";
  password_hash = "pw";
  full_name = "Carol";
  role = "viewer";
  is_active = false;
  last_login = none;
  created_at = "then";
}

abbrev is_access : Option String → Bool
is_access none = false
is_access (some t) = t == "access"

abbrev libraries : Libraries
libraries = record {
  encode = λ c. if is_access c.type then "access token" else "refresh token";
  decode = λ now t.
      if t == "access token"
      then some (access_claims 100 carol)
      else some (refresh_claims 100 carol);
  hashpw = λ p. p;
  checkpw = λ p h. p == h;
}

abbrev response : LoginResponse
response = record {
  access_token = "access token";
  refresh_token = "refresh token";
  token_type = "bearer";
  expires_in = 3600;
}

abbrev seen_carol : User
seen_carol = record carol { last_login = some "today" }

logged_in :
    login libraries users 100 "today" (some "carol@example.com") (some "pw") (carol ∷ [])
    ≡ ok (response, seen_carol ∷ [])
unfolding login scalar_one_or_none make_token make_refresh
logged_in = refl

login-get_current_user_example :
    IsAdmitting libraries 3700 response "carol@example.com" "pw" (seen_carol ∷ [])
unfolding fetch scalar_one_or_none
login-get_current_user_example =
    login-get_current_user libraries users 100 3700 "today" "carol@example.com" "pw" (carol ∷ [])
      (seen_carol ∷ []) response (memory-IsLawful (λ u. u.id)) (refl, tt)
      ((λ early. refl, λ early. refl), tt) logged_in (omega arith)

abbrev schema : Schema
schema = record {
  users = users;
  devices = memory (λ d. d.id);
  alerts = alerts;
  audit_logs = memory (λ l. l.id);
  policies = memory (λ p. p.id);
  investigations = memory (λ i. i.id);
}

abbrev administrator : User
administrator = admin "hash" fresh "today"

abbrev blank : State schema
blank = record { users = []; devices = []; alerts = []; audit_logs = []; policies = [] }

abbrev demo_devices : List Device
demo_devices = seeded "hash" fresh "today" (seeded_device "hash" fresh "today") 1 devices_data

abbrev demo : State schema
demo = record {
  users = administrator ∷ [];
  devices = demo_devices;
  alerts =
      seeded "hash" fresh "today"
        (seeded_alert "hash" fresh "today" (
          device_map "hash" fresh "today" demo_devices
            (blank_map "hash" fresh "today" devices_data)))
        7 alerts_data;
  audit_logs = startup_log "hash" fresh "today" ∷ [];
  policies = seeded "hash" fresh "today" (seeded_policy "hash" fresh "today") 14 policies_data;
}

filled : seed_data "hash" fresh "today" schema some blank ≡ ok demo
unfolding seed_data fill add_all scalar_one_or_none lookup insert
filled = refl

seed_data-seed_data_example :
    (seed_data "hash" fresh "today" schema some demo ≡ ok demo)
    × ((user : User) × (filter (λ u. u.email == "admin@guardianpi.io") demo.users ≡ user ∷ []))
seed_data-seed_data_example =
    seed_data-seed_data "hash" fresh "today" schema some blank demo (memory-IsLawful (λ u. u.id))
      (λ s t h. ground arith) filled
