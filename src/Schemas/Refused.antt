-- ===== src/Schemas/Refused.antt =====
-- What no row's response gets past: a field `str` for a uuid.UUID.
use guardian_pi.Base.{◌≡◌, refl, Option}
use guardian_pi.Http.{Error, Result, ok, err, raised, ◌>>=◌}
use guardian_pi.Db.{Uuid, with_store, get_db}
use guardian_pi.Db.Sessions.{get_db-err}
use guardian_pi.Models.{Device, Alert, User, RemediationAction, Policy, Investigation}
use guardian_pi.Schemas.{
  Pydantic, uuid_of, device_response, alert_response, user_response, remediation_response,
  policy_response, investigation_response,
}

-- What pydantic 2 documents of `str`: it takes no uuid.UUID.
pub record IsPydantic (pydantic : Pydantic) : Type 0 where
  pub refuses : (id : Uuid) → pydantic.str_field (uuid_of id) ≡ err (raised "ValidationError")

abbrev pub IsErr {ℓ} : {A : Type ℓ} → Result A → Type ℓ
IsErr r = (e : Error) × (r ≡ err e)

-- A chain raises if its last link does.
pub >>=-IsErr {ℓ κ} :
    {A : Type ℓ} {B : Type κ} (first : Result A) (rest : A → Result B)
    → ((a : A) → IsErr (rest a))
    → IsErr (first >>= rest)
>>=-IsErr (err e) rest h = (e, refl)
>>=-IsErr (ok a) rest h = h a

pub with_store-IsErr : {R S : Type 0} (r : Result R) (s : S) → IsErr r → IsErr (with_store r s)
with_store-IsErr r s (e, h) = (e, rw h refl)

-- The request is answered by an exception, and the database keeps what it had.
abbrev pub IsRefused : {S A : Type 0} → (S → Option S) → (S → Result (A × S)) → S → Type 0
IsRefused commit handler s = (e : Error) × (get_db commit handler s ≡ (err e, s))

pub get_db-IsRefused :
    {S A : Type 0} (commit : S → Option S) (handler : S → Result (A × S)) (s : S)
    → IsErr (handler s)
    → IsRefused commit handler s
get_db-IsRefused commit handler s (e, h) = (e, get_db-err commit handler s h)

module _ (pydantic : Pydantic) (law : IsPydantic pydantic) where
  pub device_response-IsErr : (d : Device) → IsErr (device_response pydantic d)
  unfolding device_response
  device_response-IsErr d = (raised "ValidationError", rw (law.refuses d.id) refl)

  pub alert_response-IsErr : (a : Alert) → IsErr (alert_response pydantic a)
  unfolding alert_response
  alert_response-IsErr a = (raised "ValidationError", rw (law.refuses a.id) refl)

  pub user_response-IsErr : (u : User) → IsErr (user_response pydantic u)
  unfolding user_response
  user_response-IsErr u = (raised "ValidationError", rw (law.refuses u.id) refl)

  pub remediation_response-IsErr : (a : RemediationAction) → IsErr (remediation_response pydantic a)
  unfolding remediation_response
  remediation_response-IsErr a = (raised "ValidationError", rw (law.refuses a.id) refl)

  pub policy_response-IsErr : (p : Policy) → IsErr (policy_response pydantic p)
  unfolding policy_response
  policy_response-IsErr p = (raised "ValidationError", rw (law.refuses p.id) refl)

  pub investigation_response-IsErr : (i : Investigation) → IsErr (investigation_response pydantic i)
  unfolding investigation_response
  investigation_response-IsErr i = (raised "ValidationError", rw (law.refuses i.id) refl)

  pub alert_response-eq :
      {S : Type 0} (a : Alert) (t : S)
      → with_store (alert_response pydantic a) t ≡ err (raised "ValidationError")
  unfolding alert_response
  alert_response-eq a t = rw (law.refuses a.id) refl

  pub remediation_response-eq :
      {S : Type 0} (a : RemediationAction) (t : S)
      → with_store (remediation_response pydantic a) t ≡ err (raised "ValidationError")
  unfolding remediation_response
  remediation_response-eq a t = rw (law.refuses a.id) refl

  pub device_response-eq :
      {S : Type 0} (d : Device) (t : S)
      → with_store (device_response pydantic d) t ≡ err (raised "ValidationError")
  unfolding device_response
  device_response-eq d t = rw (law.refuses d.id) refl

  pub user_response-eq :
      {S : Type 0} (u : User) (t : S)
      → with_store (user_response pydantic u) t ≡ err (raised "ValidationError")
  unfolding user_response
  user_response-eq u t = rw (law.refuses u.id) refl
