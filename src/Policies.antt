-- ===== src/Policies.antt =====
-- backend/app/api/v1/policies.py.
pub mod Targets
pub mod Contract
use Prim.Native.String.{count}
use guardian_pi.Base.{
  ℕ, String, ◌<>◌, Bool, true, false, ◌&&◌, List, [], ◌∷◌, ◌++◌, Option, none, some, leb, contains,
  get_or, filter, length, map, ◌==◌, if◌then◌else◌,
}
use guardian_pi.Http.{Error, Result, ok, err, http, raised, require, ◌>>=◌, ◌>>◌}
use guardian_pi.Db.{Uuid, Json, Table, flush, modify, fetch, found, with_store}
use guardian_pi.Schemas.{Pydantic, PolicyResponse, policy_response}
use guardian_pi.Models.{Policy, User, Time}
use guardian_pi.Deps.{require_role}
use guardian_pi.Pages.{validate_all}

pub record PolicyCreate : Type 0 where
  pub name : String
  pub description : Option String
  pub category : String
  pub rules : Json
  pub severity : String
  pub is_enabled : Bool
  pub target_os : List String

unfoldable pub create_valid : PolicyCreate → Bool
create_valid r =
    leb (count r.name) 255
    && leb (count r.category) 100
    && contains ("critical" ∷ "high" ∷ "medium" ∷ "low" ∷ []) r.severity

-- The fields of PolicyUpdate that the request sets; `none` is a field that it leaves unset. The
-- description may be set to null, and rules and target_os to JSON's null, which their columns hold
-- beside SQL's; the other columns refuse null.
pub record PolicyUpdate : Type 0 where
  pub name : Option (Option String)
  pub description : Option (Option String)
  pub rules : Option (Option Json)
  pub severity : Option (Option String)
  pub is_enabled : Option (Option Bool)
  pub target_os : Option (Option (List String))

-- setattr of a column that is not nullable; null is refused at the flush.
abbrev pub assign : {A : Type 0} → A → Option (Option A) → Result A
assign old none = ok old
assign old (some none) = err (raised "IntegrityError")
assign old (some (some new)) = ok new

module _ (pydantic : Pydantic) (T : Table Policy) where
  abbrev pub new_policy : (id : Uuid) (now : Time) → User → PolicyCreate → Policy
  new_policy id now user r = record {
    id = id;
    name = r.name;
    description = r.description;
    category = r.category;
    rules = some r.rules;
    severity = r.severity;
    is_enabled = r.is_enabled;
    target_os = some r.target_os;
    created_by = some user.id;
    created_at = now;
  }

  unfoldable pub create_policy :
      (id : Uuid) (now : Time)
      → PolicyCreate
      → Result User
      → T.Store
      → Result (PolicyResponse × T.Store)
  create_policy id now request current_user s = do
    user ← current_user
    user ← require_role ("admin" ∷ []) user
    require (create_valid request) (http 422 "Unprocessable Entity")
    t ← flush (T.add (new_policy id now user request) s)
    with_store (policy_response pydantic (new_policy id now user request)) t

  unfoldable pub list_policies :
      Result User → (enabled_only : Bool) → T.Store → Result (List PolicyResponse × ℕ)
  list_policies current_user enabled_only s = do
    current_user
    let query = if enabled_only then filter (λ p. p.is_enabled) (T.rows s) else T.rows s
    policies ← validate_all (policy_response pydantic) query
    ok (policies, length query)

  abbrev pub not_found : Error
  not_found = http 404 "Policy not found"

  unfoldable pub get_policy : Uuid → Result User → T.Store → Result PolicyResponse
  get_policy policy_id current_user s = do
    current_user
    policy ← fetch (λ p. p.id) policy_id (T.rows s)
    policy ← found not_found policy
    policy_response pydantic policy

  -- for field, value in update_data.items(): setattr(policy, field, value)
  abbrev pub assign_all : Time → PolicyUpdate → Policy → Result Policy
  assign_all now r policy = do
    name ← assign policy.name r.name
    severity ← assign policy.severity r.severity
    is_enabled ← assign policy.is_enabled r.is_enabled
    ok (record policy {
      name = name;
      description = get_or r.description policy.description;
      rules = get_or r.rules policy.rules;
      severity = severity;
      is_enabled = is_enabled;
      target_os = get_or r.target_os policy.target_os;
    })

  unfoldable pub update_policy :
      (now : Time) → Uuid → PolicyUpdate → Result User → T.Store → Result (PolicyResponse × T.Store)
  update_policy now policy_id request current_user s = do
    user ← current_user
    require_role ("admin" ∷ []) user
    (policy, t) ← modify (λ p. p.id) T policy_id not_found (assign_all now request) s
    with_store (policy_response pydantic policy) t

  unfoldable pub delete_policy : Uuid → Result User → T.Store → Result T.Store
  delete_policy policy_id current_user s = do
    user ← current_user
    require_role ("admin" ∷ []) user
    policy ← fetch (λ p. p.id) policy_id (T.rows s)
    policy ← found not_found policy
    flush (T.delete policy s)

pub record AgentPolicy : Type 0 where
  pub id : String
  pub name : String
  pub rules : Option Json
  pub severity : String

module _ (T : Table Policy) where
  -- The endpoint of the agents: it asks for no credentials.
  unfoldable pub get_agent_policies : (os_type : String) → T.Store → List AgentPolicy
  get_agent_policies os_type s =
      let policies = filter (λ p. p.is_enabled) (T.rows s) in
      let matching = filter (λ p. contains (get_or p.target_os []) os_type) policies in
      map (λ p. record { id = p.id; name = p.name; rules = p.rules; severity = p.severity })
        matching
