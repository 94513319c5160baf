-- ===== src/Policies/Targets.antt =====
-- What the agents are given, and what an update or a deletion leaves.
use guardian_pi.Base.{
  String, ◌≡◌, refl, ◌≢◌, ap, Bool, true, not, ◌&&◌, List, [], ◌∷◌, some, arith, eq_iff, contains,
  filter, get_or, map, All, ◌==◌, All-map, All-filter, All-filter_self,
}
use guardian_pi.Http.{ok, http, ◌>>=◌, >>=-eq-ok, >>-eq-ok}
use guardian_pi.Db.{Uuid, Table, IsLawful, fetch, found, flush}
use guardian_pi.Db.Modify.{flush-eq-ok, found-eq-ok}
use guardian_pi.Db.Laws.{key-fetch}
use guardian_pi.Schemas.{Pydantic}
use guardian_pi.Models.{Policy, User}
use guardian_pi.Deps.{require_role}
use guardian_pi.Policies.{AgentPolicy, get_agent_policies, delete_policy}

filter-filter :
    {A : Type 0} (p q : A → Bool) (xs : List A)
    → filter p (filter q xs) ≡ filter (λ x. q x && p x) xs
filter-filter p q [] = refl
filter-filter p q (x ∷ xs) = ground (arith, filter-filter p q xs)

-- An agent is given exactly the policies that are enabled and that name its OS, in the order of the
-- table; a disabled policy, or one for other systems, adds nothing.
pub get_agent_policies-eq-filter :
    (T : Table Policy) (os_type : String) (s : T.Store)
    → get_agent_policies T os_type s
      ≡ map
          (λ p. record { id = p.id; name = p.name; rules = p.rules; severity = p.severity })
          (filter (λ p. p.is_enabled && contains (get_or p.target_os []) os_type) (T.rows s))
unfolding get_agent_policies
get_agent_policies-eq-filter T os_type s =
    ap (map (λ p. record { id = p.id; name = p.name; rules = p.rules; severity = p.severity }))
      (filter-filter (λ p. contains (get_or p.target_os []) os_type) (λ p. p.is_enabled) (T.rows s))

other : (p old : Policy) (id : Uuid) → old.id ≡ id → not (p.id == old.id) ≡ true → p.id ≢ id
other p old id same kept e = ground (arith, eq_iff p.id old.id)

-- After a deletion that succeeds no agent is given the policy, whatever its OS.
pub get_agent_policies-delete_policy :
    (mv : Pydantic) (T : Table Policy) (id : Uuid) (user : User) (s t : T.Store)
    → IsLawful (λ p. p.id) T
    → delete_policy mv T id (ok user) s ≡ ok t
    → (os_type : String) → All (λ (p : AgentPolicy). p.id ≢ id) (get_agent_policies T os_type t)
unfolding delete_policy
get_agent_policies-delete_policy mv T id user s t law h os_type =
    let h1 = >>-eq-ok (require_role ("admin" ∷ []) user) _ h in
    let (o, loaded, h2) =
      >>=-eq-ok (fetch (λ p. p.id) id (T.rows s))
        (λ policy.
          found (http 404 "Policy not found") policy >>= λ policy. flush (T.delete policy s))
        h1 in
    let (old, is_found, h3) =
      >>=-eq-ok (found (http 404 "Policy not found") o) (λ policy. flush (T.delete policy s)) h2 in
    let deleted = flush-eq-ok (T.delete old s) h3 in
    let loaded_old : fetch (λ (p : Policy). p.id) id (T.rows s) ≡ ok (some old) =
      cc (loaded, found-eq-ok (http 404 "Policy not found") o is_found) in
    let same = key-fetch (λ p. p.id) id old (T.rows s) loaded_old in
    rw (get_agent_policies-eq-filter T os_type t, law.rows-delete old s t deleted)
      (All-map _ _ _ (
        All-filter (λ p. p.id ≢ id) _ _
          (All-filter_self (λ p. p.id ≢ id) (λ x. not (x.id == old.id)) (T.rows s)
            (λ p kept. other p old id same kept))))
