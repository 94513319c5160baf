-- ===== src/Policies/Contract/Simulates.antt =====
-- What one request that succeeds does to a table that represents a map.
use guardian_pi.Base.{
  ◌≡◌, refl, sym, ap, ◌∙◌, ◌≢◌, inl, inr, Bool, true, false, not, List, [], ◌∷◌, Option, none, some,
  contains, filter, ◌==◌, eq_iff, if◌then◌else◌, Bool-cases, arith,
}
use mathlib.Core.Path.{subst}
use guardian_pi.Http.{Error, Result, ok, err, require, >>=-eq-ok, >>-eq-ok}
use guardian_pi.Db.{Uuid, Table, IsLawful, fetch, found, modify, scalar_one_or_none}
use guardian_pi.Db.Laws.{key-fetch}
use guardian_pi.Db.Modify.{Modified, modify-Modified, flush-eq-ok, found-eq-ok, ok-injective}
use guardian_pi.Db.Add.{add-fetch, with_store-eq}
use guardian_pi.Schemas.{Pydantic, PolicyResponse, policy_response}
use guardian_pi.Models.{Policy, User, Time}
use guardian_pi.Deps.{require_role}
use guardian_pi.Policies.{
  PolicyCreate, PolicyUpdate, new_policy, create_policy, assign, assign_all, update_policy,
  delete_policy, not_found, create_valid,
}
use guardian_pi.Policies.Contract.{
  Request, creation, change, deletion, View, put, Effect, created, changed, deleted,
}

abbrev pub id_of : Policy → Uuid
id_of p = p.id

-- Each id loads what the map has.
abbrev pub Represents : List Policy → View → Type 0
Represents rows v = (id : Uuid) → fetch id_of id rows ≡ ok (v id)

if-eq-ok :
    {A : Type 0} (b : Bool) (e : Error) {x y : A}
    → (if b then ok x else err e) ≡ ok y
    → (b ≡ true) × (x ≡ y)
if-eq-ok true e h = (refl, ok-injective h)
if-eq-ok false e h = cc

require_role-admin :
    (user : User) {found : User}
    → require_role ("admin" ∷ []) user ≡ ok found
    → (user.role ≡ "admin") × (user ≡ found)
unfolding require_role
require_role-admin user h =
    let (listed, same) = if-eq-ok (contains ("admin" ∷ []) user.role) _ h in
    (ground (arith, listed, eq_iff "admin" user.role), same)

apart : {b : Bool} → b ≡ false → b ≡ true → ⊥
apart h k = cc

put-Represents :
    (before after : List Policy) (v : View) (id : Uuid) (p : Option Policy)
    → Represents before v
    → fetch id_of id after ≡ ok p
    → ((other : Uuid) → id ≢ other → fetch id_of other after ≡ fetch id_of other before)
    → Represents after (put id p v)
put-Represents before after v id p rep self others k = elim (Bool-cases (id == k)) [
  | inl same ↦ rw same (subst (λ j. fetch id_of j after ≡ ok p) ((eq_iff id k).0 same) self)
  | inr differs ↦ rw differs (others k (λ e. apart differs ((eq_iff id k).1 e)) ∙ rep k)
]

fetch-delete_self :
    (id : Uuid) (old : Policy) (rows : List Policy)
    → old.id ≡ id
    → fetch id_of id (filter (λ x. not (x.id == old.id)) rows) ≡ ok none
unfolding fetch scalar_one_or_none
fetch-delete_self id old rows same = ap scalar_one_or_none (nothing rows)
  where
    nothing :
        (rows : List Policy)
        → filter (λ (x : Policy). x.id == id) (filter (λ x. not (x.id == old.id)) rows) ≡ []
    nothing [] = refl
    nothing (x ∷ rows) = ground (arith, nothing rows, eq_iff x.id old.id, eq_iff x.id id, same)

fetch-delete_ne :
    (id : Uuid) (old : Policy) (rows : List Policy) (other : Uuid)
    → old.id ≡ id
    → id ≢ other
    → fetch id_of other (filter (λ x. not (x.id == old.id)) rows) ≡ fetch id_of other rows
unfolding fetch
fetch-delete_ne id old rows other same differs = ap scalar_one_or_none (kept rows)
  where
    kept :
        (rows : List Policy)
        → filter (λ (x : Policy). x.id == other) (filter (λ x. not (x.id == old.id)) rows)
          ≡ filter (λ x. x.id == other) rows
    kept [] = refl
    kept (x ∷ rows) = ground (arith, kept rows, eq_iff x.id old.id, eq_iff x.id other, same)

module _ (pydantic : Pydantic) (T : Table Policy) (law : IsLawful id_of T) where
  -- One effect of a handler that succeeded, on tables that represent a map.
  abbrev pub Simulates : Request → List Policy → List Policy → Type 0
  Simulates q before after =
      (v : View)
      → Represents before v
      → (w : View) × (Effect pydantic T v q (ok tt) w × Represents after w)

  -- A new policy has an id that no row has.
  abbrev pub IsFresh : Request → T.Store → Type 0
  IsFresh (creation id now body user) s = fetch id_of id (T.rows s) ≡ ok none
  IsFresh (change now id body user) s = Unit
  IsFresh (deletion id user) s = Unit

  pub creation-Simulates :
      (id : Uuid) (now : Time) (body : PolicyCreate) (user : Result User) (s t : T.Store)
      (response : PolicyResponse)
      → IsFresh (creation id now body user) s
      → create_policy pydantic T id now body user s ≡ ok (response, t)
      → Simulates (creation id now body user) (T.rows s) (T.rows t)
  unfolding create_policy
  creation-Simulates id now body (err e) s t response fresh h v rep = cc
  creation-Simulates id now body (ok user) s t response fresh h v rep =
      let (admin, checked, h1) = >>=-eq-ok (require_role ("admin" ∷ []) user) _ h in
      let (role, same) = require_role-admin user checked in
      let h2 = >>-eq-ok (require (create_valid body) _) _ h1 in
      let new = new_policy pydantic T id now user body in
      let (kept, others) =
        add-fetch id_of T (new_policy pydantic T id now admin body) s
          (policy_response pydantic (new_policy pydantic T id now admin body)) law fresh h2 in
      let self : fetch id_of id (T.rows t) ≡ ok (some new) =
        kept ∙ ap (λ u. ok (some (new_policy pydantic T id now u body))) (sym same) in
      (
        put id (some new) v,
        (
          created id now body user role (ok-injective (sym (rep id) ∙ fresh)),
          put-Represents (T.rows s) (T.rows t) v id (some new) rep self others,
        ),
      )

  id-assign_all :
      (now : Time) (body : PolicyUpdate) (old new : Policy)
      → assign_all pydantic T now body old ≡ ok new
      → new.id ≡ old.id
  id-assign_all now body old new h =
      let (name, assigned1, h1) = >>=-eq-ok (assign old.name body.name) _ h in
      let (severity, assigned3, h3) = >>=-eq-ok (assign old.severity body.severity) _ h1 in
      let (is_enabled, assigned4, h4) = >>=-eq-ok (assign old.is_enabled body.is_enabled) _ h3 in
      sym (ap id_of (ok-injective h4))

  pub change-Simulates :
      (now : Time) (id : Uuid) (body : PolicyUpdate) (user : Result User) (s t : T.Store)
      (response : PolicyResponse)
      → update_policy pydantic T now id body user s ≡ ok (response, t)
      → Simulates (change now id body user) (T.rows s) (T.rows t)
  unfolding update_policy
  change-Simulates now id body (err e) s t response h v rep = cc
  change-Simulates now id body (ok user) s t response h v rep =
      let (admin, checked, h1) = >>=-eq-ok (require_role ("admin" ∷ []) user) _ h in
      let (role, same) = require_role-admin user checked in
      let ((new, u), modified, h2) =
        >>=-eq-ok (modify id_of T id (not_found pydantic T) (assign_all pydantic T now body) s) _
          h1 in
      let (old, assigned, m) =
        modify-Modified id_of T id (not_found pydantic T) (assign_all pydantic T now body) s u new
          law (λ old new e. id-assign_all now body old new e) modified in
      let stored : u ≡ t = with_store-eq (policy_response pydantic new) h2 in
      let after : Modified id_of id (T.rows s) (T.rows t) old new =
        subst (λ x. Modified id_of id (T.rows s) (T.rows x) old new) stored m in
      (
        put id (some new) v,
        (
          changed now id body user old new role (ok-injective (sym (rep id) ∙ m.loaded)) assigned,
          put-Represents (T.rows s) (T.rows t) v id (some new) rep after.written after.others,
        ),
      )

  pub deletion-Simulates :
      (id : Uuid) (user : Result User) (s t : T.Store)
      → delete_policy pydantic T id user s ≡ ok t
      → Simulates (deletion id user) (T.rows s) (T.rows t)
  unfolding delete_policy
  deletion-Simulates id (err e) s t h v rep = cc
  deletion-Simulates id (ok user) s t h v rep =
      let (admin, checked, h1) = >>=-eq-ok (require_role ("admin" ∷ []) user) _ h in
      let (role, same) = require_role-admin user checked in
      let (o, loaded, h2) = >>=-eq-ok (fetch id_of id (T.rows s)) _ h1 in
      let (old, is_found, h3) = >>=-eq-ok (found (not_found pydantic T) o) _ h2 in
      let gone = flush-eq-ok (T.delete old s) h3 in
      let named = found-eq-ok (not_found pydantic T) o is_found in
      let held : v id ≡ some old = ok-injective (sym (rep id) ∙ loaded) ∙ named in
      let loaded_old : fetch id_of id (T.rows s) ≡ ok (some old) = loaded ∙ ap ok named in
      let is_id = key-fetch id_of id old (T.rows s) loaded_old in
      let rows = law.rows-delete old s t gone in
      (
        put id none v,
        (
          deleted id user old role held,
          put-Represents (T.rows s) (T.rows t) v id none rep
              (rw rows (fetch-delete_self id old (T.rows s) is_id))
              (λ other differs. rw rows (fetch-delete_ne id old (T.rows s) other is_id differs)),
        ),
      )
