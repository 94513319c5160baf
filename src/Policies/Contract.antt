-- ===== src/Policies/Contract.antt =====
-- What the endpoints of policies promise: a map from ids to policies that administrators change.
pub mod Simulates
pub mod Refines
use guardian_pi.Base.{
  String, ◌≡◌, Bool, true, false, List, [], ◌∷◌, Option, none, some, contains, ◌==◌, if◌then◌else◌,
}
use guardian_pi.Http.{Error, Result, ok, err, ◌>>=◌}
use guardian_pi.Db.{Uuid, Table, get_db}
use guardian_pi.Schemas.{Pydantic}
use guardian_pi.Models.{Policy, User, Time}
use guardian_pi.Policies.{
  PolicyCreate, PolicyUpdate, new_policy, create_policy, assign_all, update_policy, delete_policy,
}

-- A request that changes policies, with the user whom its token names.
pub data Request : Type 0 where
  creation : (id : Uuid) (now : Time) (body : PolicyCreate) (user : Result User) → Request
  change : (now : Time) (id : Uuid) (body : PolicyUpdate) (user : Result User) → Request
  deletion : (id : Uuid) (user : Result User) → Request

module _ (pydantic : Pydantic) (T : Table Policy) (commit : T.Store → Option T.Store) where
  -- The response to a change is of no interest to the contract.
  abbrev pub silent : {A : Type 0} → Result (A × T.Store) → Result (Unit {0} × T.Store)
  silent (ok (response, t)) = ok (tt, t)
  silent (err e) = err e

  abbrev pub done : Result T.Store → Result (Unit {0} × T.Store)
  done (ok t) = ok (tt, t)
  done (err e) = err e

  abbrev pub handle : Request → T.Store → Result (Unit {0} × T.Store)
  handle (creation id now body user) s = silent (create_policy pydantic T id now body user s)
  handle (change now id body user) s = silent (update_policy pydantic T now id body user s)
  handle (deletion id user) s = done (delete_policy pydantic T id user s)

  -- The answer to a request and the database after it, under get_db.
  unfoldable pub perform : Request → T.Store → Result (Unit {0}) × T.Store
  perform q s = get_db commit (handle q) s

  unfoldable pub perform_all : List Request → T.Store → List (Result (Unit {0})) × T.Store
  perform_all [] s = ([], s)
  perform_all (q ∷ requests) s =
      let (answer, t) = perform q s in
      let (answers, u) = perform_all requests t in (answer ∷ answers, u)

-- The policies by their ids.
abbrev pub View : Type 0
View = Uuid → Option Policy

abbrev pub put : Uuid → Option Policy → View → View
put id p v = λ k. if id == k then p else v k

module _ (pydantic : Pydantic) (T : Table Policy) where
  -- A request with its answer: one that fails changes nothing, and one that succeeds is an
  -- administrator's and changes the one policy that it is about.
  pub data Effect (v : View) : Request → Result (Unit {0}) → View → Type 0 where
    refused : (q : Request) (e : Error) → Effect v q (err e) v
    created :
        (id : Uuid) (now : Time) (body : PolicyCreate) (user : User)
        → user.role ≡ "admin"
        → v id ≡ none
        → Effect v
            (creation id now body (ok user))
            (ok tt)
            (put id (some (new_policy pydantic T id now user body)) v)
    changed :
        (now : Time) (id : Uuid) (body : PolicyUpdate) (user : User) (old new : Policy)
        → user.role ≡ "admin"
        → v id ≡ some old
        → assign_all pydantic T now body old ≡ ok new
        → Effect v (change now id body (ok user)) (ok tt) (put id (some new) v)
    deleted :
        (id : Uuid) (user : User) (old : Policy)
        → user.role ≡ "admin"
        → v id ≡ some old
        → Effect v (deletion id (ok user)) (ok tt) (put id none v)

  pub data Effects : View → List Request → List (Result (Unit {0})) → View → Type 0 where
    finished : (v : View) → Effects v [] [] v
    then_one :
        {q : Request} {requests : List Request} {answer : Result (Unit {0})}
        {answers : List (Result (Unit {0}))} {v w x : View}
        → Effect v q answer w
        → Effects w requests answers x
        → Effects v (q ∷ requests) (answer ∷ answers) x
