-- ===== src/Policies/Contract/Refines.antt =====
-- The endpoints of policies keep what they promise.
use guardian_pi.Base.{sym, ◌≡◌, ap, inl, inr, List, [], ◌∷◌, Option, some}
use mathlib.Core.Path.{subst}
use guardian_pi.Http.{Result, ok, err}
use guardian_pi.Db.{Table, IsLawful}
use guardian_pi.Db.Modify.{ok-injective}
use guardian_pi.Db.Sessions.{get_db-cases}
use guardian_pi.Schemas.{Pydantic}
use guardian_pi.Models.{Policy}
use guardian_pi.Policies.{create_policy, update_policy, delete_policy}
use guardian_pi.Policies.Contract.{
  Request, creation, change, deletion, silent, done, handle, perform, perform_all, View, Effect,
  refused, Effects, finished, then_one,
}
use guardian_pi.Policies.Contract.Simulates.{
  id_of, Represents, Simulates, IsFresh, creation-Simulates, change-Simulates, deletion-Simulates,
}

module _ (pydantic : Pydantic) (T : Table Policy) (law : IsLawful id_of T) where
  silent-eq-ok :
      (commit : T.Store → Option T.Store) {A : Type 0} (r : Result (A × T.Store)) {t : T.Store}
      → silent pydantic T commit r ≡ ok (tt, t)
      → (response : A) × (r ≡ ok (response, t))
  silent-eq-ok commit (ok (response, u)) h =
      (response, ap (λ x. ok (response, x.1)) (ok-injective h))
  silent-eq-ok commit (err e) h = cc

  done-eq-ok :
      (commit : T.Store → Option T.Store) (r : Result T.Store) {t : T.Store}
      → done pydantic T commit r ≡ ok (tt, t)
      → r ≡ ok t
  done-eq-ok commit (ok u) h = ap (λ x. ok x.1) (ok-injective h)
  done-eq-ok commit (err e) h = cc

  handle-Simulates :
      (q : Request) (s t : T.Store) (commit : T.Store → Option T.Store)
      → IsFresh pydantic T law q s
      → handle pydantic T commit q s ≡ ok (tt, t)
      → Simulates pydantic T law q (T.rows s) (T.rows t)
  handle-Simulates (creation id now body user) s t commit fresh h =
      let (response, succeeded) =
        silent-eq-ok commit (create_policy pydantic T id now body user s) h in
      creation-Simulates pydantic T law id now body user s t response fresh succeeded
  handle-Simulates (change now id body user) s t commit fresh h =
      let (response, succeeded) =
        silent-eq-ok commit (update_policy pydantic T now id body user s) h in
      change-Simulates pydantic T law now id body user s t response succeeded
  handle-Simulates (deletion id user) s t commit fresh h =
      deletion-Simulates pydantic T law id user s t
        (done-eq-ok commit (delete_policy pydantic T id user s) h)

  module _ (commit : T.Store → Option T.Store)
      (keeps : (s t : T.Store) → commit s ≡ some t → T.rows t ≡ T.rows s) where
    -- What a request that is answered so does to a table that represents a map.
    abbrev IsPerformed : Request → List Policy → Result (Unit {0}) × T.Store → Type 0
    IsPerformed q rows run =
        (v : View)
        → Represents rows v
        → (w : View) × (Effect pydantic T v q run.0 w × Represents (T.rows run.1) w)

    perform-IsPerformed :
        (q : Request) (s : T.Store)
        → IsFresh pydantic T law q s
        → IsPerformed q (T.rows s) (perform pydantic T commit q s)
    unfolding perform
    perform-IsPerformed q s fresh = elim (get_db-cases commit (handle pydantic T commit q) s) [
      | inl (e, failed) ↦
          subst (IsPerformed q (T.rows s)) (sym failed) (λ v rep. (v, (refused q e, rep)))
      | inr (done, (t, (u, (succeeded, (commits, answered))))) ↦
          subst (IsPerformed q (T.rows s)) (sym answered) (
            subst
              (λ rows.
                (v : View)
                → Represents (T.rows s) v
                → (w : View) × (Effect pydantic T v q (ok tt) w × Represents rows w))
              (sym (keeps t u commits)) (handle-Simulates q s t commit fresh succeeded))
    ]

    -- The ids of the new policies are new where they are used.
    abbrev pub AreFresh : List Request → T.Store → Type 0
    AreFresh [] s = Unit
    AreFresh (q ∷ requests) s =
        IsFresh pydantic T law q s × AreFresh requests (perform pydantic T commit q s).1

    -- Whatever creations, changes and deletions are requested, by whom and in whatever order, each in
    -- a session of its own and some of them failing: if the table represented a map from ids to
    -- policies before, it represents one after, which the contract's effects lead to, one for each
    -- request and its answer. A request that is answered by an error leaves the map as it was; one
    -- that succeeds was an administrator's, and changes the one policy that it names as it says.
    pub perform_all-Effects :
        (requests : List Request) (s : T.Store) (v : View)
        → AreFresh requests s
        → Represents (T.rows s) v
        → (w : View) × (Effects pydantic T v requests (perform_all pydantic T commit requests s).0 w
            × Represents (T.rows (perform_all pydantic T commit requests s).1) w)
    unfolding perform_all
    perform_all-Effects [] s v fresh rep = (v, (finished v, rep))
    perform_all-Effects (q ∷ requests) s v (first, others) rep =
        let (w, (effect, between)) = perform-IsPerformed q s first v rep in
        let (x, (effects, after)) =
          perform_all-Effects requests (perform pydantic T commit q s).1 w others between in
        (x, (then_one effect effects, after))
