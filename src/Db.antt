-- ===== src/Db.antt =====
-- backend/app/core/database.py: the session that a request works in, and what the endpoints use of
-- SQLAlchemy. A table is a parameter of the endpoints; `IsLawful` says what is relied on.
pub mod Laws
pub mod Modify
pub mod Add
pub mod Memory
pub mod Sessions
use guardian_pi.Base.{
  String, ◌≡◌, Bool, not, List, [], ◌∷◌, ◌++◌, map, Option, none, some, filter, ◌==◌, if◌then◌else◌,
}
use guardian_pi.Http.{Error, Result, ok, err, raised, ◌>>=◌}

-- A UUID by its canonical text, and a JSON value by its text.
abbrev pub Uuid : Type 0
Uuid = String

abbrev pub Json : Type 0
Json = String

-- A table in a session. `none` is an exception of the database, such as a constraint that fails.
pub record Table (Row : Type 0) : Type 1 where
  pub Store : Type 0
  -- the rows of the table; their order has no meaning to the program
  pub rows : Store → List Row
  -- db.add(row); await db.flush()
  pub add : Row → Store → Option Store
  -- assignments to the fields of a loaded row; await db.flush()
  pub save : Row → Store → Option Store
  -- await db.delete(row)
  pub delete : Row → Store → Option Store

abbrev pub overwrite : {Row : Type 0} → (Row → Uuid) → Row → List Row → List Row
overwrite key r = map (λ x. if key x == key r then r else x)

-- What SQLAlchemy documents of the operations that succeed, for the primary key `key`.
pub record IsLawful {Row : Type 0} (key : Row → Uuid) (T : Table Row) : Type 0 where
  pub rows-add : (r : Row) (s t : T.Store) → T.add r s ≡ some t → T.rows t ≡ T.rows s ++ r ∷ []
  pub rows-save :
      (r : Row) (s t : T.Store) → T.save r s ≡ some t → T.rows t ≡ overwrite key r (T.rows s)
  pub rows-delete :
      (r : Row) (s t : T.Store)
      → T.delete r s ≡ some t
      → T.rows t ≡ filter (λ x. not (key x == key r)) (T.rows s)

-- A flush that raises.
abbrev pub flush {ℓ} : {S : Type ℓ} → Option S → Result S
flush none = err (raised "IntegrityError")
flush (some s) = ok s

-- result.scalar_one_or_none()
unfoldable pub scalar_one_or_none : {Row : Type 0} → List Row → Result (Option Row)
scalar_one_or_none [] = ok none
scalar_one_or_none (r ∷ []) = ok (some r)
scalar_one_or_none (r ∷ _ ∷ _) = err (raised "MultipleResultsFound")

-- (await db.execute(select(Row).where(Row.id == id))).scalar_one_or_none()
unfoldable pub fetch : {Row : Type 0} → (Row → Uuid) → Uuid → List Row → Result (Option Row)
unfolding scalar_one_or_none
fetch key id rows = scalar_one_or_none (filter (λ r. key r == id) rows)

-- The response, beside the store that the endpoint leaves.
abbrev pub with_store : {R S : Type 0} → Result R → S → Result (R × S)
with_store (ok response) s = ok (response, s)
with_store (err e) s = err e

-- `if not row: raise error`
abbrev pub found : {Row : Type 0} → Error → Option Row → Result Row
found e none = err e
found e (some r) = ok r

-- The endpoints that change one row: load it, answer `missing` if there is none, assign to its
-- fields, and flush.
module _ {Row : Type 0} (key : Row → Uuid) (T : Table Row) where
  unfoldable pub modify :
      Uuid → (missing : Error) → (Row → Result Row) → T.Store → Result (Row × T.Store)
  modify id missing change s = do
    row ← fetch key id (T.rows s)
    row ← found missing row
    row' ← change row
    t ← flush (T.save row' s)
    ok (row', t)

-- A session: what the database keeps, and what the session sees, flushed changes included.
pub record Session (S : Type 0) : Type 0 where
  pub kept : S
  pub working : S

abbrev rollback : {S : Type 0} → Session S → Session S
rollback x = record x { working = x.kept }

-- get_db: the request's work, then `commit`, or `rollback` and the exception again.
module _ {S A : Type 0} (commit : S → Option S) where
  -- `await session.commit()`, whose result is the last argument; `none` is an exception.
  abbrev pub commit_work : A → Session S → Option S → Result A × Session S
  commit_work a x none = (err (raised "IntegrityError"), rollback x)
  commit_work a x (some u) = (ok a, record { kept = u; working = u })

  -- `left`: what an exception of the handler leaves flushed.
  abbrev pub settle : S → (left : S) → Result (A × S) → Result A × Session S
  settle s left (ok (a, t)) = commit_work a (record { kept = s; working = t }) (commit t)
  settle s left (err e) = (err e, rollback (record { kept = s; working = left }))

  unfoldable pub run_session : (left : S) → (S → Result (A × S)) → S → Result A × Session S
  run_session left handler s = settle s left (handler s)

  -- What the client and the next session see.
  unfoldable pub get_db : (S → Result (A × S)) → S → Result A × S
  unfolding run_session
  get_db handler s = let (answer, x) = run_session s handler s in (answer, x.kept)
