-- ===== src/Local/Seed/Again.antt =====
-- A second start of the server.
use guardian_pi.Base.{
  ℕ, String, Bool, ◌≡◌, refl, sym, ap, ◌∙◌, List, [], ◌∷◌, ◌++◌, Option, none, some, filter,
  filter-append, ◌==◌,
}
use guardian_pi.Http.{Result, ok, >>=-eq-ok}
use guardian_pi.Db.{Table, IsLawful, flush, scalar_one_or_none}
use guardian_pi.Db.Laws.{scalar-eq-some}
use guardian_pi.Db.Modify.{flush-eq-ok, ok-injective}
use guardian_pi.Local.Tables.{User, Schema, add_all}
use guardian_pi.Local.Seed.{State, admin, fill, unless_present, seed_data}

scalar-eq-none : (users : List User) → scalar_one_or_none users ≡ ok none → users ≡ []
unfolding scalar_one_or_none
scalar-eq-none [] h = refl
scalar-eq-none (u ∷ []) h = cc
scalar-eq-none (u ∷ v ∷ users) h = cc

rows-add_one :
    (T : Table User) (user : User) (s t : T.Store)
    → IsLawful (λ u. u.id) T
    → add_all T (user ∷ []) s ≡ ok t
    → T.rows t ≡ T.rows s ++ user ∷ []
unfolding add_all
rows-add_one T user s t law h =
    let (u, added, same) = >>=-eq-ok (flush (T.add user s)) _ h in
    ap T.rows (sym (ok-injective same)) ∙ law.rows-add user s u (flush-eq-ok (T.add user s) added)

module _ (password_hash : String) (fresh : ℕ → String) (date : String) (S : Schema)
    (commit : State S → Option (State S)) where
  -- A commit changes no row of the users.
  abbrev pub IsKeeping : Type 0
  IsKeeping = (s t : State S) → commit s ≡ some t → S.users.rows t.users ≡ S.users.rows s.users

  abbrev run : State S → Result (State S)
  run = seed_data password_hash fresh date S commit

  abbrev administrators : State S → List User
  administrators s = filter (λ u. u.email == "admin@guardianpi.io") (S.users.rows s.users)

  rows-fill :
      (s t : State S)
      → IsLawful (λ u. u.id) S.users
      → IsKeeping
      → fill password_hash fresh date S commit s ≡ ok t
      → S.users.rows t.users ≡ S.users.rows s.users ++ admin password_hash fresh date ∷ []
  unfolding fill
  rows-fill s t law keeps h =
      let (users, added, h1) =
        >>=-eq-ok (add_all S.users (admin password_hash fresh date ∷ []) s.users) _ h in
      let (devices, more, h2) = >>=-eq-ok (add_all S.devices _ s.devices) _ h1 in
      let (alerts, more_alerts, h3) = >>=-eq-ok (add_all S.alerts _ s.alerts) _ h2 in
      let (policies, more_policies, h4) = >>=-eq-ok (add_all S.policies _ s.policies) _ h3 in
      let (audit_logs, logged, h5) = >>=-eq-ok (add_all S.audit_logs _ s.audit_logs) _ h4 in
      keeps _ t (flush-eq-ok (commit _) h5)
      ∙ rows-add_one S.users (admin password_hash fresh date) s.users users law added

  run-present :
      (s : State S) (user : User)
      → scalar_one_or_none (administrators s) ≡ ok (some user)
      → run s ≡ ok s
  unfolding seed_data
  run-present s user h = rw h refl

  one_administrator :
      (existing : Option User) (s t : State S)
      → IsLawful (λ u. u.id) S.users
      → IsKeeping
      → scalar_one_or_none (administrators s) ≡ ok existing
      → unless_present password_hash fresh date S commit existing s ≡ ok t
      → (user : User) × (administrators t ≡ user ∷ [])
  one_administrator none s t law keeps none_yet h =
      let is_admin : User → Bool = λ u. u.email == "admin@guardianpi.io" in
      let rows = rows-fill s t law keeps h in
      let before = scalar-eq-none (administrators s) none_yet in
      (
        admin password_hash fresh date,
        ap (filter {A = User} is_admin) rows
            ∙ filter-append is_admin (S.users.rows s.users) (admin password_hash fresh date ∷ [])
            ∙ ap (λ us. us ++ admin password_hash fresh date ∷ []) before,
      )
  one_administrator (some user) s t law keeps found h = (
    user,
    ap administrators (sym (ok-injective h))
        ∙ scalar-eq-some (λ u. u.id) user (administrators s) found,
  )

  -- Seeding a database that was seeded, at a later start of the server, changes nothing in it,
  -- whether the first run found an administrator or filled the tables; and there is exactly one
  -- user with the administrator's e-mail address then.
  pub seed_data-seed_data :
      (s t : State S)
      → IsLawful (λ u. u.id) S.users
      → IsKeeping
      → seed_data password_hash fresh date S commit s ≡ ok t
      → (seed_data password_hash fresh date S commit t ≡ ok t)
        × ((user : User) × (filter (λ u. u.email == "admin@guardianpi.io") (S.users.rows t.users)
              ≡ user ∷ []))
  unfolding seed_data scalar_one_or_none
  seed_data-seed_data s t law keeps h =
      let (existing, found, rest) = >>=-eq-ok (scalar_one_or_none (administrators s)) _ h in
      let (user, only) = one_administrator existing s t law keeps found rest in
      (run-present t user (ap scalar_one_or_none only), (user, only))
