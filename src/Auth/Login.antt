-- ===== src/Auth/Login.antt =====
-- Who gets tokens, and what becomes of the requests for new users.
use guardian_pi.Base.{
  refl, ◌↔◌, contains, ◌∙◌, String, ◌≡◌, sym, ap, true, List, [], ◌∷◌, Option, none, some, arith,
  filter, ◌==◌,
}
use guardian_pi.Http.{
  Result, ok, err, http, require, ◌>>=◌, ◌>>◌, >>=-eq-ok, >>-eq-ok, require->>-eq-ok,
}
use guardian_pi.Db.{Uuid, Table, IsLawful, scalar_one_or_none, flush, overwrite}
use guardian_pi.Db.Modify.{flush-eq-ok, ok-injective}
use guardian_pi.Schemas.{Pydantic}
use guardian_pi.Schemas.Refused.{
  IsPydantic, IsErr, IsRefused, >>=-IsErr, with_store-IsErr, get_db-IsRefused, user_response-IsErr,
  user_response-eq,
}
use guardian_pi.Schemas.Reached.{
  IsOther, validation_error, >>=-eq-validation_error, ok-IsOther, err-IsOther, require-IsOther,
  require_role-IsOther, scalar-IsOther, flush-IsOther, http_ne, require-eq-ok, require_role-eq,
}
use guardian_pi.Deps.Access.{require_role-eq-ok}
use guardian_pi.Models.{User, Time}
use guardian_pi.Deps.{Security, require_role}
use guardian_pi.Auth.{
  TokenResponse, UserCreate, user_valid, login, create_user, get_me, new_user, absent, authenticate,
  logged_in, token_response, length_between,
}

-- Why a login gave tokens to `user`.
pub record IsAuthentic (sec : Security) (users : List User) (email password : String) (user : User)
    : Type 0 where
  pub listed : scalar_one_or_none (filter (λ u. u.email == email) users) ≡ ok (some user)
  pub password_fits : sec.checkpw password user.password_hash ≡ true
  pub is_active : user.is_active ≡ true

module _ (sec : Security) (T : Table User) where
  authenticate-eq-ok :
      (password : String) (o : Option User) {user : User}
      → authenticate sec T password o ≡ ok user
      → (o ≡ some user) × (sec.checkpw password user.password_hash ≡ true)
  authenticate-eq-ok password none h = absurd (cc)
  authenticate-eq-ok password (some u) h = ground arith

  -- A login that succeeds names the one user of the e-mail address, whose password fits and who is
  -- active; the tokens are that user's, and the store is that user's row with the time of login.
  pub login-IsAuthentic :
      (now : Time) (jti jti' email password : String) (s t : T.Store) (response : TokenResponse)
      → IsLawful (λ u. u.id) T
      → login sec T now jti jti' email password s ≡ ok (response, t)
      → (user : User) × IsAuthentic sec (T.rows s) email password user
        × (response ≡ token_response sec T now jti jti' user)
        × (T.rows t ≡ overwrite (λ u. u.id) (record user { last_login = some now }) (T.rows s))
  unfolding login
  login-IsAuthentic now jti jti' email password s t response law h =
      let h1 =
        >>-eq-ok (require (length_between 8 128 password) (http 422 "Unprocessable Entity")) _ h in
      let (o, listed, h2) =
        >>=-eq-ok (scalar_one_or_none (filter (λ u. u.email == email) (T.rows s)))
          (λ user. authenticate sec T password user >>= λ user.
            require user.is_active (http 403 "Account is disabled")
            >> (flush (T.save (logged_in sec T now user) s) >>= λ t.
                ok (token_response sec T now jti jti' user, t)))
          h1 in
      let (user, authentic, h3) =
        >>=-eq-ok (authenticate sec T password o)
          (λ user.
            require user.is_active (http 403 "Account is disabled")
            >> (flush (T.save (logged_in sec T now user) s) >>= λ t.
                ok (token_response sec T now jti jti' user, t)))
          h2 in
      let (is_user, fits) = authenticate-eq-ok password o authentic in
      let is_active = require->>-eq-ok user.is_active (http 403 "Account is disabled") _ h3 in
      let h4 = >>-eq-ok (require user.is_active (http 403 "Account is disabled")) _ h3 in
      let (u, saved, h5) =
        >>=-eq-ok (flush (T.save (logged_in sec T now user) s))
          (λ t. ok (token_response sec T now jti jti' user, t)) h4 in
      let same : u ≡ t = ap (λ (p : TokenResponse × T.Store). p.1) (ok-injective h5) in
      (
        user,
        record { listed = cc; password_fits = fits; is_active = is_active },
        sym (ap (λ (p : TokenResponse × T.Store). p.0) (ok-injective h5)),
        law.rows-save (logged_in sec T now user) s t
            (cc (flush-eq-ok (T.save (logged_in sec T now user) s) saved)),
      )

  absent-eq-ok : (o : Option User) {u : Unit {0}} → absent sec T o ≡ ok u → o ≡ none
  absent-eq-ok none h = refl
  absent-eq-ok (some u) h = absurd (cc)

  absent-IsOther : (o : Option User) → IsOther (absent sec T o)
  absent-IsOther none = ok-IsOther tt
  absent-IsOther (some u) = err-IsOther _ (http_ne 409 "Email already registered")

  -- What a creation must pass to get as far as its response, which no row passes.
  abbrev pub IsReached : (id : Uuid) (now : Time) → UserCreate → User → T.Store → Type 0
  IsReached id now request admin s =
      (contains ("admin" ∷ []) admin.role ≡ true)
      × ((user_valid request ≡ true)
          × ((scalar_one_or_none (filter (λ u. u.email == request.email) (T.rows s)) ≡ ok none)
              × ((t : T.Store) × (T.add (new_user sec T id now request) s ≡ some t))))

  module _ (pydantic : Pydantic) (id : Uuid) (now : Time) (request : UserCreate) (admin : User)
      (s : T.Store) where
    reached :
        create_user sec T pydantic id now request (ok admin) s ≡ err validation_error
        → IsReached id now request admin s
    unfolding create_user
    reached h =
        let same_email = filter (λ u. u.email == request.email) (T.rows s) in
        let (u, has_role, h1) =
          >>=-eq-validation_error (require_role ("admin" ∷ []) admin) _
            (require_role-IsOther ("admin" ∷ []) admin) h in
        let (_, valid, h2) =
          >>=-eq-validation_error (require (user_valid request) (http 422 "Unprocessable Entity")) _
            (require-IsOther (user_valid request) _ (http_ne 422 "Unprocessable Entity")) h1 in
        let (existing, listed, h3) =
          >>=-eq-validation_error (scalar_one_or_none same_email) _ (scalar-IsOther same_email)
            h2 in
        let (_, is_absent, h4) =
          >>=-eq-validation_error (absent sec T existing) _ (absent-IsOther existing) h3 in
        let (t, added, _) =
          >>=-eq-validation_error (flush (T.add (new_user sec T id now request) s)) _
            (flush-IsOther (T.add (new_user sec T id now request) s)) h4 in
        (
          (require_role-eq-ok ("admin" ∷ []) admin has_role).0,
          (
            require-eq-ok (user_valid request) (http 422 "Unprocessable Entity") valid,
            (
              listed ∙ ap ok (absent-eq-ok existing is_absent),
              (t, flush-eq-ok (T.add (new_user sec T id now request) s) added),
            ),
          ),
        )

    reaches :
        IsPydantic pydantic
        → IsReached id now request admin s
        → create_user sec T pydantic id now request (ok admin) s ≡ err validation_error
    unfolding create_user
    reaches law (role, (valid, (listed, (t, added)))) =
        rw
          (
            require_role-eq ("admin" ∷ []) admin role,
            valid,
            listed,
            added,
            user_response-eq pydantic law (new_user sec T id now request) t,
          )
          refl

  -- UserResponse takes no row, as its id is declared `str` and the row's is a uuid.UUID: whoever asks
  -- for a new user, the request is answered by an exception and the database is left as it was; and
  -- nobody is told who they are. A creation by a known user gets as far as this exception exactly if
  -- that user is an admin, the request is valid, no row has its e-mail address, and the row is added.
  pub create_user-IsRefused :
      (pydantic : Pydantic) (commit : T.Store → Option T.Store) (id : Uuid) (now : Time)
      (request : UserCreate) (user : Result User) (admin : User) (s : T.Store)
      → IsPydantic pydantic
      → IsRefused commit (create_user sec T pydantic id now request user) s
        × IsErr (get_me sec T pydantic user)
        × ((create_user sec T pydantic id now request (ok admin) s ≡ err validation_error)
            ↔ IsReached id now request admin s)
  unfolding create_user get_me
  create_user-IsRefused pydantic commit id now request user admin s law = (
    get_db-IsRefused commit (create_user sec T pydantic id now request user) s (
        >>=-IsErr user _ (λ admin. >>=-IsErr (require_role ("admin" ∷ []) admin) _ (λ _.
          >>=-IsErr (require (user_valid request) (http 422 "Unprocessable Entity")) _ (λ _.
            >>=-IsErr (scalar_one_or_none (filter (λ u. u.email == request.email) (T.rows s))) _
              (λ existing. >>=-IsErr (absent sec T existing) _ (λ _.
                >>=-IsErr (flush (T.add (new_user sec T id now request) s)) _ (λ t.
                  with_store-IsErr _ t
                    (user_response-IsErr pydantic law (new_user sec T id now request))))))))),
    >>=-IsErr user _ (λ user. user_response-IsErr pydantic law user),
    (reached pydantic id now request admin s, reaches pydantic id now request admin s law),
  )
