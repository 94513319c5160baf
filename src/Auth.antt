-- ===== src/Auth.antt =====
-- backend/app/api/v1/auth.py and backend/app/schemas/auth.py.
pub mod Login
use Prim.Native.String.{count}
use guardian_pi.Base.{
  ℕ, ◌*◌, String, ◌<>◌, Bool, true, false, not, ◌&&◌, List, [], ◌∷◌, ◌++◌, Option, none, some, leb,
  contains, get_or, filter, ◌==◌, if◌then◌else◌,
}
use guardian_pi.Http.{Error, Result, ok, err, http, raised, require, ◌>>=◌, ◌>>◌}
use guardian_pi.Db.{Uuid, Table, flush, fetch, scalar_one_or_none, with_store}
use guardian_pi.Schemas.{Pydantic, UserResponse, user_response}
use guardian_pi.Models.{User, Time}
use guardian_pi.Deps.{
  Security, Claims, uuid, unauthorized, is_text, active, decode_or, require_role,
  create_access_token, create_refresh_token,
}

pub record TokenResponse : Type 0 where
  pub access_token : String
  pub refresh_token : String
  pub token_type : String
  pub expires_in : ℕ

pub record UserCreate : Type 0 where
  pub email : String
  pub password : String
  pub full_name : String
  pub role : String

abbrev pub length_between : ℕ → ℕ → String → Bool
length_between lo hi s = leb lo (count s) && leb (count s) hi

-- The constraints of the schema but for the form of the e-mail address.
unfoldable pub user_valid : UserCreate → Bool
user_valid r =
    length_between 12 128 r.password
    && length_between 1 255 r.full_name
    && contains ("admin" ∷ "analyst" ∷ "viewer" ∷ []) r.role

-- What a row with the claim "sub" of a token must be: payload["sub"] raises KeyError if it is missing.
abbrev pub subject_of : Claims → Result String
subject_of c = elim c.sub [ none ↦ err (raised "KeyError") | some s ↦ ok s ]

module _ (sec : Security) (T : Table User) where
  abbrev pub token_response : (now : Time) (jti jti' : String) → User → TokenResponse
  token_response now jti jti' user = record {
    access_token = create_access_token sec now jti user.id user.role;
    refresh_token = create_refresh_token sec now jti' user.id;
    token_type = "bearer";
    expires_in = sec.jwt_access_token_expire_minutes * 60;
  }

  -- `if not user or not verify_password(password, user.password_hash)`
  abbrev pub authenticate : (password : String) → Option User → Result User
  authenticate password none = err (unauthorized "Invalid email or password")
  authenticate password (some user) =
      if sec.checkpw password user.password_hash
      then ok user
      else err (unauthorized "Invalid email or password")

  abbrev pub logged_in : Time → User → User
  logged_in now user = record user { last_login = some now }

  -- The bounds of the password's length are the schema's.
  unfoldable pub login :
      (now : Time) (jti jti' : String)
      → (email password : String) → T.Store
      → Result (TokenResponse × T.Store)
  login now jti jti' email password s = do
    require (length_between 8 128 password) (http 422 "Unprocessable Entity")
    user ← scalar_one_or_none (filter (λ u. u.email == email) (T.rows s))
    user ← authenticate password user
    require user.is_active (http 403 "Account is disabled")
    t ← flush (T.save (logged_in now user) s)
    ok (token_response now jti jti' user, t)

  -- The user of a refresh token's claims.
  unfoldable pub refreshed_user : Claims → List User → Result User
  refreshed_user payload users = do
    require (is_text payload.type "refresh") (unauthorized "Invalid token type")
    sub ← subject_of payload
    id ← uuid sec sub
    user ← fetch (λ u. u.id) id users
    active (unauthorized "User not found") user

  unfoldable pub refresh_token :
      (now : Time) (jti jti' : String) → (token : String) → T.Store → Result TokenResponse
  unfolding refreshed_user
  refresh_token now jti jti' token s = do
    payload ← decode_or sec now token (unauthorized "Invalid refresh token")
    user ← refreshed_user payload (T.rows s)
    ok (token_response now jti jti' user)

  abbrev pub new_user : (id : Uuid) (now : Time) → UserCreate → User
  new_user id now r = record {
    id = id;
    email = r.email;
    password_hash = sec.hashpw r.password;
    full_name = r.full_name;
    role = r.role;
    is_active = true;
    last_login = none;
    created_at = now;
    mfa_secret = none;
  }

  -- `if existing.scalar_one_or_none(): raise`
  abbrev pub absent : Option User → Result (Unit {0})
  absent none = ok tt
  absent (some u) = err (http 409 "Email already registered")

  module _ (pydantic : Pydantic) where
    unfoldable pub create_user :
        (id : Uuid) (now : Time)
        → UserCreate
        → Result User
        → T.Store
        → Result (UserResponse × T.Store)
    create_user id now request current_user s = do
      user ← current_user
      require_role ("admin" ∷ []) user
      require (user_valid request) (http 422 "Unprocessable Entity")
      existing ← scalar_one_or_none (filter (λ u. u.email == request.email) (T.rows s))
      absent existing
      t ← flush (T.add (new_user id now request) s)
      with_store (user_response pydantic (new_user id now request)) t

    unfoldable pub get_me : Result User → Result UserResponse
    get_me current_user = current_user >>= user_response pydantic
