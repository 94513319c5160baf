-- ===== src/Local/Tokens.antt =====
-- run_local.py: its passwords and tokens, the user of a request, and the login.
pub mod Admission
use guardian_pi.Base.{
  ℕ, ◌+◌, String, Bool, true, false, List, [], ◌∷◌, Option, none, some, filter, get_or, ◌==◌,
  if◌then◌else◌,
}
use guardian_pi.Http.{Error, Result, ok, err, http, raised, ◌>>=◌}
use guardian_pi.Db.{Table, flush, fetch, found, scalar_one_or_none}
use guardian_pi.Local.Tables.{User}

pub record TokenClaims : Type 0 where
  pub sub : Option String
  pub role : Option String
  pub type : Option String
  pub exp : ℕ

-- What it uses of python-jose, with the secret key, and of bcrypt. `none` is an exception.
pub record Libraries : Type 0 where
  pub encode : TokenClaims → String
  pub decode : (now : ℕ) → String → Option TokenClaims
  pub hashpw : String → String
  pub checkpw : String → String → Bool

pub record LoginResponse : Type 0 where
  pub access_token : String
  pub refresh_token : String
  pub token_type : String
  pub expires_in : ℕ

pub record MeResponse : Type 0 where
  pub id : String
  pub email : String
  pub full_name : String
  pub role : String
  pub is_active : Bool

module _ (L : Libraries) where
  unfoldable pub make_token : (now : ℕ) (user_id role : String) → String
  make_token now user_id role =
      L.encode
        (record { sub = some user_id; role = some role; type = some "access"; exp = now + 3600 })

  unfoldable pub make_refresh : (now : ℕ) (user_id : String) → String
  make_refresh now user_id =
      L.encode
        (record { sub = some user_id; role = none; type = some "refresh"; exp = now + 604800 })

  abbrev pub decode_tok : (now : ℕ) → String → Result TokenClaims
  decode_tok now token = found (http 401 "Invalid token") (L.decode now token)

  -- payload["sub"]
  abbrev pub subject_of : TokenClaims → Result String
  subject_of c = found (raised "KeyError") c.sub

  -- `bearer` is what follows "Bearer " in the header; `none` is a header without that prefix.
  unfoldable pub get_current_user : (now : ℕ) → (bearer : Option String) → List User → Result User
  get_current_user now none users = err (http 401 "Missing token")
  get_current_user now (some token) users = do
    payload ← decode_tok now token
    sub ← subject_of payload
    user ← fetch (λ u. u.id) sub users
    found (http 401 "User not found") user

  -- `if not user or not verify_pw(...)`
  abbrev verified : (password : String) → Option User → Result User
  verified password none = err (http 401 "Invalid credentials")
  verified password (some user) =
      if L.checkpw password user.password_hash
      then ok user
      else err (http 401 "Invalid credentials")

  -- `email = None` is no user's; the new date is the text of `now`.
  abbrev with_email : Option String → List User → List User
  with_email none users = []
  with_email (some email) users = filter (λ u. u.email == email) users

  unfoldable pub login :
      (T : Table User) (now : ℕ) (date : String) (email password : Option String)
      → T.Store
      → Result (LoginResponse × T.Store)
  login T now date email password s = do
    user ← scalar_one_or_none (with_email email (T.rows s))
    user ← verified (get_or password "") user
    t ← flush (T.save (record user { last_login = some date }) s)
    ok (
      record {
        access_token = make_token now user.id user.role;
        refresh_token = make_refresh now user.id;
        token_type = "bearer";
        expires_in = 3600;
      },
      t,
    )

  unfoldable pub get_me : Result User → Result MeResponse
  get_me user = do
    user ← user
    ok (record {
      id = user.id;
      email = user.email;
      full_name = user.full_name;
      role = user.role;
      is_active = user.is_active;
    })
