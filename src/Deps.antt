-- ===== src/Deps.antt =====
-- backend/app/api/deps.py and the parts of backend/app/core/security.py that it and the login use.
-- The JWT library, bcrypt and the constant-time comparison are parameters.
pub mod Access
use guardian_pi.Base.{
  ℕ, String, ◌<>◌, ◌≡◌, Bool, true, false, not, ◌&&◌, ◌||◌, List, [], ◌∷◌, Option, none, some, any,
  contains, ◌==◌, if◌then◌else◌, ◌+◌, ◌*◌, get_or, join,
}
use guardian_pi.Http.{Error, Result, ok, err, http, raised, require, ◌>>=◌, ◌>>◌}
use guardian_pi.Db.{Uuid, fetch, scalar_one_or_none}
use guardian_pi.Models.{User, Time}

-- The claims of a token. A claim that a token lacks is `none`.
pub record Claims : Type 0 where
  pub sub : Option String
  pub role : Option String
  pub type : Option String
  pub iat : Time
  pub exp : Time
  pub jti : String

-- What security.py uses of other packages, and the settings that it reads.
pub record Security : Type 0 where
  -- jwt.encode with the secret key; jwt.decode, `none` where it raises JWTError
  pub encode : Claims → String
  pub decode : Time → String → Option Claims
  -- bcrypt.hashpw with a fresh salt, bcrypt.checkpw
  pub hashpw : String → String
  pub checkpw : String → String → Bool
  -- secrets.compare_digest, on the ASCII texts that it accepts
  pub compare_digest : String → String → Bool
  -- uuid.UUID: `none` where it raises ValueError
  pub parse_uuid : String → Option Uuid
  pub agent_api_keys : List String
  pub jwt_access_token_expire_minutes : ℕ
  pub jwt_refresh_token_expire_minutes : ℕ

-- UUID(text), where a text that is none raises ValueError.
abbrev pub uuid : Security → String → Result Uuid
uuid sec text = elim (sec.parse_uuid text) [ none ↦ err (raised "ValueError") | some id ↦ ok id ]

-- d.get(k) == t
abbrev pub is_text : Option String → String → Bool
is_text none t = false
is_text (some s) t = s == t

abbrev pub unauthorized : String → Error
unauthorized = http 401

-- `if not user or not user.is_active: raise e`
abbrev pub active : Error → Option User → Result User
active e none = err e
active e (some user) = if user.is_active then ok user else err e

module _ (sec : Security) where
  unfoldable pub create_access_token : (now : Time) (jti subject role : String) → String
  create_access_token now jti subject role = sec.encode (record {
    sub = some subject;
    role = some role;
    type = some "access";
    iat = now;
    exp = now + sec.jwt_access_token_expire_minutes * 60;
    jti = jti;
  })

  unfoldable pub create_refresh_token : (now : Time) (jti subject : String) → String
  create_refresh_token now jti subject = sec.encode (record {
    sub = some subject;
    role = none;
    type = some "refresh";
    iat = now;
    exp = now + sec.jwt_refresh_token_expire_minutes * 60;
    jti = jti;
  })

  -- decode_token under `try ... except Exception: raise e`
  abbrev pub decode_or : Time → String → Error → Result Claims
  decode_or now token e = elim (sec.decode now token) [ none ↦ err e | some c ↦ ok c ]

  -- payload.get("sub"), and the exception if it is missing or empty
  abbrev pub subject_or : Error → Claims → Result String
  subject_or e c = elim c.sub [ none ↦ err e | some s ↦ if s == "" then err e else ok s ]

  -- The user whom the claims of an access token name.
  unfoldable pub load_user : List User → Claims → Result User
  load_user users payload = do
    require (is_text payload.type "access") (unauthorized "Invalid token type")
    user_id ← subject_or (unauthorized "Invalid token payload") payload
    id ← uuid sec user_id
    user ← fetch (λ u. u.id) id users
    active (unauthorized "User not found or inactive") user

  -- The bearer token of a request to its user.
  unfoldable pub get_current_user : Time → List User → (credentials : Option String) → Result User
  unfolding load_user
  get_current_user now users none = err (unauthorized "Missing authentication credentials")
  get_current_user now users (some credentials) = do
    payload ← decode_or now credentials (unauthorized "Invalid or expired token")
    load_user users payload

  unfoldable pub validate_api_key : String → Bool
  validate_api_key api_key = any (sec.compare_digest api_key) sec.agent_api_keys

  unfoldable pub validate_agent_api_key : Option String → Result String
  unfolding validate_api_key
  validate_agent_api_key none = err (unauthorized "Invalid or missing API key")
  validate_agent_api_key (some api_key) =
      if not (api_key == "") && validate_api_key api_key
      then ok api_key
      else err (unauthorized "Invalid or missing API key")

  -- decode_ws_token: `none` is the empty dict.
  unfoldable pub decode_ws_token : Time → String → Option Claims
  decode_ws_token now token = sec.decode now token

-- The dependency that an endpoint names with its roles.
unfoldable pub require_role : List String → User → Result User
require_role allowed_roles user =
    if contains allowed_roles user.role
    then ok user
    else err (http 403 ("Requires one of roles: " <> join ", " allowed_roles))
