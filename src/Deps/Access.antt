-- ===== src/Deps/Access.antt =====
-- Who gets past the dependencies of an endpoint.
use guardian_pi.Base.{
  String, ◌≡◌, refl, ◌≢◌, ◌↔◌, Bool, true, false, List, [], ◌∷◌, Option, none, some, any, contains,
  ◌==◌, eq_iff, arith, ◌⊎◌, inl, inr, Option-cases, ap, sym, ◌∙◌, ◌<>◌, join,
}
use guardian_pi.Http.{Error, Result, ok, err, http, ◌>>=◌}
use guardian_pi.Db.{Uuid, fetch}
use guardian_pi.Db.Laws.{key-fetch}
use guardian_pi.Models.{User, Time}
use guardian_pi.Deps.{
  Security, Claims, get_current_user, require_role, create_refresh_token, validate_agent_api_key,
  active, unauthorized, load_user, is_text,
}

is_text-eq : (o : Option String) (t : String) → is_text o t ≡ true → o ≡ some t
is_text-eq none t h = cc
is_text-eq (some s) t h = ap some ((eq_iff s t).0 h)

active-eq-ok :
    (e : Error) (r : Result (Option User)) (user : User)
    → (r >>= active e) ≡ ok user
    → (r ≡ ok (some user)) × (user.is_active ≡ true)
active-eq-ok e (err x) user h = cc
active-eq-ok e (ok none) user h = cc
active-eq-ok e (ok (some u)) user h = ground arith

-- Why claims let a request in as `user`.
pub record IsAdmitted (sec : Security) (users : List User) (claims : Claims) (user : User)
    : Type 0 where
  pub access : claims.type ≡ some "access"
  pub subject : String
  pub names : claims.sub ≡ some subject
  pub parsed : sec.parse_uuid subject ≡ some user.id
  pub loaded : fetch (λ u. u.id) user.id users ≡ ok (some user)
  pub is_active : user.is_active ≡ true

module _ (sec : Security) (users : List User) (user : User) where
  admit :
      (claims : Claims) (subject : String) (id : Uuid)
      → is_text claims.type "access" ≡ true
      → claims.sub ≡ some subject
      → sec.parse_uuid subject ≡ some id
      → (fetch (λ u. u.id) id users >>= active (unauthorized "User not found or inactive"))
        ≡ ok user
      → IsAdmitted sec users claims user
  admit claims subject id type names parsed h =
      let (loaded, act) = active-eq-ok _ (fetch (λ u. u.id) id users) user h in
      let same = key-fetch (λ u. u.id) id user users loaded in
      record {
        access = is_text-eq claims.type "access" type;
        subject = subject;
        names = names;
        parsed = rw same parsed;
        loaded = cc;
        is_active = act;
      }

  load_user-IsAdmitted :
      (claims : Claims) → load_user sec users claims ≡ ok user → IsAdmitted sec users claims user
  unfolding load_user
  load_user-IsAdmitted claims h = elim (Option-cases claims.sub) [
    | inl missing ↦ absurd (ground arith)
    | inr (s, e) ↦ elim (Option-cases (sec.parse_uuid s)) [
      | inl bad ↦ absurd (ground arith)
      | inr (id, p) ↦ admit claims s id (ground arith) e p (ground arith)
    ]
  ]

-- A user that get_current_user returns is active and is the one row with the id that the subject
-- of the token parses to, and the token decodes to claims of type access.
pub get_current_user-IsAdmitted :
    (sec : Security) (now : Time) (users : List User) (token : String) (user : User)
    → get_current_user sec now users (some token) ≡ ok user
    → (claims : Claims) × (sec.decode now token ≡ some claims) × IsAdmitted sec users claims user
unfolding get_current_user
get_current_user-IsAdmitted sec now users token user h =
    elim (Option-cases (sec.decode now token)) [
      | inl bad ↦ absurd (ground arith)
      | inr (claims, e) ↦ (claims, e, load_user-IsAdmitted sec users user claims (ground arith))
    ]

text_ne : ◌≢◌ {A = Option String} (some "refresh") (some "access")
text_ne h = ground (arith, eq_iff "refresh" "access")

-- Where a token decodes to nothing but the claims that were encoded, a refresh token is never
-- accepted as the bearer token of a request, whatever the users and the times.
pub get_current_user-create_refresh_token :
    (sec : Security) (now later : Time) (users : List User) (jti subject : String) (user : User)
    → ((t : Time) (c d : Claims) → sec.decode t (sec.encode c) ≡ some d → d ≡ c)
    → get_current_user sec later users (some (create_refresh_token sec now jti subject)) ≢ ok user
unfolding create_refresh_token
get_current_user-create_refresh_token sec now later users jti subject user law h =
    let (claims, decoded, admitted) = get_current_user-IsAdmitted sec later users _ user h in
    text_ne (sym (ap (λ (c : Claims). c.type) (law later _ claims decoded)) ∙ admitted.access)

pub require_role-eq-ok :
    (roles : List String) (user : User) {u : User}
    → require_role roles user ≡ ok u
    → (contains roles user.role ≡ true) × (u ≡ user)
unfolding require_role
require_role-eq-ok roles user h = ground arith

-- A user who is let in has a role of the list, and is returned unchanged; one with another role is
-- answered 403.
pub require_role_cases :
    (roles : List String) (user : User)
    → ((contains roles user.role ≡ true) × (require_role roles user ≡ ok user))
      ⊎ ((contains roles user.role ≡ false)
          × (require_role roles user
              ≡ err (http 403 ("Requires one of roles: " <> join ", " roles))))
unfolding require_role
require_role_cases roles user = ground arith

any-contains :
    (test : String → String → Bool) (key : String) (keys : List String)
    → ((a b : String) → test a b ≡ (a == b))
    → any (test key) keys ≡ contains keys key
any-contains test key [] law = refl
any-contains test key (k ∷ keys) law =
    ground (arith, any-contains test key keys law, law key k, eq_iff key k, eq_iff k key)

-- Where the digest comparison is equality, a key is let in exactly if it is not empty and is one of
-- the configured keys.
pub validate_agent_api_key-eq-ok :
    (sec : Security) (key : String)
    → ((a b : String) → sec.compare_digest a b ≡ (a == b))
    → (validate_agent_api_key sec (some key) ≡ ok key)
      ↔ ((key ≢ "") × (contains sec.agent_api_keys key ≡ true))
unfolding validate_agent_api_key
validate_agent_api_key-eq-ok sec key law =
    rw (any-contains sec.compare_digest key sec.agent_api_keys law) (ground (arith, eq_iff key ""))
