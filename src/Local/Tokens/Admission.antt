-- ===== src/Local/Tokens/Admission.antt =====
-- Whom the development server admits.
use guardian_pi.Base.{
  ℕ, ◌+◌, ◌≤◌, String, ◌≡◌, refl, sym, ap, ◌∙◌, Bool, true, false, List, [], Option, none, some,
  filter, All, All-filter, ◌==◌, eq_iff, arith, if◌then◌else◌,
}
use mathlib.Core.Path.{subst}
use guardian_pi.Http.{ok, err, http, >>=-eq-ok}
use guardian_pi.Db.{Table, IsLawful, flush, fetch, scalar_one_or_none}
use guardian_pi.Db.Laws.{fetch-overwrite_self, scalar-eq-some, filter-head}
use guardian_pi.Db.Modify.{flush-eq-ok, ok-injective}
use guardian_pi.Local.Tables.{User}
use guardian_pi.Local.Tokens.{
  TokenClaims, Libraries, LoginResponse, make_token, make_refresh, get_current_user, verified,
  login,
}

-- Each row is the one that its id loads.
abbrev pub IsKeyed : List User → Type 0
IsKeyed users = All (λ u. fetch (λ v. v.id) u.id users ≡ ok (some u)) users

verified-eq-ok :
    (L : Libraries) (password : String) (found : Option User) {user : User}
    → verified L password found ≡ ok user
    → (found ≡ some user) × (L.checkpw password user.password_hash ≡ true)
verified-eq-ok L password none h = cc
verified-eq-ok L password (some u) {user} h = if_ok (L.checkpw password u.password_hash) refl h
  where
    if_ok :
        (b : Bool)
        → L.checkpw password u.password_hash ≡ b
        → (if b then ok u else err (http 401 "Invalid credentials")) ≡ ok user
        → (some u ≡ some user) × (L.checkpw password user.password_hash ≡ true)
    if_ok true good same =
        let e = ok-injective same in
        (ap some e, ap (λ v. L.checkpw password v.password_hash) (sym e) ∙ good)
    if_ok false bad same = cc

-- Both tokens of a response admit one user, whose e-mail address and password these are.
abbrev pub IsAdmitting :
    Libraries → (later : ℕ) → LoginResponse → (email password : String) → List User → Type 0
IsAdmitting L later response email password users =
    (user : User) × ((get_current_user L later (some response.access_token) users ≡ ok user)
      × ((get_current_user L later (some response.refresh_token) users ≡ ok user)
          × ((user.email ≡ email) × (L.checkpw password user.password_hash ≡ true))))

abbrev pub access_claims : (now : ℕ) → User → TokenClaims
access_claims now user = record {
  sub = some user.id;
  role = some user.role;
  type = some "access";
  exp = now + 3600;
}

abbrev pub refresh_claims : (now : ℕ) → User → TokenClaims
refresh_claims now user = record {
  sub = some user.id;
  role = none;
  type = some "refresh";
  exp = now + 604800;
}

-- A token is read until its date of expiry.
abbrev pub IsRead : Libraries → (later : ℕ) → TokenClaims → Type 0
IsRead L later c = later ≤ c.exp → L.decode later (L.encode c) ≡ some c

module _ (L : Libraries) where
  admitted_by :
      (c : TokenClaims) (now : ℕ) (user : User) (users : List User)
      → now ≤ c.exp
      → IsRead L now c
      → c.sub ≡ some user.id
      → fetch (λ u. u.id) user.id users ≡ ok (some user)
      → get_current_user L now (some (L.encode c)) users ≡ ok user
  unfolding get_current_user
  admitted_by c now user users early readable named stored =
      rw (get_current_user, readable early, named, stored) refl

  abbrev tokens_of : (now : ℕ) → User → LoginResponse
  tokens_of now user = record {
    access_token = L.encode (access_claims now user);
    refresh_token = L.encode (refresh_claims now user);
    token_type = "bearer";
    expires_in = 3600;
  }

  -- After a login, both tokens that it returned, the refresh token as well as the access token,
  -- admit the user to the endpoints for the next hour, as the row then stands, also where the
  -- account is not active; the row has the e-mail address and the password of the login.
  pub login-get_current_user :
      (T : Table User) (now later : ℕ) (date email password : String) (s t : T.Store)
      (response : LoginResponse)
      → IsLawful (λ u. u.id) T
      → IsKeyed (T.rows s)
      → All
          (λ u. IsRead L later (access_claims now u) × IsRead L later (refresh_claims now u))
          (T.rows s)
      → login L T now date (some email) (some password) s ≡ ok (response, t)
      → later ≤ now + 3600
      → IsAdmitting L later response email password (T.rows t)
  unfolding login make_token make_refresh
  login-get_current_user T now later date email password s t response db keyed readable h early =
      let matches = filter (λ u. u.email == email) (T.rows s) in
      let (found, loaded, after_load) = >>=-eq-ok (scalar_one_or_none matches) _ h in
      let (user, checked, after_check) = >>=-eq-ok (verified L password found) _ after_load in
      let (is_found, good) = verified-eq-ok L password found checked in
      let (u, saved, answered) =
        >>=-eq-ok (flush (T.save (record user { last_login = some date }) s)) _ after_check in
      let only = scalar-eq-some (λ u. u.id) user matches (loaded ∙ ap ok is_found) in
      let mail =
        (eq_iff user.email email).0
          (filter-head (λ u. u.id) (λ u. u.email == email) (T.rows s) user [] only) in
      let stored =
        subst (All (λ u. fetch (λ v. v.id) u.id (T.rows s) ≡ ok (some u))) only
          (All-filter _ (λ u. u.email == email) (T.rows s) keyed) in
      let jwt =
        subst
          (All (λ u. IsRead L later (access_claims now u) × IsRead L later (refresh_claims now u)))
          only (All-filter _ (λ u. u.email == email) (T.rows s) readable) in
      let row = record user { last_login = some date } in
      let written : fetch (λ u. u.id) row.id (T.rows u) ≡ ok (some row) =
        rw (db.rows-save row s u (flush-eq-ok (T.save row s) saved))
          (fetch-overwrite_self (λ u. u.id) row user (T.rows s) stored.0) in
      let same = ap (λ p. p.1) (ok-injective answered) in
      let answer = ap (λ p. p.0) (ok-injective answered) in
      let tokens : IsAdmitting L later (tokens_of now row) email password (T.rows u) = (
        row,
        (
          admitted_by (access_claims now row) later row (T.rows u) early jwt.0.0 refl written,
          (
            admitted_by (refresh_claims now row) later row (T.rows u) (omega (arith, early)) jwt.0.1
                refl written,
            (mail, good),
          ),
        ),
      ) in
      subst (λ r. IsAdmitting L later r email password (T.rows t)) answer
        (subst (λ v. IsAdmitting L later (tokens_of now row) email password (T.rows v)) same tokens)
