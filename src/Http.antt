-- ===== src/Http.antt =====
-- What an endpoint returns or raises: the `HTTPException`s of backend/app/api, and the exceptions
-- that the framework turns into an internal error.
use guardian_pi.Base.{ℕ, String, ◌≡◌, refl, Bool, true, false}

pub data Error : Type 0 where
  -- raise HTTPException(status_code, detail)
  http : (status_code : ℕ) (detail : String) → Error
  -- any other exception
  raised : String → Error

-- A response, or what was raised instead of one.
pub data Result {ℓ} (R : Type ℓ) : Type ℓ where
  err : (raising : Error) → Result R
  ok : (response : R) → Result R

module _ {ℓ κ} {R : Type ℓ} {R' : Type κ} where
  infixl 5 ◌>>=◌
  abbrev pub ◌>>=◌ : Result R → (R → Result R') → Result R'
  err raising >>= rest = err raising
  ok response >>= rest = rest response

  infixl 5 ◌>>◌
  abbrev pub ◌>>◌ : Result R → Result R' → Result R'
  first >> rest = first >>= λ ignored. rest

-- `if not test: raise e`
abbrev pub require : (test : Bool) → Error → Result (Unit {0})
require false raising = err raising
require true raising = ok tt

module _ {ℓ κ} {R : Type ℓ} {R' : Type κ} where
  -- What stands behind a bind that succeeded.
  pub >>=-eq-ok :
      (first : Result R) (rest : R → Result R') {response : R'}
      → (first >>= rest) ≡ ok response
      → (found : R) × (first ≡ ok found) × (rest found ≡ ok response)
  >>=-eq-ok (err raising) rest succeeds = cc
  >>=-eq-ok (ok found) rest succeeds = (found, refl, succeeds)

  pub >>-eq-ok :
      (first : Result R) (rest : Result R') {response : R'}
      → (first >> rest) ≡ ok response
      → rest ≡ ok response
  >>-eq-ok (err raising) rest succeeds = cc
  >>-eq-ok (ok found) rest succeeds = succeeds

-- A guard that was passed held.
pub require->>-eq-ok {ℓ} :
    {R : Type ℓ} (test : Bool) (raising : Error) (rest : Result R) {response : R}
    → (require test raising >> rest) ≡ ok response
    → test ≡ true
require->>-eq-ok true raising rest succeeds = refl
require->>-eq-ok false raising rest succeeds = cc
