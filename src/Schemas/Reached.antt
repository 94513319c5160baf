-- ===== src/Schemas/Reached.antt =====
-- Which requests get as far as the response: the other errors of the endpoints are other ones.
use guardian_pi.Base.{
  ℕ, Bool-cases, inl, inr, String, ◌≡◌, ◌≢◌, refl, ap, ◌∙◌, Bool, true, false, List, [], ◌∷◌,
  Option, none, some, contains, filter, arith, eq_iff, ◌==◌,
}
use guardian_pi.Http.{Error, http, raised, Result, ok, err, require, ◌>>=◌}
use guardian_pi.Db.{Uuid, Table, flush, fetch, found, modify, scalar_one_or_none}
use guardian_pi.Models.{User}
use guardian_pi.Deps.{require_role}

abbrev pub validation_error : Error
validation_error = raised "ValidationError"

-- An error of the result is not pydantic's.
abbrev pub IsOther {ℓ} : {A : Type ℓ} → Result A → Type ℓ
IsOther r = (e : Error) → r ≡ err e → e ≢ validation_error

pub http_ne : (status_code : ℕ) (detail : String) → http status_code detail ≢ validation_error
http_ne status_code detail h = cc

raised_ne : (name : String) → (name == "ValidationError") ≡ false → raised name ≢ validation_error
raised_ne name other h = ground (arith, other, eq_iff name "ValidationError", ap name_of h)
  where
    name_of : Error → String
    name_of (raised exception) = exception
    name_of (http status_code detail) = name

error_of {ℓ} : {A : Type ℓ} → Error → Result A → Error
error_of default (err raising) = raising
error_of default (ok response) = default

err-injective {ℓ} : {A : Type ℓ} {e e' : Error} → ◌≡◌ {A = Result A} (err e) (err e') → e ≡ e'
unfolding error_of
err-injective {e} h = ap (error_of e) h

module _ {ℓ κ} {A : Type ℓ} {B : Type κ} where
  pub >>=-eq-validation_error :
      (first : Result A) (rest : A → Result B)
      → IsOther first
      → (first >>= rest) ≡ err validation_error
      → (a : A) × (first ≡ ok a) × (rest a ≡ err validation_error)
  >>=-eq-validation_error (err e) rest other h = absurd (other e refl (err-injective h))
  >>=-eq-validation_error (ok a) rest other h = (a, refl, h)

  pub >>=-IsOther :
      (first : Result A) (rest : A → Result B)
      → IsOther first
      → ((a : A) → IsOther (rest a))
      → IsOther (first >>= rest)
  >>=-IsOther (err e) rest other others e' h = other e' (ap err (err-injective h))
  >>=-IsOther (ok a) rest other others e' h = others a e' h

abbrev err_of {ℓ} : {A : Type ℓ} → Error → Result A
err_of e = err e

pub err-IsOther {ℓ} : {A : Type ℓ} (e : Error) → e ≢ validation_error → IsOther (err_of {A = A} e)
err-IsOther e ne e' h same = ne (err-injective h ∙ same)

pub ok-IsOther {ℓ} : {A : Type ℓ} (a : A) → IsOther (ok a)
ok-IsOther a e h = cc

pub require-IsOther : (test : Bool) (e : Error) → e ≢ validation_error → IsOther (require test e)
require-IsOther false e ne = err-IsOther e ne
require-IsOther true e ne = ok-IsOther tt

pub require_role-IsOther : (roles : List String) (user : User) → IsOther (require_role roles user)
unfolding require_role
require_role-IsOther roles user = elim (Bool-cases (contains roles user.role)) [
  | inl has ↦ rw has (ok-IsOther user)
  | inr lacks ↦ rw lacks (err-IsOther _ (http_ne _ _))
]

pub flush-IsOther {ℓ} : {S : Type ℓ} (o : Option S) → IsOther (flush o)
flush-IsOther none = err-IsOther _ (raised_ne "IntegrityError" refl)
flush-IsOther (some s) = ok-IsOther s

pub scalar-IsOther : {Row : Type 0} (rows : List Row) → IsOther (scalar_one_or_none rows)
unfolding scalar_one_or_none
scalar-IsOther [] = ok-IsOther none
scalar-IsOther (r ∷ []) = ok-IsOther (some r)
scalar-IsOther (r ∷ r' ∷ rows) = err-IsOther _ (raised_ne "MultipleResultsFound" refl)

found-IsOther :
    {Row : Type 0} (e : Error) (o : Option Row) → e ≢ validation_error → IsOther (found e o)
found-IsOther e none ne = err-IsOther e ne
found-IsOther e (some r) ne = ok-IsOther r

pub modify-IsOther :
    {Row : Type 0} (key : Row → Uuid) (T : Table Row) (id : Uuid) (missing : Error)
    (change : Row → Result Row) (s : T.Store)
    → missing ≢ validation_error
    → ((row : Row) → IsOther (change row))
    → IsOther (modify key T id missing change s)
unfolding modify fetch
modify-IsOther key T id missing change s ne changes =
    >>=-IsOther (fetch key id (T.rows s)) _ (scalar-IsOther (filter (λ r. key r == id) (T.rows s)))
      (λ o. >>=-IsOther (found missing o) _ (found-IsOther missing o ne) (λ row.
        >>=-IsOther (change row) _ (changes row) (λ new.
          >>=-IsOther (flush (T.save new s)) _ (flush-IsOther (T.save new s))
            (λ t. ok-IsOther (new, t)))))

pub require-eq-ok : (test : Bool) (e : Error) {u : Unit {0}} → require test e ≡ ok u → test ≡ true
require-eq-ok true e h = refl
require-eq-ok false e h = cc

pub require_role-eq :
    (roles : List String) (user : User)
    → contains roles user.role ≡ true
    → require_role roles user ≡ ok user
unfolding require_role
require_role-eq roles user has = rw has refl
