-- ===== src/Tests/Access.antt =====
-- Tokens, keys, logins and new users at concrete inputs.
use guardian_pi.Base.{◌↔◌, ◌≡◌, refl, List, [], ◌∷◌, some}
use guardian_pi.Http.{ok, err}
use guardian_pi.Db.{Table, overwrite, fetch, scalar_one_or_none}
use guardian_pi.Db.Memory.{memory, memory-IsLawful}
use guardian_pi.Models.{User}
use guardian_pi.Deps.{Claims, get_current_user, load_user}
use guardian_pi.Deps.Access.{IsAdmitted, get_current_user-IsAdmitted}
use guardian_pi.Auth.{UserCreate, login, token_response, create_user, get_me}
use guardian_pi.Auth.Login.{IsAuthentic, login-IsAuthentic, create_user-IsRefused, IsReached}
use guardian_pi.Schemas.Reached.{validation_error}
use guardian_pi.Schemas.Refused.{IsErr, IsRefused}
use guardian_pi.Tests.Samples.{pydantic, pydantic-IsPydantic, sec, alice}

abbrev users : Table User
users = memory (λ u. u.id)

alice_admitted : get_current_user sec 5 (alice ∷ []) (some "token") ≡ ok alice
unfolding get_current_user load_user fetch scalar_one_or_none
alice_admitted = refl

get_current_user-IsAdmitted_example :
    (claims : Claims) × (sec.decode 5 "token" ≡ some claims)
    × IsAdmitted sec (alice ∷ []) claims alice
get_current_user-IsAdmitted_example =
    get_current_user-IsAdmitted sec 5 (alice ∷ []) "token" alice alice_admitted

abbrev after_login : List User
after_login = record alice { last_login = some 5 } ∷ []

login-alice :
    login sec users 5 "j" "k" "alice@example.com" "correct horse" (alice ∷ [])
    ≡ ok (token_response sec users 5 "j" "k" alice, after_login)
unfolding login scalar_one_or_none
login-alice = refl

login-IsAuthentic_example :
    (user : User) × IsAuthentic sec (alice ∷ []) "alice@example.com" "correct horse" user
    × (token_response sec users 5 "j" "k" alice ≡ token_response sec users 5 "j" "k" user)
    × (after_login ≡ overwrite (λ u. u.id) (record user { last_login = some 5 }) (alice ∷ []))
login-IsAuthentic_example =
    login-IsAuthentic sec users 5 "j" "k" "alice@example.com" "correct horse" (alice ∷ [])
      after_login (token_response sec users 5 "j" "k" alice) (memory-IsLawful (λ u. u.id))
      login-alice

abbrev bob_request : UserCreate
bob_request = record {
  email = "bob@example.com";
  password = "long enough password";
  full_name = "Bob";
  role = "viewer";
}

create_user-IsRefused_example :
    IsRefused some (create_user sec users pydantic "u2" 7 bob_request (ok alice)) (alice ∷ [])
    × IsErr (get_me sec users pydantic (ok alice))
    × ((create_user sec users pydantic "u2" 7 bob_request (ok alice) (alice ∷ [])
          ≡ err validation_error)
        ↔ IsReached sec users "u2" 7 bob_request alice (alice ∷ []))
create_user-IsRefused_example =
    create_user-IsRefused sec users pydantic some "u2" 7 bob_request (ok alice) alice (alice ∷ [])
      pydantic-IsPydantic
