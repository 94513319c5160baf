-- ===== src/Alerts/Lifecycle.antt =====
-- What becomes of the requests that create or change an alert.
use guardian_pi.Base.{◌≡◌, refl, true, contains, ◌↔◌, String, [], ◌∷◌, Option}
use guardian_pi.Http.{Result, ok, err, http, require}
use guardian_pi.Db.{Uuid, Table, flush, modify}
use guardian_pi.Schemas.{Pydantic}
use guardian_pi.Schemas.Refused.{
  IsPydantic, IsRefused, >>=-IsErr, with_store-IsErr, get_db-IsRefused, alert_response-IsErr,
  alert_response-eq,
}
use guardian_pi.Schemas.Reached.{
  validation_error, >>=-eq-validation_error, ok-IsOther, require-IsOther, require_role-IsOther,
  modify-IsOther, http_ne, require-eq-ok, require_role-eq,
}
use guardian_pi.Deps.Access.{require_role-eq-ok}
use guardian_pi.Models.{Alert, User, Time}
use guardian_pi.Deps.{Security, uuid, validate_agent_api_key, require_role}
use guardian_pi.Alerts.{
  AlertCreate, AlertUpdateRequest, create_alert, new_alert, create_valid, update_alert, updated,
  update_valid,
}

module _ (sec : Security) (pydantic : Pydantic) (law : IsPydantic pydantic) (T : Table Alert) where
  -- What an update must pass to get as far as its response, which no row passes.
  abbrev pub IsReached : Time → Uuid → AlertUpdateRequest → User → T.Store → Type 0
  IsReached now id request user s =
      (contains ("admin" ∷ "analyst" ∷ []) user.role ≡ true)
      × (contains ("acknowledged" ∷ "resolved" ∷ "false_positive" ∷ []) request.status ≡ true)
      × ((alert : Alert) × ((t : T.Store) × (modify (λ a. a.id) T id (http 404 "Alert not found")
                (λ alert. ok (updated sec pydantic T now user request alert)) s
              ≡ ok (alert, t))))

  reached :
      (now : Time) (id : Uuid) (request : AlertUpdateRequest) (user : User) (s : T.Store)
      → update_alert sec pydantic T now id request (ok user) s ≡ err validation_error
      → IsReached now id request user s
  unfolding update_alert update_valid
  reached now id request user s h =
      let (u, has_role, h1) =
        >>=-eq-validation_error (require_role ("admin" ∷ "analyst" ∷ []) user) _
          (require_role-IsOther ("admin" ∷ "analyst" ∷ []) user) h in
      let (allowed, same) = require_role-eq-ok ("admin" ∷ "analyst" ∷ []) user has_role in
      let (_, valid, h2) =
        >>=-eq-validation_error (require (update_valid request) (http 422 "Unprocessable Entity")) _
          (require-IsOther (update_valid request) _ (http_ne 422 "Unprocessable Entity")) h1 in
      let ((alert, t), modified, _) =
        >>=-eq-validation_error
          (modify (λ a. a.id) T id (http 404 "Alert not found")
            (λ alert. ok (updated sec pydantic T now u request alert)) s)
          _
          (modify-IsOther (λ a. a.id) T id _ _ s (http_ne 404 "Alert not found")
            (λ alert. ok-IsOther (updated sec pydantic T now u request alert)))
          h2 in
      (
        allowed,
        require-eq-ok (update_valid request) (http 422 "Unprocessable Entity") valid,
        (alert, (t, rw same at modified)),
      )

  reaches :
      (now : Time) (id : Uuid) (request : AlertUpdateRequest) (user : User) (s : T.Store)
      → IsReached now id request user s
      → update_alert sec pydantic T now id request (ok user) s ≡ err validation_error
  unfolding update_alert update_valid
  reaches now id request user s (role, valid, (alert, (t, modified))) =
      rw
        (
          require_role-eq ("admin" ∷ "analyst" ∷ []) user role,
          valid,
          modified,
          alert_response-eq pydantic law alert t,
        )
        refl

  -- AlertResponse takes no row, as its ids are declared `str` and the row's are uuid.UUIDs: whoever asks
  -- for whatever creation or change of an alert, the request is answered by an exception and the
  -- database is left as it was, so that no alert is ever acknowledged or resolved. An update by a known
  -- user gets as far as this exception exactly if the user is an admin or an analyst, the status is one
  -- of the three, and the one row is found and written.
  pub update_alert-IsRefused :
      (commit : T.Store → Option T.Store) (id : Uuid) (now : Time) (new : AlertCreate)
      (key : Option String) (request : AlertUpdateRequest) (current_user : Result User)
      (user : User) (s : T.Store)
      → IsRefused commit (create_alert sec pydantic T id now new key) s
        × IsRefused commit (update_alert sec pydantic T now id request current_user) s
        × ((update_alert sec pydantic T now id request (ok user) s ≡ err validation_error)
            ↔ IsReached now id request user s)
  unfolding create_alert update_alert
  update_alert-IsRefused commit id now new key request current_user user s = (
    get_db-IsRefused commit (create_alert sec pydantic T id now new key) s (
        >>=-IsErr (validate_agent_api_key sec key) _ (λ _.
          >>=-IsErr (require (create_valid new) (http 422 "Unprocessable Entity")) _ (λ _.
            >>=-IsErr (uuid sec new.device_id) _ (λ device_id.
              >>=-IsErr (flush (T.add (new_alert sec pydantic T id device_id now new) s)) _ (λ t.
                with_store-IsErr _ t (
                  alert_response-IsErr pydantic law
                    (new_alert sec pydantic T id device_id now new))))))),
    get_db-IsRefused commit (update_alert sec pydantic T now id request current_user) s (
        >>=-IsErr current_user _ (λ user.
          >>=-IsErr (require_role ("admin" ∷ "analyst" ∷ []) user) _ (λ user.
            >>=-IsErr (require (update_valid request) (http 422 "Unprocessable Entity")) _ (λ _.
              >>=-IsErr
                (modify (λ a. a.id) T id (http 404 "Alert not found")
                  (λ alert. ok (updated sec pydantic T now user request alert)) s)
                _
                (λ (alert, t). with_store-IsErr _ t (alert_response-IsErr pydantic law alert)))))),
    (reached now id request user s, reaches now id request user s),
  )
