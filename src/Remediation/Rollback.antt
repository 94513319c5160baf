-- ===== src/Remediation/Rollback.antt =====
-- What becomes of the requests for a remediation and for its rollback.
use guardian_pi.Base.{
  ◌≡◌, ap, refl, sym, ◌∙◌, ◌↔◌, true, some, contains, ◌<>◌, ◌==◌, arith, eq_iff, Bool-cases, inl,
  inr, String, [], ◌∷◌, Option,
}
use guardian_pi.Http.{Result, ok, err, http, require, >>=-eq-ok}
use guardian_pi.Db.{Uuid, Table, flush, fetch, found, modify}
use guardian_pi.Db.Modify.{flush-eq-ok, found-eq-ok}
use guardian_pi.Deps.Access.{require_role-eq-ok}
use guardian_pi.Schemas.Reached.{
  IsOther, validation_error, >>=-eq-validation_error, ok-IsOther, err-IsOther, require_role-IsOther,
  modify-IsOther, http_ne, require_role-eq,
}
use guardian_pi.Schemas.{Pydantic}
use guardian_pi.Schemas.Refused.{
  IsPydantic, IsRefused, >>=-IsErr, with_store-IsErr, get_db-IsRefused, remediation_response-IsErr,
  remediation_response-eq,
}
use guardian_pi.Models.{RemediationAction, User, Time}
use guardian_pi.Deps.{Security, uuid, require_role}
use guardian_pi.Remediation.{
  RemediationRequest, create_remediation, new_action, request_valid, optional_uuid, rollback_action,
  rolled_back,
}

module _ (sec : Security) (pydantic : Pydantic) (law : IsPydantic pydantic)
    (T : Table RemediationAction) where
  rolled_back-IsOther :
      (reason : String) (action : RemediationAction)
      → IsOther (rolled_back sec pydantic T reason action)
  rolled_back-IsOther reason action = elim (Bool-cases (action.status == "completed")) [
    | inl done ↦ rw done (ok-IsOther _)
    | inr not_done ↦ rw not_done (err-IsOther _ (http_ne 400 "Can only rollback completed actions"))
  ]

  rolled_back-eq-ok :
      (reason : String) (old new : RemediationAction)
      → rolled_back sec pydantic T reason old ≡ ok new
      → (old.status ≡ "completed")
        × (new ≡ record old {
          status = "rolled_back";
          result_message = some ("Rolled back: " <> reason);
        })
  rolled_back-eq-ok reason old new h = ground (arith, eq_iff old.status "completed")

  abbrev undone : (reason : String) → RemediationAction → RemediationAction
  undone reason action = record action {
    status = "rolled_back";
    result_message = some ("Rolled back: " <> reason);
  }

  -- What a rollback must pass to get as far as its response, which no row passes.
  abbrev pub IsReached : Uuid → (reason : String) → User → T.Store → Type 0
  IsReached id reason user s =
      (contains ("admin" ∷ []) user.role ≡ true)
      × ((action : RemediationAction) × ((fetch (λ a. a.id) id (T.rows s) ≡ ok (some action))
            × ((action.status ≡ "completed")
                × ((t : T.Store) × (T.save
                        (record action {
                          status = "rolled_back";
                          result_message = some ("Rolled back: " <> reason);
                        })
                        s
                      ≡ some t)))))

  reached :
      (id : Uuid) (reason : String) (user : User) (s : T.Store)
      → rollback_action sec pydantic T id reason (ok user) s ≡ err validation_error
      → IsReached id reason user s
  unfolding rollback_action modify
  reached id reason user s h =
      let missing = http 404 "Remediation action not found" in
      let change = rolled_back sec pydantic T reason in
      let (u, has_role, h1) =
        >>=-eq-validation_error (require_role ("admin" ∷ []) user) _
          (require_role-IsOther ("admin" ∷ []) user) h in
      let ((action, t), modified, _) =
        >>=-eq-validation_error (modify (λ a. a.id) T id missing change s) _
          (modify-IsOther (λ a. a.id) T id missing _ s (http_ne 404 "Remediation action not found")
            (rolled_back-IsOther reason))
          h1 in
      let (o, loaded, h2) = >>=-eq-ok (fetch (λ a. a.id) id (T.rows s)) _ modified in
      let (old, is_found, h3) = >>=-eq-ok (found missing o) _ h2 in
      let (new, changed, h4) = >>=-eq-ok (change old) _ h3 in
      let (v, saved, _) = >>=-eq-ok (flush (T.save new s)) _ h4 in
      let (done, written) = rolled_back-eq-ok reason old new changed in
      (
        (require_role-eq-ok ("admin" ∷ []) user has_role).0,
        (
          old,
          (
            loaded ∙ ap ok (found-eq-ok missing o is_found),
            (done, (v, ap (λ r. T.save r s) (sym written) ∙ flush-eq-ok (T.save new s) saved)),
          ),
        ),
      )

  reaches :
      (id : Uuid) (reason : String) (user : User) (s : T.Store)
      → IsReached id reason user s
      → rollback_action sec pydantic T id reason (ok user) s ≡ err validation_error
  unfolding rollback_action modify
  reaches id reason user s (role, (action, (loaded, (done, (t, saved))))) =
      rw
        (
          require_role-eq ("admin" ∷ []) user role,
          loaded,
          (eq_iff action.status "completed").1 done,
          saved,
          remediation_response-eq pydantic law (undone reason action) t,
        )
        refl

  -- RemediationResponse takes no row, as its ids are declared `str` and the row's are uuid.UUIDs: whoever
  -- asks for a remediation or for the rollback of one, the request is answered by an exception and the
  -- database is left as it was, so that no action is ever recorded and none is rolled back. A rollback by
  -- a known user gets as far as this exception exactly if the user is an admin, and the one row of the
  -- id is found, was completed, and is written as rolled back with the reason.
  pub rollback_action-IsRefused :
      (commit : T.Store → Option T.Store) (id : Uuid) (now : Time) (request : RemediationRequest)
      (reason : String) (current_user : Result User) (user : User) (s : T.Store)
      → IsRefused commit (create_remediation sec pydantic T id now request current_user) s
        × IsRefused commit (rollback_action sec pydantic T id reason current_user) s
        × ((rollback_action sec pydantic T id reason (ok user) s ≡ err validation_error)
            ↔ IsReached id reason user s)
  unfolding create_remediation rollback_action
  rollback_action-IsRefused commit id now request reason current_user user s = (
    get_db-IsRefused commit (create_remediation sec pydantic T id now request current_user) s (
        >>=-IsErr current_user _ (λ user. >>=-IsErr (require_role ("admin" ∷ []) user) _ (λ user.
          >>=-IsErr (require (request_valid request) (http 422 "Unprocessable Entity")) _ (λ _.
            >>=-IsErr (uuid sec request.device_id) _ (λ device_id.
              >>=-IsErr (optional_uuid sec request.alert_id) _ (λ alert_id.
                let action = new_action sec pydantic T id device_id alert_id now user request in
                >>=-IsErr (flush (T.add action s)) _ (λ t.
                  with_store-IsErr _ t (remediation_response-IsErr pydantic law action)))))))),
    get_db-IsRefused commit (rollback_action sec pydantic T id reason current_user) s (
        >>=-IsErr current_user _ (λ user. >>=-IsErr (require_role ("admin" ∷ []) user) _ (λ _.
          >>=-IsErr
            (modify (λ a. a.id) T id (http 404 "Remediation action not found")
              (rolled_back sec pydantic T reason) s)
            _
            (λ (action, t).
              with_store-IsErr _ t (remediation_response-IsErr pydantic law action))))),
    (reached id reason user s, reaches id reason user s),
  )
