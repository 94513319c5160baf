-- ===== src/Tests/Records.antt =====
-- The endpoints on alerts, actions, investigations and policies at concrete inputs.
use guardian_pi.Base.{◌↔◌, ◌≡◌, refl, [], ◌∷◌, none, some}
use guardian_pi.Http.{ok, err}
use guardian_pi.Db.{Table, fetch, scalar_one_or_none}
use guardian_pi.Db.Memory.{memory}
use guardian_pi.Schemas.Refused.{IsRefused}
use guardian_pi.Models.{Alert, RemediationAction, Investigation, Policy}
use guardian_pi.Deps.{require_role}
use guardian_pi.Alerts.{AlertCreate, AlertUpdateRequest, create_alert, update_alert}
use guardian_pi.Alerts.Lifecycle.{IsReached, update_alert-IsRefused}
use guardian_pi.Schemas.Reached.{validation_error}
use guardian_pi.Remediation.{RemediationRequest, create_remediation, rollback_action}
use guardian_pi.Remediation.Rollback.{IsReached as IsRolledBack, rollback_action-IsRefused}
use guardian_pi.Investigations.{TimelineEntry, with_entry, closed}
use guardian_pi.Investigations.Timeline.{here, next, entry, close, Extends, Reach-Extends}
use guardian_pi.Policies.{delete_policy}
use guardian_pi.Tests.Samples.{
  pydantic, pydantic-IsPydantic, sec, alice, open_alert, block, case, usb_policy,
}

abbrev alerts : Table Alert
alerts = memory (λ a. a.id)

abbrev resolution : AlertUpdateRequest
resolution = record { status = "resolved"; resolution_note = none }

abbrev usb_alert : AlertCreate
usb_alert = record {
  device_id = "d1";
  severity = "high";
  category = "usb";
  title = "USB";
  description = none;
  evidence = none;
  source = some "agent";
  mitre_tactic = none;
  mitre_technique = none;
}

update_alert-IsRefused_example :
    IsRefused some
      (create_alert sec pydantic alerts "a2" 9 usb_alert (some "key"))
      (open_alert ∷ [])
    × IsRefused some
        (update_alert sec pydantic alerts 9 "a2" resolution (ok alice))
        (open_alert ∷ [])
    × ((update_alert sec pydantic alerts 9 "a2" resolution (ok alice) (open_alert ∷ [])
          ≡ err validation_error)
        ↔ IsReached sec pydantic pydantic-IsPydantic alerts 9 "a2" resolution alice
            (open_alert ∷ []))
update_alert-IsRefused_example =
    update_alert-IsRefused sec pydantic pydantic-IsPydantic alerts some "a2" 9 usb_alert
      (some "key") resolution (ok alice) alice (open_alert ∷ [])

abbrev actions : Table RemediationAction
actions = memory (λ a. a.id)

abbrev blocking : RemediationRequest
blocking = record { device_id = "d1"; action_type = "block_ip"; parameters = "{}"; alert_id = none }

rollback_action-IsRefused_example :
    IsRefused some (create_remediation sec pydantic actions "r1" 9 blocking (ok alice)) (block ∷ [])
    × IsRefused some (rollback_action sec pydantic actions "r1" "mistake" (ok alice)) (block ∷ [])
    × ((rollback_action sec pydantic actions "r1" "mistake" (ok alice) (block ∷ [])
          ≡ err validation_error)
        ↔ IsRolledBack sec pydantic pydantic-IsPydantic actions "r1" "mistake" alice (block ∷ []))
rollback_action-IsRefused_example =
    rollback_action-IsRefused sec pydantic pydantic-IsPydantic actions some "r1" 9 blocking
      "mistake" (ok alice) alice (block ∷ [])

abbrev cases : Table Investigation
cases = memory (λ i. i.id)

abbrev note : TimelineEntry
note = record { action = "note"; content = "A note"; metadata = none }

abbrev noted : Investigation
noted = with_entry pydantic cases 9 alice note case

Reach-Extends_example : Extends pydantic cases case (closed pydantic cases 10 alice "done" noted)
Reach-Extends_example =
    Reach-Extends pydantic cases (next (next here (entry 9 alice note)) (close 10 alice "done"))

abbrev policies : Table Policy
policies = memory (λ p. p.id)

usb_deleted : delete_policy pydantic policies "p1" (ok alice) (usb_policy ∷ []) ≡ ok []
unfolding delete_policy require_role fetch scalar_one_or_none
usb_deleted = refl
