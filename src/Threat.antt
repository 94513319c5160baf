-- ===== src/Threat.antt =====
-- backend/app/services/threat_service.py: the risk of one device and the posture of all.
pub mod Risk
use guardian_pi.Base.{
  ℕ, ◌+◌, ◌-◌, ◌*◌, String, Bool, true, false, ◌&&◌, List, [], ◌∷◌, Option, none, some, length,
  filter, leb, nat_eq, ◌==◌, if◌then◌else◌,
}
use guardian_pi.Db.{Uuid}
use guardian_pi.Models.{Alert, Device}

-- SEVERITY_SCORES.get(severity, 0)
abbrev pub severity_score : String → ℕ
severity_score severity =
    if severity == "critical"
    then 100
    else if severity == "high"
    then 75
    else if severity == "medium"
    then 50
    else if severity == "low"
    then 25
    else if severity == "info"
    then 5
    else 0

-- sum(... for a in alerts)
abbrev pub total_score : List Alert → ℕ
total_score [] = 0
total_score (a ∷ alerts) = severity_score a.severity + total_score alerts

abbrev pub minimum : ℕ → ℕ → ℕ
minimum a b = if leb a b then a else b

abbrev pub risk_level : ℕ → String
risk_level risk_score =
    if leb 80 risk_score
    then "critical"
    else if leb 60 risk_score
    then "high"
    else if leb 30 risk_score
    then "medium"
    else "low"

-- The two counts are missing from the answer for a device without open alerts.
pub record DeviceRisk : Type 0 where
  pub risk_score : ℕ
  pub risk_level : String
  pub open_alerts : ℕ
  pub critical_count : Option ℕ
  pub high_count : Option ℕ

-- The query: Alert.device_id == device_id, Alert.status == "open"
abbrev pub is_open : Uuid → Alert → Bool
is_open device_id a = a.device_id == device_id && a.status == "open"

abbrev pub has_severity : String → Alert → Bool
has_severity severity a = a.severity == severity

abbrev pub risk_of : List Alert → DeviceRisk
risk_of [] = record {
  risk_score = 0;
  risk_level = "low";
  open_alerts = 0;
  critical_count = none;
  high_count = none;
}
risk_of (a ∷ alerts) =
    let risk_score = minimum 100 (total_score (a ∷ alerts)) in
    record {
      risk_score = risk_score;
      risk_level = risk_level risk_score;
      open_alerts = length (a ∷ alerts);
      critical_count = some (length (filter (has_severity "critical") (a ∷ alerts)));
      high_count = some (length (filter (has_severity "high") (a ∷ alerts)));
    }

unfoldable pub calculate_device_risk_score : List Alert → Uuid → DeviceRisk
calculate_device_risk_score alerts device_id = risk_of (filter (is_open device_id) alerts)

pub record Posture : Type 0 where
  pub posture_score : ℕ
  pub total_devices : ℕ
  pub online_devices : ℕ
  pub compromised_devices : ℕ
  pub open_critical_alerts : ℕ
  pub status : String

abbrev pub has_status : String → Device → Bool
has_status status d = d.status == status

abbrev pub is_open_critical : Alert → Bool
is_open_critical a = a.severity == "critical" && a.status == "open"

-- `-` stops at 0, as max(0, ...) does.
abbrev pub posture_score : (total compromised open_critical : ℕ) → ℕ
posture_score total compromised open_critical =
    if nat_eq total 0 then 100 else 100 - compromised * 30 - open_critical * 10

abbrev pub posture_status : ℕ → String
posture_status score =
    if leb 80 score then "healthy" else if leb 50 score then "degraded" else "critical"

unfoldable pub get_security_posture : List Device → List Alert → Posture
get_security_posture devices alerts =
    let total = length devices in
    let online = length (filter (has_status "online") devices) in
    let compromised = length (filter (has_status "compromised") devices) in
    let open_critical = length (filter is_open_critical alerts) in
    let score = posture_score total compromised open_critical in
    record {
      posture_score = score;
      total_devices = total;
      online_devices = online;
      compromised_devices = compromised;
      open_critical_alerts = open_critical;
      status = posture_status score;
    }
