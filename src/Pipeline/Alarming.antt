-- ===== src/Pipeline/Alarming.antt =====
-- How severe the alerts are that a batch asks for.
use guardian_pi.Base.{
  ℕ, String, ◌≡◌, refl, sym, ◌∙◌, true, ◌&&◌, List, [], ◌∷◌, ◌++◌, none, ltb, get_or, contains,
  ◌==◌, All, arith, Bool-cases, inl, inr, leb, if_ind, All-append, All-map,
}
use mathlib.Core.List.{append_assoc, append-nil}
use guardian_pi.Detection.{
  Texts, Numbers, Match, match_process, calculate_anomaly_score, risk_level,
}
use guardian_pi.Detection.Rules.{sigma_rules}
use guardian_pi.Detection.Matching.{match_process-All}
use guardian_pi.Detection.Scoring.{calculate_anomaly_score_bounds}
use guardian_pi.Pipeline.{
  Details, Event, Request, AlertData, Create, match_request, process_name_of,
  process_telemetry_batch,
}
use guardian_pi.Pipeline.Wanted.{
  wanted, wanted_all, by_severity, by_matching, create_all, process_telemetry_batch-eq,
}

abbrev pub IsAlarming : String → Type 0
IsAlarming severity = contains ("critical" ∷ "high" ∷ "medium" ∷ []) severity ≡ true

risk_level-IsAlarming : (n : ℕ) → ltb 30 n ≡ true → IsAlarming (risk_level n)
risk_level-IsAlarming n h =
    if_ind IsAlarming (leb 60 n) (λ _. refl)
      λ _.
        if_ind IsAlarming (leb 40 n) (λ _. refl)
          λ _. if_ind IsAlarming (leb 20 n) (λ _. refl) (λ low. absurd (ground arith))

module _ (N : Numbers) (T : Texts) (str : ℕ → String) (device_id : String) where
  match_process-IsAlarming :
      (name cmdline : String)
      → All (λ m. IsAlarming m.severity) (match_process T sigma_rules name cmdline)
  match_process-IsAlarming name cmdline =
      match_process-All T (λ m. IsAlarming m.severity) name cmdline sigma_rules
        (
          inr refl,
          (inr refl, (inr refl, (inr refl, (inr refl, (inr refl, (inr refl, (inr refl, tt))))))),
        )

  by_severity-IsAlarming :
      (event_type severity title : String) (details : Details N)
      → All
          (λ r. IsAlarming r.severity)
          (by_severity N T str device_id event_type severity title details)
  by_severity-IsAlarming event_type severity title details =
      elim (Bool-cases (contains ("critical" ∷ "high" ∷ "medium" ∷ []) severity)) [
        | inl alarming ↦ rw alarming (alarming, tt)
        | inr calm ↦ rw calm tt
      ]

  by_matching-IsAlarming :
      (event_type severity title : String) (details : Details N) (ms : List Match)
      → All (λ m. IsAlarming m.severity) ms
      → All
          (λ r. IsAlarming r.severity)
          (by_matching N T str device_id event_type severity title details ms)
  by_matching-IsAlarming event_type severity title details [] h =
      by_severity-IsAlarming event_type severity title details
  by_matching-IsAlarming event_type severity title details (m ∷ ms) h =
      All-map (match_request N T str device_id (process_name_of N T str device_id details) details)
        (λ r. IsAlarming r.severity) (m ∷ ms) h

  anomaly-IsAlarming :
      (details : Details N)
      → ltb 30 (calculate_anomaly_score N details.metrics).anomaly_score ≡ true
      → IsAlarming (calculate_anomaly_score N details.metrics).risk
  anomaly-IsAlarming details h =
      rw (calculate_anomaly_score_bounds N details.metrics).2 (risk_level-IsAlarming _ h)

  wanted-IsAlarming :
      (event : Event N) → All (λ r. IsAlarming r.severity) (wanted N T str device_id event)
  unfolding wanted
  wanted-IsAlarming event =
      let details = event.details in
      let severity = get_or event.severity "info" in
      let title = get_or event.title "" in
      let event_type = get_or event.event_type "" in
      let score = (calculate_anomaly_score N details.metrics).anomaly_score in
      let P = λ (rs : List Request). All (λ r. IsAlarming r.severity) rs in
      if_ind P (event_type == "system_metrics" && severity == "info")
        (λ _. if_ind P (ltb 30 score) (λ high. (anomaly-IsAlarming details high, tt)) (λ _. tt))
        λ _.
          if_ind P (contains ("process_alert" ∷ "detection" ∷ []) event_type)
            (λ _. by_matching-IsAlarming event_type severity title details _ (
              match_process-IsAlarming (process_name_of N T str device_id details)
                (get_or details.cmdline "")))
            (λ _. by_severity-IsAlarming event_type severity title details)

pub wanted_all-IsAlarming :
    (N : Numbers) (T : Texts) (str : ℕ → String) (device_id : String) (events : List (Event N))
    → All (λ r. IsAlarming r.severity) (wanted_all N T str device_id events)
unfolding wanted_all
wanted_all-IsAlarming N T str device_id [] = tt
wanted_all-IsAlarming N T str device_id (event ∷ events) =
    All-append (λ r. IsAlarming r.severity) (wanted N T str device_id event)
      (wanted_all N T str device_id events) (wanted-IsAlarming N T str device_id event)
      (wanted_all-IsAlarming N T str device_id events)

-- Creating an alert that only notes what it was asked for.
abbrev pub noted : Create (List Request)
noted r rs = (none, rs ++ r ∷ [])

create_all-noted :
    (created : List AlertData) (rs log : List Request)
    → (create_all noted created rs log).1 ≡ log ++ rs
unfolding create_all
create_all-noted created [] log = sym (append-nil log)
create_all-noted created (r ∷ rs) log =
    create_all-noted created rs (log ++ r ∷ []) ∙ append_assoc log (r ∷ []) rs

-- Every alert that a batch asks for has severity critical, high or medium, whatever the events.
pub process_telemetry_batch-IsAlarming :
    (N : Numbers) (T : Texts) (str : ℕ → String) (device_id : String) (events : List (Event N))
    → All (λ r. IsAlarming r.severity) (process_telemetry_batch N T str device_id noted events []).1
process_telemetry_batch-IsAlarming N T str device_id events =
    rw
      (
        process_telemetry_batch-eq N T str device_id noted events [],
        create_all-noted [] (wanted_all N T str device_id events) [],
      )
      (wanted_all-IsAlarming N T str device_id events)
