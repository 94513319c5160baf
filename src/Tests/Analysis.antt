-- ===== src/Tests/Analysis.antt =====
-- The detection engine, the scores and the pipeline at concrete inputs.
use guardian_pi.Base.{
  ℕ, String, ◌≡◌, refl, ◌≢◌, false, List, [], ◌∷◌, map, Option, none, some, filter, all, All,
  contains, arith,
}
use guardian_pi.Db.Memory.{memory}
use guardian_pi.Models.{Alert}
use guardian_pi.Detection.{report, match_process, Metrics, scan_file_content}
use guardian_pi.Detection.Rules.{sigma_rules, yara_signatures}
use guardian_pi.Detection.Matching.{fires, match_process-eq-filter, match_process-ne-sigma_006}
use guardian_pi.Detection.Signatures.{scan_file_content-ne-shellcode}
use guardian_pi.Detection.Scoring.{IsBelow}
use guardian_pi.Detection.Samples.{plain, naturals, busy}
use guardian_pi.Pipeline.{AlertDetails, Event, Request, AlertData, process_telemetry_batch}
use guardian_pi.Pipeline.Wanted.{create_all, wanted_all, process_telemetry_batch-eq}
use guardian_pi.Pipeline.Alarming.{noted, IsAlarming, process_telemetry_batch-IsAlarming}
use guardian_pi.Pipeline.Create.{
  alert_attributes, Outlets, Construct, IsDeclarative, create_alert,
  process_telemetry_batch-create_alert,
}
use guardian_pi.Tests.Samples.{open_alert}

abbrev shellcode : List ℕ
shellcode = 0xfc ∷ 0xe8 ∷ 0x82 ∷ 0 ∷ 0 ∷ 0 ∷ []

scan_file_content-ne-shellcode_example :
    All
      (λ m. m.signature ≢ "suspicious_shellcode")
      (scan_file_content yara_signatures shellcode "a.bin")
scan_file_content-ne-shellcode_example =
    scan_file_content-ne-shellcode shellcode "a.bin" (omega arith)

match_process-eq-filter_example :
    match_process plain sigma_rules "kiwi" ""
    ≡ map report (filter (fires plain "kiwi" "") sigma_rules)
match_process-eq-filter_example = match_process-eq-filter plain sigma_rules "kiwi" ""

match_process-ne-sigma_006_example :
    All (λ m. m.rule_id ≢ "SIGMA-006") (match_process plain sigma_rules "nc" "connect 4444")
match_process-ne-sigma_006_example = match_process-ne-sigma_006 plain "nc" "connect 4444"

abbrev idle : Metrics naturals
idle = record {
  cpu_percent = some 85;
  ram_percent = none;
  active_connections = some 201;
  process_count = none;
}

idle-IsBelow : IsBelow naturals idle busy
idle-IsBelow = record {
  cpu = λ k p. ground arith;
  ram = λ k p. ground arith;
  connections = λ k p. ground arith;
  processes = λ k p. ground arith;
}

abbrev kiwi_event : Event naturals
kiwi_event = record {
  event_type = some "process_alert";
  severity = some "info";
  title = some "Process";
  details = record {
    process_name = some "kiwi";
    name = none;
    cmdline = none;
    metrics = busy;
    dict = "{}";
  };
}

abbrev metrics_event : Event naturals
metrics_event = record kiwi_event { event_type = some "system_metrics" }

abbrev digits : ℕ → String
digits n = "n"

abbrev nothing : Outlets (List Alert)
nothing = record { store = []; broadcast = []; published = [] }

-- A constructor that raises for every list of keywords but the empty one.
abbrev strict : Construct
strict [] device_id r = some (open_alert, r.alert_type)
strict (k ∷ keywords) device_id r = none

strict-IsDeclarative : IsDeclarative strict
strict-IsDeclarative = record { rejects = rejected }
  where
    rejected :
        (keywords : List String) (device_id : Option String) (r : Request)
        → all (contains alert_attributes) keywords ≡ false
        → strict keywords device_id r ≡ none
    rejected [] device_id r h = cc
    rejected (k ∷ keywords) device_id r h = refl

-- A constructor that takes every keyword.
abbrev lenient : Construct
lenient keywords device_id r = some (open_alert, r.alert_type)

process_telemetry_batch-eq_example :
    process_telemetry_batch naturals plain digits "d1" noted (kiwi_event ∷ metrics_event ∷ []) []
    ≡ create_all noted []
        (wanted_all naturals plain digits "d1" (kiwi_event ∷ metrics_event ∷ []))
        []
process_telemetry_batch-eq_example =
    process_telemetry_batch-eq naturals plain digits "d1" noted (kiwi_event ∷ metrics_event ∷ []) []

process_telemetry_batch-IsAlarming_example :
    All
      (λ r. IsAlarming r.severity)
      (process_telemetry_batch naturals plain digits "d1" noted
        (kiwi_event ∷ metrics_event ∷ [])
        []).1
process_telemetry_batch-IsAlarming_example =
    process_telemetry_batch-IsAlarming naturals plain digits "d1" (kiwi_event ∷ metrics_event ∷ [])

process_telemetry_batch-create_alert_example :
    process_telemetry_batch naturals plain digits "d1"
      (create_alert (λ s. some s) strict (memory (λ a. a.id)))
      (kiwi_event ∷ [])
      nothing
    ≡ ([], nothing)
process_telemetry_batch-create_alert_example =
    process_telemetry_batch-create_alert naturals plain digits "d1" (λ s. some s) strict
      (memory (λ a. a.id)) (kiwi_event ∷ []) nothing strict-IsDeclarative

abbrev kiwi_request : Request
kiwi_request = record {
  device_id = "d1";
  title = "Process";
  description = "found";
  severity = "critical";
  alert_type = "malware";
  details = AlertDetails.plain "{}";
}

abbrev after_kiwi : Option AlertData × Outlets (List Alert)
after_kiwi = create_alert (λ s. some s) lenient (memory (λ a. a.id)) kiwi_request nothing
