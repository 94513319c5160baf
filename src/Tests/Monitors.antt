-- ===== src/Tests/Monitors.antt =====
-- The agent's monitors, tamper checks, detector and installer at concrete inputs.
use guardian_pi.Base.{
  not, ◌&&◌, ℕ, ◌≤◌, String, ◌≡◌, refl, ◌↔◌, inr, Bool, false, List, [], ◌∷◌, Option, none, some,
  length, All, contains, ℤ, pos,
}
use guardian_pi.Agent.Sender.{last}
use guardian_pi.Agent.Monitors.Processes.{Values, Info, scan}
use guardian_pi.Agent.Monitors.Processes.Baseline.{IsRepeated, scan-scan}
use guardian_pi.Agent.Monitors.Network.{Connection, new_monitor, history_max, observe}
use guardian_pi.Agent.Monitors.Network.History.{observe_history}
use guardian_pi.Agent.Monitors.Usb.{Partition, check}
use guardian_pi.Agent.Monitors.Usb.Changes.{replay}
use guardian_pi.Agent.Monitors.Usb.Told.{tells_connection, tells_disconnection, check-tells}
use guardian_pi.Agent.Tamper.{
  System, Checks, Engine, new_engine, verify_integrity, detect_debugger, traced, check_all,
}
use guardian_pi.Agent.Tamper.Verdict.{digest, check_all_iff}
use guardian_pi.Agent.Hashing.{hash_file, hash_chunks}
use guardian_pi.Agent.Detector.{Machine, detect}
use guardian_pi.Agent.Detector.Accepted.{check_compatibility-detect}
use guardian_pi.Devices.{check_compatibility}
use guardian_pi.Tests.Services.{sha256, sha256-IsStream}

abbrev values : Values
values = record { lower = λ s. s; Load = ℕ; above_90 = λ n. false; show_load = λ n. "0" }

abbrev hydra : Info values
hydra = record {
  pid = 7;
  name = some "hydra";
  username = none;
  cpu_percent = none;
  connections = some 25;
}

scan-scan_example :
    All IsRepeated (scan (some hydra ∷ none ∷ []) (scan (some hydra ∷ none ∷ []) []).1).0
    × ((scan (some hydra ∷ none ∷ []) (scan (some hydra ∷ none ∷ []) []).1).1
        ≡ (scan (some hydra ∷ none ∷ []) []).1)
scan-scan_example = scan-scan (some hydra ∷ none ∷ []) []

abbrev connection : Connection
connection = record {
  status = "ESTABLISHED";
  local_port = some 4444;
  remote = some ("10.0.0.1", 80);
}

abbrev seen : List (Option (List Connection))
seen = some (connection ∷ []) ∷ none ∷ some [] ∷ []

abbrev never : ℕ → List ℕ → Bool
never current earlier = false

observe_history_example :
    ((observe never seen new_monitor).connection_history ≡ last history_max (1 ∷ 0 ∷ []))
    × (length (observe never seen new_monitor).connection_history ≤ history_max)
observe_history_example = observe_history seen never

abbrev stick : Partition
stick = record { device = "sdb1"; mountpoint = "/media"; fstype = "vfat"; opts = "rw,removable" }

abbrev same : String → String
same s = s

abbrev unmeasured : String → Option String
unmeasured mountpoint = none

abbrev linux : System
linux = record {
  name = "Linux";
  status = some ("Name:\tagent" ∷ "TracerPid:\t0" ∷ []);
  tracer_of = λ line. some 0;
  is_debugger_present = none;
}

abbrev failing : Checks
failing = record {
  binary_integrity = false;
  debugger_detected = false;
  overall_status = "compromised";
}

abbrev flagged : Engine
flagged = record { binary_hash = some "two"; integrity_verified = false }

check_run :
    check_all sha256 linux (some (1 ∷ [])) (some (1 ∷ [])) (new_engine sha256 (some (1 ∷ 2 ∷ [])))
    ≡ some (failing, flagged)
unfolding check_all verify_integrity detect_debugger traced new_engine hash_file hash_chunks
check_run = refl

check_all_iff_example :
    ◌≡◌ {A = String} "compromised" "secure"
    ↔ ((digest sha256 (1 ∷ 2 ∷ []) ≡ digest sha256 (1 ∷ [])) × (detect_debugger linux ≡ some false))
check_all_iff_example =
    check_all_iff sha256 sha256-IsStream linux (1 ∷ 2 ∷ []) (1 ∷ []) failing flagged refl check_run

abbrev server : Machine
server = record {
  lower = λ s. s;
  system = "linux";
  hostname = "srv";
  version = "6";
  release = "6.1";
  machine = "aarch64";
  python_version = "3.11";
  cpu_model = "Neoverse";
  geteuid = some 0;
  is_user_an_admin = none;
  mac = none;
  exists = λ p. false;
  read = λ p. none;
  physical_cores = some 8;
  logical_cores = none;
  ram_mb = 65536;
  storage_gb = 500;
}

abbrev show : ℤ → String
show n = "n"

check_compatibility-detect_example :
    (check_compatibility show
      (detect server).os_type
      (detect server).os_version
      "aarch64"
      (pos 65536)
      (pos 500)).is_compatible
    ≡ false
unfolding detect
check_compatibility-detect_example = check_compatibility-detect server show (inr refl)

check-tells_example :
    (tells_connection "sdb1" (check same unmeasured (stick ∷ []) ("sdc1" ∷ [])).0 ≡ (
      not (contains ("sdc1" ∷ []) "sdb1")
      && contains (check same unmeasured (stick ∷ []) ("sdc1" ∷ [])).1 "sdb1"))
    × (tells_disconnection "sdb1" (check same unmeasured (stick ∷ []) ("sdc1" ∷ [])).0 ≡ (
        contains ("sdc1" ∷ []) "sdb1"
        && not (contains (check same unmeasured (stick ∷ []) ("sdc1" ∷ [])).1 "sdb1")))
    × (contains (replay (check same unmeasured (stick ∷ []) ("sdc1" ∷ [])).0 ("sdc1" ∷ [])) "sdb1"
        ≡ contains (check same unmeasured (stick ∷ []) ("sdc1" ∷ [])).1 "sdb1")
check-tells_example = check-tells same unmeasured (stick ∷ []) ("sdc1" ∷ []) "sdb1"
