-- ===== src/Agent/Monitors/Processes.antt =====
-- agent/monitors/process_monitor.py: ProcessMonitor. psutil and the float of a load are parameters.
pub mod Baseline
use guardian_pi.Base.{
  ℕ, String, ◌<>◌, Bool, true, false, List, [], ◌∷◌, ◌++◌, Option, none, some, ltb, nat_eq, any,
  get_or, is_substring, if◌then◌else◌,
}

abbrev pub suspicious_processes : List (String × String)
suspicious_processes =
    ("hydra", "Brute-force attack tool")
    ∷ ("nmap", "Network scanner")
    ∷ ("netcat", "Network utility (potential backdoor)")
    ∷ ("nc", "Netcat variant")
    ∷ ("john", "Password cracker")
    ∷ ("hashcat", "Password cracker")
    ∷ ("mimikatz", "Credential dumper")
    ∷ ("meterpreter", "Exploitation framework")
    ∷ ("cobalt", "C2 framework indicator")
    ∷ ("empire", "Post-exploitation framework")
    ∷ ("lazagne", "Credential recovery tool")
    ∷ ("responder", "LLMNR/NBT-NS poisoner")
    ∷ []

-- str.lower, and of a load whether it is above 90, and its text.
pub record Values : Type 1 where
  pub lower : String → String
  pub Load : Type 0
  pub above_90 : Load → Bool
  pub show_load : Load → String

module _ (V : Values) where
  -- proc.info; the connections by their number.
  pub record Info : Type 0 where
    pub pid : ℕ
    pub name : Option String
    pub username : Option String
    pub cpu_percent : Option V.Load
    pub connections : Option ℕ

  pub data Alert : Type 0 where
    suspicious :
        (title : String) (pid : ℕ) (process_name username : Option String) (description : String)
        → Alert
    high_cpu : (title : String) (pid : ℕ) (process_name : Option String) (cpu : V.Load) → Alert
    many_connections : (title : String) (pid connection_count : ℕ) → Alert

-- The f-string of a name.
abbrev pub shown : Option String → String
shown name = get_or name "None"

abbrev pub knows : List ℕ → ℕ → Bool
knows baseline pid = any (nat_eq pid) baseline

-- _initialize_baseline: the pids of the processes that can be read.
unfoldable pub initialize_baseline : List (Option ℕ) → List ℕ → List ℕ
initialize_baseline [] baseline = baseline
initialize_baseline (none ∷ procs) baseline = initialize_baseline procs baseline
initialize_baseline (some pid ∷ procs) baseline =
    initialize_baseline procs (if knows baseline pid then baseline else baseline ++ pid ∷ [])

module _ {V : Values} where
  abbrev pub severity : Alert V → String
  severity (suspicious title pid process_name username description) = "high"
  severity (high_cpu title pid process_name cpu) = "medium"
  severity (many_connections title pid connection_count) = "medium"

  -- `name` is (info.get("name") or "").lower().
  abbrev pub by_name : Info V → (name : String) → List (String × String) → List (Alert V)
  by_name info name [] = []
  by_name info name ((bad_name, description) ∷ others) =
      let rest = by_name info name others in
      let alert =
        suspicious ("Suspicious process: " <> shown info.name) info.pid info.name info.username
          description in
      if is_substring bad_name name then alert ∷ rest else rest

  -- `cpu > 90`, for a missing load or one that is 0 false
  abbrev pub by_load : Info V → Option V.Load → List (Alert V)
  by_load info none = []
  by_load info (some cpu) =
      if V.above_90 cpu
      then high_cpu ("High CPU usage: " <> (shown info.name <> (" (" <> (V.show_load cpu <> "%)"))))
          info.pid info.name cpu
        ∷ []
      else []

  abbrev pub by_connections : Info V → (connections : ℕ) → List (Alert V)
  by_connections info connections =
      if ltb 20 connections
      then many_connections ("New process with many connections: " <> shown info.name) info.pid
          connections
        ∷ []
      else []

  -- What one process adds, and the baseline after it.
  unfoldable pub scan_one : Info V → (baseline : List ℕ) → List (Alert V) × List ℕ
  scan_one info baseline =
      let name = V.lower (get_or info.name "") in
      let named = by_name info name suspicious_processes ++ by_load info info.cpu_percent in
      if knows baseline info.pid
      then (named, baseline)
      else (named ++ by_connections info (get_or info.connections 0), baseline ++ info.pid ∷ [])

  -- A process that is gone or denied raises, and is passed over.
  unfoldable pub scan : List (Option (Info V)) → (baseline : List ℕ) → List (Alert V) × List ℕ
  scan [] baseline = ([], baseline)
  scan (none ∷ procs) baseline = scan procs baseline
  scan (some info ∷ procs) baseline =
      let (alerts, known) = scan_one info baseline in
      let (more, final) = scan procs known in (alerts ++ more, final)
