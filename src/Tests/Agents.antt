-- ===== src/Tests/Agents.antt =====
-- The agent's monitors and queues, and the channels of connections, at concrete inputs.
use guardian_pi.Base.{
  ℕ, zero, suc, String, ◌≡◌, refl, ◌⊎◌, true, List, [], ◌∷◌, none, some, All, ◌==◌, if◌then◌else◌,
  arith,
}
use guardian_pi.Base.{nat_eq, Bool, Option}
use guardian_pi.Http.{ok}
use guardian_pi.Agent.Firewall.{Command, Ran, completed, blocked, validate_ip, is_private, block_ip}
use guardian_pi.Agent.Firewall.Guards.{IsBlocked, block_ip-IsBlocked}
use guardian_pi.Websocket.{Connections, members, discard, ping, no_json, alerts_websocket}
use guardian_pi.Websocket.Channels.{alerts_websocket-discard}
use guardian_pi.Agent.FileIntegrity.{Hash, Baseline, is_given, Monitor, check}
use guardian_pi.Agent.FileIntegrity.Settled.{IsDeletion}
use guardian_pi.Agent.FileIntegrity.Checks.{check-check}
use guardian_pi.Agent.Quarantine.{Processes, Answer, answered, refused, no_such_process}

-- Only one file can be read.
abbrev hash_file : String → Hash
hash_file path = if path == "/etc/passwd" then some "h2" else none

digests : (p : String) → (hash_file p ≡ none) ⊎ (is_given (hash_file p) ≡ true)
digests p = ground arith

abbrev write : Baseline → Baseline → Baseline
write baseline file = baseline

abbrev monitor : Monitor write
monitor = record {
  paths = "/etc/passwd" ∷ "/etc/shadow" ∷ [];
  baseline = ("/etc/passwd", some "h1") ∷ ("/etc/shadow", some "h1") ∷ [];
  file = [];
}

check-check_example : All IsDeletion (check write hash_file (check write hash_file monitor).1).0
check-check_example = check-check write hash_file digests monitor

abbrev two : List ℕ
two = 1 ∷ 2 ∷ []

abbrev repeat : ℕ → List ℕ
repeat zero = []
repeat (suc n) = n ∷ repeat n

-- A system of one process, which is systemd; its state is the list of suspended processes.
abbrev one_process : {A : Type 0} → ℕ → A → Answer A
one_process zero a = refused no_such_process
one_process (suc n) a = answered a

abbrev processes : Processes
processes = record {
  System = List ℕ;
  name = λ pid s. one_process pid "systemd";
  suspend = λ pid s. one_process pid (pid ∷ s);
  resume = λ pid s. one_process pid [];
}

abbrev octets : String → Option (List ℕ)
octets ip = if ip == "8.8.8.8" then some (8 ∷ 8 ∷ 8 ∷ 8 ∷ []) else none

abbrev runs : Command → Ran
runs command = completed

abbrev record_of : List String
record_of = "8.8.8.8" ∷ []

dns-blocked :
    block_ip octets runs "linux" "8.8.8.8" "test" [] ≡ ok (blocked "8.8.8.8" "test", record_of)
unfolding block_ip validate_ip
dns-blocked = refl

ten-private : is_private octets runs "linux" "10.0.0.1" ≡ true
ten-private = refl

block_ip-IsBlocked_example : IsBlocked octets runs "linux" "8.8.8.8" "test" record_of
block_ip-IsBlocked_example =
    block_ip-IsBlocked octets runs "linux" "8.8.8.8" "test" [] record_of "8.8.8.8" "test"
      dns-blocked

abbrev rooms : Connections
rooms = ("alerts", 1 ∷ 2 ∷ []) ∷ ("devices", 3 ∷ []) ∷ []

-- Connection 2 is dead.
abbrev sends : ℕ → Bool
sends ws = nat_eq ws 1

alerts_websocket-discard_example :
    members "alerts" (alerts_websocket 5 (ping ∷ no_json ∷ []) rooms).1
    ≡ discard 5 (members "alerts" rooms)
alerts_websocket-discard_example = alerts_websocket-discard 5 (ping ∷ no_json ∷ []) rooms refl
