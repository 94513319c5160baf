-- ===== src/Agent/Monitors/Network.antt =====
-- agent/monitors/network_monitor.py: NetworkMonitor. psutil and the float of an average are parameters.
pub mod History
use guardian_pi.Base.{
  ℕ, ◌-◌, String, Bool, true, false, ◌||◌, List, [], ◌∷◌, ◌++◌, Option, none, some, length, take,
  drop, ltb, leb, nat_eq, any, contains, ◌==◌, if◌then◌else◌,
}

abbrev pub suspicious_ports : List ℕ
suspicious_ports = 4444 ∷ 5555 ∷ 1337 ∷ 31337 ∷ 6666 ∷ 6667 ∷ 8888 ∷ 9999 ∷ 12345 ∷ 65535 ∷ []

abbrev pub history_max : ℕ
history_max = 60

-- A connection; an address that is missing or empty is `none`.
pub record Connection : Type 0 where
  pub status : String
  pub local_port : Option ℕ
  pub remote : Option (String × ℕ)

pub data Alert : Type 0 where
  connection_spike : (current : ℕ) → Alert
  suspicious_port : (local_port : ℕ) (remote_ip : String) → Alert
  port_scan : (port_count : ℕ) → Alert
  burst : (new_ip_count : ℕ) → Alert

abbrev pub severity : Alert → String
severity (connection_spike current) = "high"
severity (suspicious_port local_port remote_ip) = "high"
severity (port_scan port_count) = "medium"
severity (burst new_ip_count) = "medium"

pub record Monitor : Type 0 where
  pub connection_history : List ℕ
  pub known_remote_ips : List String

abbrev pub new_monitor : Monitor
new_monitor = record { connection_history = []; known_remote_ips = [] }

-- append, then pop(0) beyond the bound
unfoldable pub remember : (current_count : ℕ) → List ℕ → List ℕ
remember current_count history =
    let longer = history ++ current_count ∷ [] in
    if ltb history_max (length longer) then drop 1 longer else longer

-- The analysis of the connections: the ports and the new addresses seen so far, each once, and the
-- addresses that are known.
pub record Analysis : Type 0 where
  pub ports : List ℕ
  pub new_ips : List String
  pub known : List String

abbrev pub add_port : ℕ → List ℕ → List ℕ
add_port port ports = if any (nat_eq port) ports then ports else port ∷ ports

abbrev pub port_or_0 : Option ℕ → ℕ
port_or_0 none = 0
port_or_0 (some port) = port

abbrev pub local_alert : ℕ → String → List Alert
local_alert local_port remote_ip =
    if any (nat_eq local_port) suspicious_ports
    then suspicious_port local_port remote_ip ∷ []
    else []

abbrev pub analyse_remote : Connection → Option (String × ℕ) → Analysis → List Alert × Analysis
analyse_remote conn none a = ([], a)
analyse_remote conn (some (remote_ip, remote_port)) a =
    let alerts = local_alert (port_or_0 conn.local_port) remote_ip in
    (
      alerts,
      if contains a.known remote_ip
          then record a { ports = add_port remote_port a.ports }
          else record {
            ports = add_port remote_port a.ports;
            new_ips = remote_ip ∷ a.new_ips;
            known = remote_ip ∷ a.known;
          },
    )

unfoldable pub analyse : List Connection → Analysis → List Alert × Analysis
analyse [] a = ([], a)
analyse (conn ∷ connections) a =
    let (alerts, b) =
      if conn.status == "ESTABLISHED" then analyse_remote conn conn.remote a else ([], a) in
    let (more, c) = analyse connections b in (alerts ++ more, c)

-- `triples current earlier` is current > sum(earlier) / len(earlier) * 3, on floats.
module _ (triples : ℕ → List ℕ → Bool) where
  abbrev pub spike_alert : (current : ℕ) → (history : List ℕ) → List Alert
  spike_alert current history =
      if leb 5 (length history)
      then if triples current (take (length history - 1) history)
        then if ltb 50 current then connection_spike current ∷ [] else []
        else []
      else []

  abbrev pub port_alert : Analysis → List Alert
  port_alert a = if ltb 30 (length a.ports) then port_scan (length a.ports) ∷ [] else []

  abbrev pub burst_alert : Analysis → List Alert
  burst_alert a = if ltb 20 (length a.new_ips) then burst (length a.new_ips) ∷ [] else []

  -- `none` is a denied access.
  unfoldable pub detect_anomalies : Option (List Connection) → Monitor → List Alert × Monitor
  detect_anomalies none m = ([], m)
  detect_anomalies (some connections) m =
      let current_count = length connections in
      let history = remember current_count m.connection_history in
      let (alerts, a) =
        analyse connections (record { ports = []; new_ips = []; known = m.known_remote_ips }) in
      (
        spike_alert current_count history ++ (alerts ++ (port_alert a ++ burst_alert a)),
        record { connection_history = history; known_remote_ips = a.known },
      )

  -- The monitor after these observations.
  unfoldable pub observe : List (Option (List Connection)) → Monitor → Monitor
  observe [] m = m
  observe (seen ∷ later) m = observe later (detect_anomalies seen m).1
