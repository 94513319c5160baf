-- ===== src/Agent/Firewall.antt =====
-- agent/remediation/firewall_manager.py: blocking and unblocking an address. What a command of the
-- operating system does is a parameter, and so is the match of the pattern of an address.
pub mod Guards
use guardian_pi.Base.{
  ℕ, String, ◌<>◌, Bool, true, false, not, ◌&&◌, ◌||◌, List, [], ◌∷◌, ◌++◌, Option, none, some, leb,
  all, filter, contains, starts_with, ◌==◌, if◌then◌else◌,
}
use guardian_pi.Http.{Result, ok, err, raised}

-- The end of subprocess.run with check=True: CalledProcessError with its text, or another exception.
pub data Ran : Type 0 where
  completed : Ran
  called_process_error : String → Ran
  timeout_expired : Ran

-- The commands that are run.
pub data Command : Type 0 where
  iptables_append : (ip reason : String) → Command
  netsh_add : (ip : String) → Command
  pfctl_add : (ip : String) → Command
  iptables_delete : (ip : String) → Command
  netsh_delete : (ip : String) → Command

pub data Reply : Type 0 where
  blocked : (ip reason : String) → Reply
  unblocked : (ip : String) → Reply
  failed : (error : String) → Reply

-- set.add, set.discard
abbrev pub add_to : String → List String → List String
add_to ip ips = if contains ips ip then ips else ips ++ ip ∷ []

abbrev pub discard : String → List String → List String
discard ip ips = filter (λ i. not (i == ip)) ips

-- `octets` is re.match of the pattern and then the numbers between the dots; `none` is no match.
module _ (octets : String → Option (List ℕ)) (run : Command → Ran) (os_type : String) where
  abbrev pub in_range : Option (List ℕ) → Bool
  in_range none = false
  in_range (some os) = all (λ octet. leb octet 255) os

  unfoldable pub validate_ip : String → Bool
  validate_ip ip = in_range (octets ip)

  -- The command of a system for an address, where there is one.
  abbrev pub block_command : (ip reason : String) → Option Command
  block_command ip reason =
      if os_type == "linux"
      then some (iptables_append ip reason)
      else if os_type == "windows"
      then some (netsh_add ip)
      else if os_type == "darwin"
      then some (pfctl_add ip)
      else none

  abbrev pub after_block : (ip reason : String) → List String → Ran → Result (Reply × List String)
  after_block ip reason ips completed = ok (blocked ip reason, add_to ip ips)
  after_block ip reason ips (called_process_error e) = ok (failed e, ips)
  after_block ip reason ips timeout_expired = err (raised "TimeoutExpired")

  abbrev pub run_block :
      (ip reason : String) → List String → Option Command → Result (Reply × List String)
  run_block ip reason ips none = ok (failed ("Unsupported OS: " <> os_type), ips)
  run_block ip reason ips (some command) = after_block ip reason ips (run command)

  abbrev pub is_private : String → Bool
  is_private ip = starts_with ip "127." || (starts_with ip "10." || starts_with ip "192.168.")

  unfoldable pub block_ip : (ip reason : String) → List String → Result (Reply × List String)
  block_ip ip reason ips =
      if not (validate_ip ip)
      then ok (failed "Invalid IP address", ips)
      else if is_private ip
      then ok (failed "Cannot block private/loopback IPs", ips)
      else run_block ip reason ips (block_command ip reason)

  abbrev pub unblock_command : String → Option Command
  unblock_command ip =
      if os_type == "linux"
      then some (iptables_delete ip)
      else if os_type == "windows"
      then some (netsh_delete ip)
      else none

  abbrev pub after_unblock : String → List String → Ran → Result (Reply × List String)
  after_unblock ip ips completed = ok (unblocked ip, discard ip ips)
  after_unblock ip ips (called_process_error e) = ok (failed e, ips)
  after_unblock ip ips timeout_expired = err (raised "TimeoutExpired")

  -- Other systems run no command, and the address is discarded.
  abbrev pub run_unblock : String → List String → Option Command → Result (Reply × List String)
  run_unblock ip ips none = ok (unblocked ip, discard ip ips)
  run_unblock ip ips (some command) = after_unblock ip ips (run command)

  unfoldable pub unblock_ip : String → List String → Result (Reply × List String)
  unblock_ip ip ips =
      if not (validate_ip ip)
      then ok (failed "Invalid IP address", ips)
      else run_unblock ip ips (unblock_command ip)
