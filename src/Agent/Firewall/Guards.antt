-- ===== src/Agent/Firewall/Guards.antt =====
-- Which addresses are blocked, and what the record of them says.
use guardian_pi.Base.{
  ℕ, String, ◌≡◌, refl, ap, sym, Bool, true, false, not, List, [], ◌∷◌, ◌++◌, Option, none, some,
  contains, if◌then◌else◌, arith, Bool-cases, inl, inr, eq_refl,
}
use guardian_pi.Http.{ok}
use guardian_pi.Db.Modify.{ok-injective}
use guardian_pi.Agent.Firewall.{
  Ran, completed, called_process_error, timeout_expired, Command, blocked, failed, add_to,
  validate_ip, block_command, run_block, after_block, is_private, block_ip,
}

-- `octets` is the match of an address. Its record has what was blocked.
contains-append : (ips : List String) (ip : String) → contains (ips ++ ip ∷ []) ip ≡ true
contains-append [] ip = ground (arith, eq_refl ip)
contains-append (i ∷ ips) ip = ground (arith, contains-append ips ip)

contains-add_to : (ip : String) (ips : List String) → contains (add_to ip ips) ip ≡ true
contains-add_to ip ips = elim (Bool-cases (contains ips ip)) [
  | inl there ↦ rw (there, there) refl
  | inr absent ↦ rw absent (contains-append ips ip)
]

-- The command ended normally, the reply names the address, and the record has it.
pub record IsBlocked (octets : String → Option (List ℕ)) (run : Command → Ran)
    (os_type ip reason : String) (ips : List String) : Type 0 where
  pub is_valid : validate_ip octets run os_type ip ≡ true
  pub is_public : is_private octets run os_type ip ≡ false
  pub command : Command
  pub is_command : block_command octets run os_type ip reason ≡ some command
  pub is_completed : run command ≡ completed
  pub recorded : contains ips ip ≡ true

module _ (octets : String → Option (List ℕ)) (run : Command → Ran) (os_type : String) where
  run_block-blocked :
      (ip reason : String) (ips ips' : List String) (c : Option Command) (shown shown' : String)
      → run_block octets run os_type ip reason ips c ≡ ok (blocked shown shown', ips')
      → (command : Command) × (c ≡ some command)
        × (run command ≡ completed)
        × (ips' ≡ add_to ip ips)
  run_block-blocked ip reason ips ips' none shown shown' h = absurd (cc)
  run_block-blocked ip reason ips ips' (some command) shown shown' h = ended (run command) refl h
    where
      ended :
          (r : Ran)
          → run command ≡ r
          → after_block octets run os_type ip reason ips r ≡ ok (blocked shown shown', ips')
          → (c : Command) × (some command ≡ some c) × (run c ≡ completed) × (ips' ≡ add_to ip ips)
      ended completed e h = (command, refl, e, sym (ap (λ p. p.1) (ok-injective h)))
      ended (called_process_error x) e h = absurd (cc)
      ended timeout_expired e h = absurd (cc)

-- A block that is reported as done was of an address that matches, with octets up to 255 and none of the
-- three private prefixes, by a command of this system that ended normally, and is in the record.
pub block_ip-IsBlocked :
    (octets : String → Option (List ℕ)) (run : Command → Ran) (os_type ip reason : String)
    (ips ips' : List String) (shown shown' : String)
    → block_ip octets run os_type ip reason ips ≡ ok (blocked shown shown', ips')
    → IsBlocked octets run os_type ip reason ips'
unfolding block_ip
block_ip-IsBlocked octets run os_type ip reason ips ips' shown shown' h =
    split (validate_ip octets run os_type ip) (is_private octets run os_type ip) refl refl h
  where
    split :
        (valid hidden : Bool)
        → validate_ip octets run os_type ip ≡ valid
        → is_private octets run os_type ip ≡ hidden
        → (if not valid
            then ok (failed "Invalid IP address", ips)
            else if hidden
            then ok (failed "Cannot block private/loopback IPs", ips)
            else run_block octets run os_type ip reason ips
                (block_command octets run os_type ip reason))
          ≡ ok (blocked shown shown', ips')
        → IsBlocked octets run os_type ip reason ips'
    split false hidden v p h = absurd (cc)
    split true true v p h = absurd (cc)
    split true false v p h =
        let (command, is_command, is_completed, same) =
          run_block-blocked octets run os_type ip reason ips ips'
            (block_command octets run os_type ip reason) shown shown' h in
        record {
          is_valid = v;
          is_public = p;
          command = command;
          is_command = is_command;
          is_completed = is_completed;
          recorded = rw same (contains-add_to ip ips);
        }
