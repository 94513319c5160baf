-- ===== src/Agent/Tamper.antt =====
-- agent/security/anti_tamper.py: AntiTamperEngine. hashlib, the system and what it tells of debuggers
-- are parameters.
pub mod Verdict
use guardian_pi.Base.{
  ℕ, String, Bool, true, false, not, ◌&&◌, List, [], ◌∷◌, Option, none, some, starts_with, nat_eq,
  ◌==◌, if◌then◌else◌,
}
use guardian_pi.Agent.Hashing.{Sha256, hash_file}

pub record Engine : Type 0 where
  pub binary_hash : Option String
  pub integrity_verified : Bool

-- current == self._binary_hash
abbrev pub is_hash : String → Option String → Bool
is_hash h none = false
is_hash h (some k) = h == k

-- What the operating system tells. The content of the agent's file is `none` where it cannot be read.
pub record System : Type 0 where
  pub name : String
  -- the lines of /proc/self/status, if it can be opened
  pub status : Option (List String)
  -- int(line.split(":")[1].strip()), `none` where it raises ValueError
  pub tracer_of : String → Option ℕ
  -- IsDebuggerPresent() != 0, `none` where it raises
  pub is_debugger_present : Option Bool

-- `if tracer != 0: return True`; `none` is the ValueError of int, which is not caught.
abbrev pub after_tracer : Option ℕ → (rest : Option Bool) → Option Bool
after_tracer none rest = none
after_tracer (some tracer) rest = if nat_eq tracer 0 then rest else some true

-- The loop over the lines.
unfoldable pub traced : (String → Option ℕ) → List String → Option Bool
traced tracer_of [] = some false
traced tracer_of (line ∷ lines) =
    let rest = traced tracer_of lines in
    if starts_with line "TracerPid:" then after_tracer (tracer_of line) rest else rest

abbrev pub or_false : Option Bool → Option Bool
or_false none = some false
or_false (some b) = some b

abbrev pub traced_in : (String → Option ℕ) → Option (List String) → Option Bool
traced_in tracer_of none = some false
traced_in tracer_of (some lines) = traced tracer_of lines

unfoldable pub detect_debugger : System → Option Bool
detect_debugger s =
    if s.name == "Linux"
    then traced_in s.tracer_of s.status
    else if s.name == "Windows"
    then or_false s.is_debugger_present
    else some false

pub record Checks : Type 0 where
  pub binary_integrity : Bool
  pub debugger_detected : Bool
  pub overall_status : String

abbrev pub status_of : Bool → Bool → String
status_of intact debugged = if intact && not debugged then "secure" else "compromised"

module _ (H : Sha256) where
  unfoldable pub new_engine : (content : Option (List ℕ)) → Engine
  new_engine content = record { binary_hash = hash_file H content; integrity_verified = true }

  -- `if not self._binary_hash: return True`, then the comparison.
  abbrev pub verified_against : Option String → Option (List ℕ) → Engine → Bool × Engine
  verified_against none content e = (true, e)
  verified_against (some h) content e =
      if h == ""
      then (true, e)
      else (if is_hash h (hash_file H content)
          then (true, e)
          else (false, record e { integrity_verified = false }))

  unfoldable pub verify_integrity : Option (List ℕ) → Engine → Bool × Engine
  verify_integrity content e = verified_against e.binary_hash content e

  -- The two verifications read the file one after the other; the debugger is looked for again only
  -- if the second one succeeds, with the same answer.
  abbrev pub checks_with : Option Bool → Bool → Bool × Engine → Option (Checks × Engine)
  checks_with none first second = none
  checks_with (some debugged) first (intact, e) = some (
    record {
      binary_integrity = first;
      debugger_detected = debugged;
      overall_status = status_of intact debugged;
    },
    e,
  )

  unfoldable pub check_all :
      System → (first second : Option (List ℕ)) → Engine → Option (Checks × Engine)
  check_all s first second e =
      let (intact, e1) = verify_integrity first e in
      checks_with (detect_debugger s) intact (verify_integrity second e1)
