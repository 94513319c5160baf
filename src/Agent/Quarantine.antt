-- ===== src/Agent/Quarantine.antt =====
-- agent/remediation/quarantine.py: suspending and resuming processes. What psutil answers is a
-- parameter; the texts are lower-cased as `str.lower` does.
pub mod Guards
use guardian_pi.Base.{
  ℕ, String, ◌<>◌, Bool, true, false, List, [], ◌∷◌, ◌++◌, map, Option, none, some, contains,
  is_substring, filter, not, nat_eq, any, if◌then◌else◌,
}

abbrev pub protected_processes : List String
protected_processes =
    "init" ∷ "systemd" ∷ "kernel" ∷ "launchd" ∷ "services.exe" ∷ "csrss.exe" ∷ "wininit.exe"
    ∷ "smss.exe" ∷ "lsass.exe" ∷ "svchost.exe" ∷ "explorer.exe" ∷ "winlogon.exe" ∷ "dwm.exe"
    ∷ "system" ∷ "system idle process" ∷ []

-- The exceptions of psutil that are caught.
pub data ProcessError : Type 0 where
  no_such_process access_denied : ProcessError

pub data Reply : Type 0 where
  failed : (error : String) → Reply
  quarantined : (pid : ℕ) (name reason : String) → Reply
  released : (pid : ℕ) (name : String) → Reply

pub data Answer (A : Type 0) : Type 0 where
  answered : A → Answer A
  refused : ProcessError → Answer A

-- The operating system's processes, in a state of theirs. Process(pid).name() reads; suspend and
-- resume change the state.
pub record Processes : Type 1 where
  pub System : Type 0
  pub name : ℕ → System → Answer String
  pub suspend : ℕ → System → Answer System
  pub resume : ℕ → System → Answer System

-- self._quarantined: the pid and the name of each rollback record
abbrev pub Quarantined : Type 0
Quarantined = List (ℕ × String)

abbrev pub put : ℕ → String → Quarantined → Quarantined
put pid name [] = (pid, name) ∷ []
put pid name ((p, n) ∷ q) =
    let rest = put pid name q in if nat_eq p pid then (pid, name) ∷ q else (p, n) ∷ rest

abbrev pub pop : ℕ → Quarantined → Quarantined
pop pid q = filter (λ r. not (nat_eq r.0 pid)) q

module _ (P : Processes) (lower : String → String) where
  abbrev pub Outcome : Type 0
  Outcome = Reply × (Quarantined × P.System)

  abbrev pub quarantine_error : ProcessError → String
  quarantine_error no_such_process = "Process not found"
  quarantine_error access_denied = "Access denied"

  -- After the suspension, the name is read once more for the record and once for the log.
  abbrev pub recorded : ℕ → String → Quarantined → P.System → Answer String → Outcome
  recorded pid reason q system (refused e) = (failed (quarantine_error e), (q, system))
  recorded pid reason q system (answered name) =
      (quarantined pid name reason, (put pid name q, system))

  abbrev pub suspended : ℕ → String → Quarantined → P.System → Answer P.System → Outcome
  suspended pid reason q system (refused e) = (failed (quarantine_error e), (q, system))
  suspended pid reason q system (answered next) = recorded pid reason q next (P.name pid next)

  abbrev pub guarded : ℕ → String → Quarantined → P.System → String → Outcome
  guarded pid reason q system name =
      if contains protected_processes name
      then (failed ("Protected process: " <> name), (q, system))
      else if is_substring "guardian" name
      then (failed "Cannot quarantine self", (q, system))
      else suspended pid reason q system (P.suspend pid system)

  abbrev pub named : ℕ → String → Quarantined → P.System → Answer String → Outcome
  named pid reason q system (refused e) = (failed (quarantine_error e), (q, system))
  named pid reason q system (answered name) = guarded pid reason q system (lower name)

  unfoldable pub quarantine_process : (pid : ℕ) (reason : String) → Quarantined → P.System → Outcome
  quarantine_process pid reason q system = named pid reason q system (P.name pid system)

  abbrev pub release_error : ProcessError → String
  release_error no_such_process = "Process no longer exists"
  release_error access_denied = "Access denied"

  -- NoSuchProcess takes the record out too.
  abbrev pub kept : ProcessError → ℕ → Quarantined → Quarantined
  kept no_such_process pid q = pop pid q
  kept access_denied pid q = q

  abbrev pub announced : ℕ → Quarantined → P.System → Answer String → Outcome
  announced pid q system (refused e) = (failed (release_error e), (kept e pid q, system))
  announced pid q system (answered name) = (released pid name, (q, system))

  abbrev pub resumed : ℕ → Quarantined → P.System → Answer P.System → Outcome
  resumed pid q system (refused e) = (failed (release_error e), (kept e pid q, system))
  resumed pid q system (answered next) = announced pid (pop pid q) next (P.name pid next)

  unfoldable pub release_process : ℕ → Quarantined → P.System → Outcome
  release_process pid q system = resumed pid q system (P.resume pid system)
