-- ===== src/Agent/Quarantine/Guards.antt =====
-- What a quarantine never touches.
use guardian_pi.Base.{ℕ, String, ◌<>◌, ◌≡◌, refl, Bool, true, false, ◌||◌, contains, is_substring}
use guardian_pi.Agent.Quarantine.{
  protected_processes, failed, answered, Processes, Quarantined, guarded, quarantine_process,
}

module _ (P : Processes) (lower : String → String) where
  guarded-failed :
      (pid : ℕ) (reason : String) (q : Quarantined) (system : P.System) (name : String) (own : Bool)
      (listed : Bool)
      → contains protected_processes name ≡ listed
      → is_substring "guardian" name ≡ own
      → (listed || own) ≡ true
      → ((error : String) × (guarded P lower pid reason q system name
            ≡ (failed error, (q, system))))
  guarded-failed pid reason q system name own true l o h =
      ("Protected process: " <> name, rw l refl)
  guarded-failed pid reason q system name true false l o h =
      ("Cannot quarantine self", rw (l, o) refl)
  guarded-failed pid reason q system name false false l o h = cc

-- A process whose lower-cased name is protected, or contains "guardian", is never suspended: the
-- call fails, and neither the processes nor the records change.
pub quarantine_process-failed :
    (P : Processes) (lower : String → String) (pid : ℕ) (reason : String) (q : Quarantined)
    (system : P.System) (name : String)
    → P.name pid system ≡ answered name
    → (contains protected_processes (lower name) || is_substring "guardian" (lower name)) ≡ true
    → ((error : String) × (quarantine_process P lower pid reason q system
          ≡ (failed error, (q, system))))
unfolding quarantine_process
quarantine_process-failed P lower pid reason q system name is_named h = rw is_named (
    guarded-failed P lower pid reason q system (lower name) (is_substring "guardian" (lower name))
      (contains protected_processes (lower name)) refl refl h)
