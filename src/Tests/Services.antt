-- ===== src/Tests/Services.antt =====
-- Policies, sessions, the rate limit, agent versions and the audit log at concrete inputs.
use guardian_pi.Base.{
  Bool-cases, inl, inr, filter, nat_eq, ℕ, suc, ◌+◌, min, String, ◌≡◌, refl, ◌≢◌, ◌↔◌, true, false,
  List, [], ◌∷◌, ◌++◌, Option, none, some, ltb, length, insert, ◌==◌, eq_iff, ne_of_eq_false,
  if◌then◌else◌, arith,
}
use mathlib.Core.List.{append_assoc, append-nil}
use guardian_pi.Http.{Result, ok}
use guardian_pi.Db.{Table, run_session, fetch, scalar_one_or_none}
use guardian_pi.Deps.{require_role}
use guardian_pi.Db.Memory.{memory, memory-IsLawful}
use guardian_pi.Db.Sessions.{Settled, run_session-Settled}
use guardian_pi.Models.{Policy, Time}
use guardian_pi.Policies.{PolicyCreate}
use guardian_pi.Policies.Contract.{Request, creation, deletion, perform_all, View, Effects}
use guardian_pi.Policies.Contract.Simulates.{Represents}
use guardian_pi.Policies.Contract.Refines.{perform_all-Effects}
use guardian_pi.RateLimit.{Redis, IsRedis, check_all}
use guardian_pi.RateLimit.Paced.{check_all-paced}
use guardian_pi.Agent.Hashing.{Sha256, IsStream, hash_file}
use guardian_pi.Agent.Hashing.Chunks.{hash_file-hexdigest}
use guardian_pi.AgentUpdate.{
  Versions, Published, initial_versions, uploaded, check_for_update, checked, publish_agent_update,
}
use guardian_pi.AgentUpdate.Offers.{publish_agent_update-check_for_update}
use guardian_pi.Compliance.{
  AuditLog, Entry, Signer, Action, signed_entry, created_log, create_audit_entry,
  verify_audit_signature,
}
use guardian_pi.Compliance.Signatures.{
  entry_of, verify_audit_signature_iff, verify_audit_signature-entry_of,
}
use guardian_pi.Tests.Samples.{pydantic, usb_policy, alice}

abbrev policies : Table Policy
policies = memory (λ p. p.id)

abbrev usb_body : PolicyCreate
usb_body = record {
  name = "USB";
  description = none;
  category = "usb";
  rules = "{}";
  severity = "high";
  is_enabled = true;
  target_os = "linux" ∷ [];
}

-- An administrator asks for a new policy, which fails with its response, and deletes another.
abbrev requests : List Request
requests = creation "p2" 5 usb_body (ok alice) ∷ deletion "p1" (ok alice) ∷ []

abbrev one_policy : View
one_policy id = if "p1" == id then some usb_policy else none

usb_policy-Represents : Represents (usb_policy ∷ []) one_policy
unfolding fetch scalar_one_or_none
usb_policy-Represents id = elim (Bool-cases ("p1" == id)) [
  | inl same ↦ rw same refl
  | inr other ↦ rw other refl
]

perform_all-Effects_example :
    (w : View) × (Effects pydantic policies one_policy requests
        (perform_all pydantic policies some requests (usb_policy ∷ [])).0
        w
      × Represents (perform_all pydantic policies some requests (usb_policy ∷ [])).1 w)
unfolding fetch scalar_one_or_none
perform_all-Effects_example =
    perform_all-Effects pydantic policies (memory-IsLawful (λ p. p.id)) some (λ s t h. ground arith)
      requests (usb_policy ∷ []) one_policy (refl, (tt, tt)) usb_policy-Represents

abbrev work : ℕ → Result (String × ℕ)
work s = ok ("done", suc s)

abbrev refuse : ℕ → Option ℕ
refuse s = none

run_session-Settled_example : Settled refuse (work 3) 3 (run_session refuse 7 work 3)
run_session-Settled_example = run_session-Settled refuse 7 work 3

-- The number of each key, and when it expires.
abbrev counter : Time → String → (String → ℕ × ℕ) → ℕ
counter t key s = if ltb t (s key).1 then (s key).0 else 0

abbrev redis : Redis
redis = record {
  State = String → ℕ × ℕ;
  counter = counter;
  incr =
      λ t key s. (suc (counter t key s), λ k. if key == k then (suc (counter t key s), 0) else s k);
  expire = λ t key window s. λ k. if key == k then ((s k).0, t + window) else s k;
}

redis-IsRedis : IsRedis redis
redis-IsRedis = record {
  incr_result = λ t key s. refl;
  counter-expire = λ t later window key other s. elim (Bool-cases (key == other)) [
    | inl same ↦ rw same refl
    | inr differs ↦ rw differs refl
  ];
}

abbrev no_keys : String → ℕ × ℕ
no_keys key = (0, 0)

-- Three requests, 59 seconds apart, with a limit of two in a minute.
check_all-paced_example :
    length (filter (λ b. b) (check_all redis "agent" 2 60 (100 ∷ 159 ∷ 218 ∷ []) no_keys)) ≡ min 3 2
check_all-paced_example =
    check_all-paced redis redis-IsRedis "agent" 2 60 100 (159 ∷ 218 ∷ []) no_keys
      (omega arith, (omega arith, tt))

-- Bytes are collected, and their number tells them apart.
abbrev pub sha256 : Sha256
sha256 = record {
  State = List ℕ;
  start = [];
  update = λ s b. s ++ b;
  hexdigest = λ s. if nat_eq (length s) 2 then "two" else "other";
}

pub sha256-IsStream : IsStream sha256
sha256-IsStream = record {
  update-nil = λ s. append-nil s;
  update-update = λ s a b. append_assoc s a b;
}

hash_file-hexdigest_example : hash_file sha256 (some (1 ∷ 2 ∷ [])) ≡ some "two"
hash_file-hexdigest_example = hash_file-hexdigest sha256 sha256-IsStream (1 ∷ 2 ∷ [])

abbrev release : Published
release = record { status = "published"; version = "3"; platform = "linux"; sha256 = "two" }

abbrev versions : Versions
versions = ("linux", uploaded sha256 "today" "3" "linux" "notes" (1 ∷ 2 ∷ [])) ∷ []

published :
    publish_agent_update sha256 "today" "3" "linux" "notes"
      (1 ∷ 2 ∷ [])
      (ok alice)
      (initial_versions "before")
    ≡ ok (release, versions)
unfolding publish_agent_update insert require_role
published = refl

publish_agent_update-check_for_update_example :
    (◌≢◌ {A = String} "3" "2"
      → check_for_update "2" "linux" (ok "key") versions
        ≡ ok (
            checked true "2" "3"
              (some "/api/v1/agent/download/linux")
              (hash_file sha256 (some (1 ∷ 2 ∷ [])))
              (some "notes")))
    × ((check_for_update "3" "linux" (ok "key") versions
          ≡ ok (checked false "3" "3" none none none))
        × ((other : String)
            → ◌≢◌ {A = String} "linux" other
            → check_for_update "2" other (ok "key") versions
              ≡ check_for_update "2" other (ok "key") (initial_versions "before")))
publish_agent_update-check_for_update_example =
    publish_agent_update-check_for_update sha256 sha256-IsStream "today" "3" "linux" "notes"
      (1 ∷ 2 ∷ []) (ok alice) (initial_versions "before") versions release "2" "key" published

-- The JSON is the action, and the time if it is 7; the HMAC is the text itself.
abbrev signer : Signer
signer = record {
  hmac = λ secret text. text;
  compare_digest = λ a b. a == b;
  dumps = λ e. if nat_eq e.timestamp 7 then "late" else e.action;
  secret_key = "secret";
}

abbrev login_action : Action
login_action = record {
  action = "login";
  category = "auth";
  user_id = some "u1";
  device_id = none;
  details = none;
  ip_address = none;
  user_agent = none;
}

abbrev audit_logs : Table AuditLog
audit_logs = memory (λ l. l.id)

abbrev login_log : AuditLog
login_log = created_log signer "l1" 5 7 login_action

logged :
    create_audit_entry signer audit_logs "l1" 5 7 login_action [] ≡ ok (login_log, login_log ∷ [])
unfolding create_audit_entry
logged = refl

-- An entry about another action.
abbrev logout : Entry
logout = record (signed_entry 5 login_action) { action = "logout" }

verify_audit_signature_iff_example :
    (verify_audit_signature signer (signer.dumps logout) login_log.hmac_signature ≡ true)
    ↔ (logout ≡ record (entry_of login_log) { timestamp = 5 })
verify_audit_signature_iff_example =
    verify_audit_signature_iff signer (λ a b. eq_iff a b) audit_logs "l1" 5 7 login_action []
      (login_log ∷ []) login_log logout (λ h. absurd (ne_of_eq_false "logout" "login" refl h))
      logged

five_ne_seven : ◌≢◌ {A = ℕ} 5 7
five_ne_seven h = omega (arith, h)

verify_audit_signature-entry_of_example :
    verify_audit_signature signer (signer.dumps (entry_of login_log)) login_log.hmac_signature
    ≡ false
verify_audit_signature-entry_of_example =
    verify_audit_signature-entry_of signer (λ a b. eq_iff a b) audit_logs "l1" 5 7 login_action []
      (login_log ∷ []) login_log (λ h. absurd (ne_of_eq_false "late" "login" refl h)) five_ne_seven
      logged
