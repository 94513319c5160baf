-- ===== src/Tests/Delivery.antt =====
-- The agent's queue on its way to the server, at concrete inputs.
use guardian_pi.Base.{
  ◌++◌, Bool, ap, ℕ, ◌+◌, ◌≡◌, refl, ◌≢◌, Bool, true, false, [], ◌∷◌, ◌++◌, none, some, length,
  ◌==◌, if◌then◌else◌, arith, nat_eq,
}
use guardian_pi.Http.{ok}
use guardian_pi.Db.Memory.{memory}
use guardian_pi.Deps.{validate_agent_api_key, validate_api_key}
use guardian_pi.Telemetry.{Event, Data, read}
use guardian_pi.Agent.Crypto.{Bytes, Primitives, IsSent}
use guardian_pi.Agent.Sender.{send_error}
use guardian_pi.Agent.Sender.Ledger.{
  Ledger, empty, queueing, starting, finishing, Reach, here, next, queue_one, start, end, count,
  IsBalanced, Reach-IsBalanced, Reach-responded, delivered,
}
use guardian_pi.Agent.FileIntegrity
use guardian_pi.Agent.Monitors.Usb.{check, watch}
use guardian_pi.Agent.Monitors.Network.{new_monitor}
use guardian_pi.Agent.Loops.{Tools, Agent, Round, partitions, round, reports}
use guardian_pi.Agent.Loops.Blocked.{flush_times-round}
use guardian_pi.Delivery.{Server, server_decrypt, body, flush_queue, flush_times}
use guardian_pi.Delivery.Decrypt.{read-body}
use guardian_pi.Delivery.Flush.{flush_times-plain, flush_queue-delivered}
use guardian_pi.Tests.Samples.{sec}
use guardian_pi.Tests.Services.{sha256}

-- An event is queued, a flush starts, another is queued, and the flush fails.
abbrev ledger : Ledger ℕ
ledger = finishing send_error (queueing 2 (starting (queueing 1 (empty ℕ))))

way : Reach (empty ℕ) ledger
way = next (next (next (next here (queue_one 1)) (start refl)) (queue_one 2)) (end send_error)

Reach-IsBalanced_example : IsBalanced ledger
Reach-IsBalanced_example = Reach-IsBalanced way

abbrev beat : Event
beat = record {
  event_type = some "heartbeat";
  severity = some "info";
  title = some "heartbeat event";
  description = none;
  details = some "{}";
}

-- One text is the JSON of one payload, and each part has a base64 text of its own. The tag is the
-- last 16 bytes of a ciphertext.
abbrev tag_bytes : Bytes
tag_bytes = 0 ∷ 0 ∷ 0 ∷ 0 ∷ 0 ∷ 0 ∷ 0 ∷ 0 ∷ 0 ∷ 0 ∷ 0 ∷ 0 ∷ 0 ∷ 0 ∷ 0 ∷ 0 ∷ []

abbrev primitives : Primitives Data
primitives = record {
  b64encode =
      λ b. if nat_eq (length b) 1 then "ct" else if nat_eq (length b) 2 then "nonce" else "tag";
  b64decode = λ s.
      if s == "ct"
      then some (1 ∷ [])
      else if s == "nonce"
      then some (7 ∷ 7 ∷ [])
      else if s == "key"
      then some (3 ∷ [])
      else some tag_bytes;
  dumps = λ d. 1 ∷ [];
  loads = λ b. some (some (beat ∷ []));
  Key = Bytes;
  aesgcm = λ b. some b;
  seal = λ k nonce m. m ++ tag_bytes;
  unseal = λ k nonce c. some (1 ∷ []);
}

sent : IsSent primitives (3 ∷ []) (7 ∷ 7 ∷ []) (some (beat ∷ []))
sent = record {
  opened = refl;
  read = refl;
  decoded = (refl, (refl, (refl, tt)));
  filled = (refl, (refl, (refl, tt)));
}

read-body_example :
    read sec
      (server_decrypt primitives (some "key"))
      false
      (λ n. "a9")
      5
      (body primitives (some (3 ∷ [])) (7 ∷ 7 ∷ []) (beat ∷ []))
    ≡ ok (some (beat ∷ []))
read-body_example =
    read-body primitives (some "key") (3 ∷ []) false (λ n. "a9") 5 sec (7 ∷ 7 ∷ []) (beat ∷ []) refl
      sent

abbrev server : Server
server = record {
  security = sec;
  telemetry_encryption_key = some "key";
  is_development = false;
  alerts = memory (λ a. a.id);
  commit = some;
}

flush_times-plain_example :
    flush_times primitives server (λ n. "a9") 5 "key" none ([] ∷ [] ∷ []) (beat ∷ [], [])
    ≡ (beat ∷ [], [])
flush_times-plain_example =
    flush_times-plain primitives server (λ n. "a9") 5 "key" ([] ∷ [] ∷ []) (beat ∷ []) [] refl

key_valid : validate_agent_api_key sec (some "key") ≡ ok "key"
unfolding validate_agent_api_key validate_api_key
key_valid = refl

-- A USB stick is plugged in.
abbrev tools : Tools
tools = record {
  V = record { lower = λ s. s; Load = ℕ; above_90 = λ n. false; show_load = λ n. "0" };
  lower = λ s. s;
  total_gb = λ m. none;
  triples = λ c h. false;
  hash_file = λ p. none;
  H = sha256;
  process_alert = λ a. (none, "{}");
  file_change = λ c. (none, "{}");
  network_anomaly = λ a. (none, "{}");
  usb_event = λ e. (none, "{}");
  tamper = "{}";
}

abbrev write : FileIntegrity.Baseline → FileIntegrity.Baseline → FileIntegrity.Baseline
write baseline file = baseline

abbrev agent : Agent tools write
agent = record {
  running = true;
  baseline_pids = [];
  files = record { paths = []; baseline = []; file = [] };
  network = new_monitor;
  known_devices = [];
  engine = record { binary_hash = none; integrity_verified = true };
  queue = beat ∷ [];
}

abbrev stick : Round tools write
stick =
    partitions (
      record { device = "sdb1"; mountpoint = "/media"; fstype = "vfat"; opts = "rw,removable" }
      ∷ [])

noticed : (reports tools write stick agent).0 ≢ []
unfolding check watch
noticed h = omega (arith, ap length h)

flush_times-round_example :
    flush_times primitives server
      (λ n. "a9")
      5
      "key"
      none
      ([] ∷ [] ∷ [])
      ((round tools write stick agent).queue, [])
    ≡ ((round tools write stick agent).queue, [])
flush_times-round_example =
    flush_times-round tools write primitives server (λ n. "a9") 5 "key" none ([] ∷ [] ∷ []) [] stick
      agent (tt, (tt, tt)) refl refl tt noticed

abbrev ended : Ledger ℕ
ended = delivered (finishing send_error ledger)

Reach-responded_example :
    Reach ledger ended
    × (ended.queue ≡ [])
    × (ended.in_flight ≡ [])
    × (ended.acknowledged
        ≡ (finishing send_error ledger).acknowledged ++ (finishing send_error ledger).queue)
    × (ended.dropped ≡ ledger.dropped)
    × ((p : ℕ → Bool) → count p ledger.queued ≡ count p ended.acknowledged + count p ledger.dropped)
Reach-responded_example = Reach-responded send_error way refl

flush_queue-delivered_example :
    ((flush_queue primitives server
        (λ n. "a9")
        5
        "key"
        (some (3 ∷ []))
        (7 ∷ 7 ∷ [])
        (beat ∷ [], [])).0
      ≡ [])
    × ((flush_queue primitives server
          (λ n. "a9")
          5
          "key"
          (some (3 ∷ []))
          (7 ∷ 7 ∷ [])
          (beat ∷ [], [])).1
        ≡ [])
flush_queue-delivered_example =
    flush_queue-delivered primitives server (λ n. "a9") 5 "key" (3 ∷ []) (7 ∷ 7 ∷ []) beat [] [] []
      (refl, sent) key_valid refl refl refl
