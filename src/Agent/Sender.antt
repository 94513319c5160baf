-- ===== src/Agent/Sender.antt =====
-- agent/telemetry/sender.py: the queue of events, and its flush, during whose request other events
-- can be queued. An event is of any type.
pub mod Queue
pub mod Ledger
use guardian_pi.Base.{
  ℕ, ◌-◌, Bool, true, false, ◌||◌, List, [], ◌∷◌, ◌++◌, length, drop, leb, nat_eq, if◌then◌else◌,
}

abbrev pub max_queue : ℕ
max_queue = 100

-- queue[-n:], for a positive n
abbrev pub last {ℓ} : {E : Type ℓ} → ℕ → List E → List E
last n queue = drop (length queue - n) queue

-- What became of the request: the status of the response, an exception, or the cancellation of the
-- task, which `except Exception` does not catch.
pub data Outcome : Type 0 where
  responded : (status_code : ℕ) → Outcome
  send_error cancelled : Outcome

abbrev pub accepted : Outcome → Bool
accepted (responded status_code) = nat_eq status_code 202
accepted send_error = false
accepted cancelled = false

abbrev pub is_cancelled : Outcome → Bool
is_cancelled (responded status_code) = false
is_cancelled send_error = false
is_cancelled cancelled = true

module _ {E : Type 0} where
  abbrev pub bounded : List E → List E
  bounded queue = if leb max_queue (length queue) then last max_queue queue else queue

  unfoldable pub queue_event : E → List E → List E
  queue_event event queue = bounded (queue ++ event ∷ [])

  -- The end of a flush that took `events`, on the queue as it is by then: a failure puts them back, a
  -- cancellation does not.
  unfoldable pub finish : Outcome → (events : List E) → List E → List E
  finish outcome events queue =
      if accepted outcome || is_cancelled outcome then queue else queue ++ events
