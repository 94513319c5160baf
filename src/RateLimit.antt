-- ===== src/RateLimit.antt =====
-- backend/app/core/redis.py: check_rate_limit of the RedisManager. Redis is a parameter.
pub mod Paced
use guardian_pi.Base.{
  ℕ, suc, ◌+◌, ◌-◌, String, ◌≡◌, Bool, List, [], ◌∷◌, leb, ltb, ◌==◌, if◌then◌else◌,
}
use guardian_pi.Models.{Time}

-- The two commands of the pipeline, at a time.
pub record Redis : Type 1 where
  pub State : Type 0
  -- the number that a key holds; a key that is missing or expired counts as 0
  pub counter : Time → String → State → ℕ
  -- INCR key: the new number
  pub incr : Time → String → State → ℕ × State
  -- EXPIRE key seconds
  pub expire : Time → String → ℕ → State → State

-- What Redis documents of INCR and then EXPIRE on one key: the number is one more, and it is kept
-- for the given seconds from then on; the other keys are as they were.
pub record IsRedis (R : Redis) : Type 0 where
  pub incr_result :
      (t : Time) (key : String) (s : R.State) → (R.incr t key s).0 ≡ suc (R.counter t key s)
  pub counter-expire :
      (t later window : ℕ) (key other : String) (s : R.State)
      → R.counter later other (R.expire t key window (R.incr t key s).1) ≡ (
          if key == other
          then (if ltb later (t + window) then suc (R.counter t key s) else 0)
          else R.counter later other s)

module _ (R : Redis) where
  -- Whether the request is allowed, and the remaining requests.
  unfoldable pub check_rate_limit :
      (now : Time) (key : String) (max_requests window_seconds : ℕ) → R.State → (Bool × ℕ) × R.State
  check_rate_limit now key max_requests window_seconds s =
      let (current, t) = R.incr now key s in
      let remaining = max_requests - current in
      ((leb current max_requests, remaining), R.expire now key window_seconds t)

  -- The answers to the requests of one client at these times, in order.
  unfoldable pub check_all :
      (key : String) (max_requests window_seconds : ℕ) → List Time → R.State → List Bool
  check_all key max_requests window_seconds [] s = []
  check_all key max_requests window_seconds (now ∷ times) s =
      let ((allowed, remaining), t) = check_rate_limit now key max_requests window_seconds s in
      allowed ∷ check_all key max_requests window_seconds times t
