-- ===== src/RateLimit/Paced.antt =====
-- A client that never pauses for a whole window.
use guardian_pi.Base.{
  ℕ, suc, ◌+◌, ◌-◌, ◌<◌, min, String, ◌≡◌, refl, ap, ◌∙◌, Bool, true, List, [], ◌∷◌, length, filter,
  leb, ltb, eq_refl, arith,
}
use guardian_pi.Models.{Time}
use guardian_pi.RateLimit.{Redis, IsRedis, check_rate_limit, check_all}

-- Each request comes less than a window after the one before.
abbrev pub IsPaced : (window : ℕ) → Time → List Time → Type 0
IsPaced window last [] = Unit
IsPaced window last (now ∷ times) = (now < last + window) × IsPaced window now times

abbrev granted : List Bool → ℕ
granted answers = length (filter (λ b. b) answers)

before : (a b : ℕ) → a < b → ltb a b ≡ true
before a b h = ground arith

granted-leb :
    (limit count n : ℕ) (rest : List Bool)
    → granted rest ≡ min n (limit - suc count)
    → granted (leb (suc count) limit ∷ rest) ≡ min (suc n) (limit - count)
granted-leb limit count n rest h = ground arith

module _ (R : Redis) (law : IsRedis R) (key : String) (max_requests window : ℕ) where
  after_one :
      (now later : Time) (s : R.State)
      → later < now + window
      → R.counter later key (check_rate_limit R now key max_requests window s).1
        ≡ suc (R.counter now key s)
  unfolding check_rate_limit
  after_one now later s soon =
      law.counter-expire now later window key key s
      ∙ rw (eq_refl key, before later (now + window) soon) refl

  check_all-cons :
      (now : Time) (times : List Time) (s : R.State)
      → check_all R key max_requests window (now ∷ times) s
        ≡ leb (suc (R.counter now key s)) max_requests
          ∷ check_all R key max_requests window times
              (check_rate_limit R now key max_requests window s).1
  unfolding check_all check_rate_limit
  check_all-cons now times s = rw (law.incr_result now key s) refl

  -- A client whose every request comes less than a window after its last one is allowed, of n
  -- requests, as many as the limit has left at the first and no more, however long they take: the
  -- requests that were refused, and those of earlier windows, count as well.
  pub check_all-paced :
      (now : Time) (times : List Time) (s : R.State)
      → IsPaced window now times
      → granted (check_all R key max_requests window (now ∷ times) s)
        ≡ min (suc (length times)) (max_requests - R.counter now key s)
  unfolding check_all
  check_all-paced now [] s paced =
      ap granted (check_all-cons now [] s)
      ∙ granted-leb max_requests (R.counter now key s) 0 [] (ground arith)
  check_all-paced now (next ∷ times) s (soon, paced) =
      let t = (check_rate_limit R now key max_requests window s).1 in
      let rest =
        check_all-paced next times t paced
        ∙ ap (λ c. min (suc (length times)) (max_requests - c)) (after_one now next s soon) in
      ap granted (check_all-cons now (next ∷ times) s)
      ∙ granted-leb max_requests (R.counter now key s) (suc (length times))
          (check_all R key max_requests window (next ∷ times) t) rest
