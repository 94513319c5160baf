-- ===== src/Detection/Scoring.antt =====
-- The anomaly score: its range, its level and its order.
use guardian_pi.Base.{ap, sym, ℕ, ◌≡◌, ◌≤◌, true, min, arith}
use guardian_pi.Detection.{
  Numbers, IsOrdered, Metrics, metric, raw_score, calculate_anomaly_score, risk_level,
}

module _ (N : Numbers) where
  raw_score-le : (m : Metrics N) → raw_score N m ≤ 95
  unfolding raw_score
  raw_score-le m = ground arith

  pub calculate_anomaly_score-eq-raw_score :
      (m : Metrics N) → (calculate_anomaly_score N m).anomaly_score ≡ raw_score N m
  unfolding calculate_anomaly_score
  calculate_anomaly_score-eq-raw_score m = omega (arith, raw_score-le m)

-- The score is at most 95, so that the cap at 100 never acts, and the level is the one of the
-- reported score: critical from 60, high from 40, medium from 20, and low below.
pub calculate_anomaly_score_bounds :
    (N : Numbers) (m : Metrics N)
    → ((calculate_anomaly_score N m).anomaly_score ≤ 95)
      × ((calculate_anomaly_score N m).anomaly_score ≡ raw_score N m)
      × ((calculate_anomaly_score N m).risk
          ≡ risk_level (calculate_anomaly_score N m).anomaly_score)
unfolding calculate_anomaly_score
calculate_anomaly_score_bounds N m =
    let e : min (raw_score N m) 100 ≡ raw_score N m = omega (arith, raw_score-le N m) in
    (omega (arith, raw_score-le N m), e, ap risk_level (sym e))

-- Each metric of `m` is at most that of `n`, as the tests see it.
pub record IsBelow (N : Numbers) (m n : Metrics N) : Type 0 where
  pub cpu :
      (k : ℕ)
      → N.above (metric N m.cpu_percent) k ≡ true
      → N.above (metric N n.cpu_percent) k ≡ true
  pub ram :
      (k : ℕ)
      → N.above (metric N m.ram_percent) k ≡ true
      → N.above (metric N n.ram_percent) k ≡ true
  pub connections :
      (k : ℕ)
      → N.above (metric N m.active_connections) k ≡ true
      → N.above (metric N n.active_connections) k ≡ true
  pub processes :
      (k : ℕ)
      → N.above (metric N m.process_count) k ≡ true
      → N.above (metric N n.process_count) k ≡ true

raw_score_mono :
    (N : Numbers) (m n : Metrics N) → IsOrdered N → IsBelow N m n → raw_score N m ≤ raw_score N n
unfolding raw_score
raw_score_mono N m n o h = ground (
  arith,
  o.above_mono (metric N n.cpu_percent) 80 95,
  o.above_mono (metric N n.active_connections) 200 500,
  h.cpu 95,
  h.cpu 80,
  h.ram 95,
  h.connections 500,
  h.connections 200,
  h.processes 500,
)

-- Where the tests on numbers are ordered, a device whose metrics are all at least those of another
-- has at least its score.
pub calculate_anomaly_score_mono :
    (N : Numbers) (m n : Metrics N)
    → IsOrdered N
    → IsBelow N m n
    → (calculate_anomaly_score N m).anomaly_score ≤ (calculate_anomaly_score N n).anomaly_score
calculate_anomaly_score_mono N m n o h = omega (
  arith,
  calculate_anomaly_score-eq-raw_score N m,
  calculate_anomaly_score-eq-raw_score N n,
  raw_score_mono N m n o h,
)
