-- ===== src/Detection/Samples.antt =====
-- Small inputs for tests and instances: ASCII lower case, plain substrings for patterns, and
-- numbers that are natural.
use guardian_pi.Base.{ℕ, String, ◌≡◌, refl, List, [], ◌∷◌, none, some, ltb, is_substring, arith}
use guardian_pi.Detection.{
  Texts, Numbers, IsOrdered, Metrics, match_process, calculate_anomaly_score, Match,
}
use guardian_pi.Detection.Rules.{sigma_rules}

abbrev pub plain : Texts
plain = record { lower = λ s. s; search = is_substring }

abbrev pub naturals : Numbers
naturals = record {
  Number = ℕ;
  above = λ x n. ltb n x;
  of_ℕ = λ n. n;
  fixed1 = λ x. "n";
  str = λ x. "n";
}

pub naturals-IsOrdered : IsOrdered naturals
naturals-IsOrdered = record { above_mono = λ x m n h p. ground arith }

abbrev pub busy : Metrics naturals
busy = record {
  cpu_percent = some 97;
  ram_percent = some 60;
  active_connections = some 300;
  process_count = none;
}

calculate_anomaly_score-busy : (calculate_anomaly_score naturals busy).anomaly_score ≡ 45
unfolding calculate_anomaly_score
calculate_anomaly_score-busy = refl

first_id : List Match → String
first_id [] = ""
first_id (m ∷ ms) = m.rule_id

match_process-kiwi : first_id (match_process plain sigma_rules "kiwi" "kiwi") ≡ "SIGMA-001"
unfolding match_process first_id
match_process-kiwi = refl
