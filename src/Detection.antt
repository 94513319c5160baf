-- ===== src/Detection.antt =====
-- backend/app/services/detection_service.py: the detection engine. Regular expressions, lower case
-- and the numbers of the metrics are parameters.
pub mod Rules
pub mod Matching
pub mod Signatures
pub mod Scoring
pub mod Samples
use guardian_pi.Base.{
  ℕ, String, ◌<>◌, ◌+◌, ◌≤◌, ◌≡◌, Bool, true, false, ◌&&◌, List, [], ◌∷◌, ◌++◌, Option, none, some,
  min, ltb, leb, nat_eq, get_or, is_substring, if◌then◌else◌, ◌||◌,
}
use Rules.{DetectionRule, Signature, value}

-- str.lower, and re.search with IGNORECASE (the pattern, then the text).
pub record Texts : Type 0 where
  pub lower : String → String
  pub search : String → String → Bool

-- The numbers of a metric: `x > n`, the number n, f"{x:.1f}" and f"{x}".
pub record Numbers : Type 1 where
  pub Number : Type 0
  pub above : Number → ℕ → Bool
  pub of_ℕ : ℕ → Number
  pub fixed1 : Number → String
  pub str : Number → String

-- What is above a bound is above each smaller one.
pub record IsOrdered (N : Numbers) : Type 0 where
  pub above_mono : (x : N.Number) (m n : ℕ) → m ≤ n → N.above x n ≡ true → N.above x m ≡ true

-- One reported match.
pub record Match : Type 0 where
  pub rule_id : String
  pub rule_name : String
  pub severity : String
  pub category : String
  pub mitre_tactic : String
  pub mitre_technique : String
  pub description : String

abbrev pub report : DetectionRule → Match
report rule = record {
  rule_id = rule.id;
  rule_name = rule.name;
  severity = rule.severity;
  category = value rule.category;
  mitre_tactic = rule.mitre_tactic;
  mitre_technique = rule.mitre_technique;
  description = rule.description;
}

module _ (T : Texts) where
  -- for pattern in rule.process_names: ... break
  unfoldable pub match_name : (pname_lower : String) → List String → Bool
  match_name pname_lower [] = false
  match_name pname_lower (pattern ∷ patterns) =
      let rest = match_name pname_lower patterns in
      if is_substring (T.lower pattern) pname_lower then true else rest

  -- for pattern in rule.cmdline_patterns: ... break
  unfoldable pub match_cmdline : (cmd_lower : String) → List String → Bool
  match_cmdline cmd_lower [] = false
  match_cmdline cmd_lower (pattern ∷ patterns) =
      let rest = match_cmdline cmd_lower patterns in
      if T.search pattern cmd_lower then true else rest

  -- The loop over the rules, with `matches` so far.
  unfoldable pub match_rules :
      (pname_lower cmd_lower : String) → List Match → List DetectionRule → List Match
  unfolding match_name match_cmdline
  match_rules pname_lower cmd_lower matches [] = matches
  match_rules pname_lower cmd_lower matches (rule ∷ rules) =
      let named = match_name pname_lower rule.process_names in
      let matched = if named then true else match_cmdline cmd_lower rule.cmdline_patterns in
      match_rules pname_lower cmd_lower (if matched then matches ++ report rule ∷ [] else matches)
        rules

  unfoldable pub match_process : List DetectionRule → (process_name cmdline : String) → List Match
  unfolding match_rules
  match_process rules process_name cmdline =
      match_rules (T.lower process_name) (T.lower cmdline) [] rules

-- sig["pattern"] in content, for bytes
unfoldable pub starts : List ℕ → List ℕ → Bool
starts [] content = true
starts (p ∷ ps) [] = false
starts (p ∷ ps) (c ∷ cs) = nat_eq p c && starts ps cs

unfoldable pub occurs : List ℕ → List ℕ → Bool
unfolding starts
occurs pattern [] = starts pattern []
occurs pattern (c ∷ cs) = starts pattern (c ∷ cs) || occurs pattern cs

pub record FileMatch : Type 0 where
  pub signature : String
  pub severity : String
  pub file : String

unfoldable pub scan_file_content : List Signature → (content : List ℕ) → String → List FileMatch
unfolding occurs
scan_file_content [] content filename = []
scan_file_content (sig ∷ sigs) content filename =
    let rest = scan_file_content sigs content filename in
    if occurs sig.pattern content
    then record { signature = sig.name; severity = sig.severity; file = filename } ∷ rest
    else rest

module _ (N : Numbers) where
  -- The keys of `metrics` that are read; `none` is a missing key.
  pub record Metrics : Type 0 where
    pub cpu_percent : Option N.Number
    pub ram_percent : Option N.Number
    pub active_connections : Option N.Number
    pub process_count : Option N.Number

  abbrev pub metric : Option N.Number → N.Number
  metric m = get_or m (N.of_ℕ 0)

  -- What one `if`/`elif` adds to the score, with its reason.
  abbrev pub cpu_points : N.Number → ℕ × List String
  cpu_points cpu =
      if N.above cpu 95
      then (30, ("Extreme CPU usage: " <> (N.fixed1 cpu <> "%")) ∷ [])
      else if N.above cpu 80
      then (15, ("High CPU usage: " <> (N.fixed1 cpu <> "%")) ∷ [])
      else (0, [])

  abbrev pub ram_points : N.Number → ℕ × List String
  ram_points ram =
      if N.above ram 95
      then (25, ("Critical RAM usage: " <> (N.fixed1 ram <> "%")) ∷ [])
      else (0, [])

  abbrev pub connection_points : N.Number → ℕ × List String
  connection_points connections =
      if N.above connections 500
      then (30, ("Excessive connections: " <> N.str connections) ∷ [])
      else if N.above connections 200
      then (15, ("High connection count: " <> N.str connections) ∷ [])
      else (0, [])

  abbrev pub process_points : N.Number → ℕ × List String
  process_points processes =
      if N.above processes 500
      then (10, ("High process count: " <> N.str processes) ∷ [])
      else (0, [])

abbrev pub risk_level : ℕ → String
risk_level score =
    if leb 60 score
    then "critical"
    else if leb 40 score
    then "high"
    else if leb 20 score
    then "medium"
    else "low"

pub record Anomaly : Type 0 where
  pub anomaly_score : ℕ
  pub risk : String
  pub reasons : List String

module _ (N : Numbers) where
  -- `score` after the last `if`
  unfoldable pub raw_score : Metrics N → ℕ
  raw_score m =
      (cpu_points N (metric N m.cpu_percent)).0
      + (ram_points N (metric N m.ram_percent)).0
      + (connection_points N (metric N m.active_connections)).0
      + (process_points N (metric N m.process_count)).0

  unfoldable pub calculate_anomaly_score : Metrics N → Anomaly
  unfolding raw_score
  calculate_anomaly_score m =
      let score = raw_score m in
      record {
        anomaly_score = min score 100;
        risk = risk_level score;
        reasons =
            (cpu_points N (metric N m.cpu_percent)).1
            ++ ((ram_points N (metric N m.ram_percent)).1
                ++ ((connection_points N (metric N m.active_connections)).1
                    ++ (process_points N (metric N m.process_count)).1));
      }
