-- ===== src/Detection/Matching.antt =====
-- Which rules and signatures are reported.
use guardian_pi.Base.{
  String, ◌≡◌, refl, ◌≢◌, Bool, true, false, ◌||◌, List, [], ◌∷◌, ◌++◌, map, arith, if◌then◌else◌,
  filter, any, All, is_substring, ◌==◌, eq_iff, ap, sym, ◌∙◌, ◌⊎◌, inl, inr,
}
use mathlib.Core.List.{append_assoc, append-nil}
use guardian_pi.Detection.{
  Texts, Match, report, match_name, match_cmdline, match_rules, match_process,
}
use guardian_pi.Detection.Rules.{DetectionRule, sigma_rules}

-- What makes a rule fire, said without the loops: some process name of the rule, in lower case,
-- occurs in the lower-case name, or some pattern is found in the lower-case command line.
abbrev pub fires : Texts → (process_name cmdline : String) → DetectionRule → Bool
fires T process_name cmdline rule =
    any (λ pattern. is_substring (T.lower pattern) (T.lower process_name)) rule.process_names
    || any (λ pattern. T.search pattern (T.lower cmdline)) rule.cmdline_patterns

module _ (T : Texts) where
  match_name-eq-any :
      (pname : String) (patterns : List String)
      → match_name T pname patterns ≡ any (λ p. is_substring (T.lower p) pname) patterns
  unfolding match_name
  match_name-eq-any pname [] = refl
  match_name-eq-any pname (p ∷ ps) = ground (arith, match_name-eq-any pname ps)

  match_cmdline-eq-any :
      (cmd : String) (patterns : List String)
      → match_cmdline T cmd patterns ≡ any (λ p. T.search p cmd) patterns
  unfolding match_cmdline
  match_cmdline-eq-any cmd [] = refl
  match_cmdline-eq-any cmd (p ∷ ps) = ground (arith, match_cmdline-eq-any cmd ps)

  extend :
      (b : Bool) (matches : List Match) (rule : DetectionRule) (rules : List DetectionRule)
      → (if b then matches ++ report rule ∷ [] else matches) ++ map report rules
        ≡ matches ++ map report (if b then rule ∷ rules else rules)
  extend true matches rule rules = append_assoc matches (report rule ∷ []) (map report rules)
  extend false matches rule rules = refl

  match_rules-append :
      (name cmdline : String) (matches : List Match) (rules : List DetectionRule)
      → match_rules T (T.lower name) (T.lower cmdline) matches rules
        ≡ matches ++ map report (filter (fires T name cmdline) rules)
  unfolding match_rules
  match_rules-append name cmdline matches [] = sym (append-nil matches)
  match_rules-append name cmdline matches (rule ∷ rules) =
      let named = match_name T (T.lower name) rule.process_names in
      let matched =
        if named then true else match_cmdline T (T.lower cmdline) rule.cmdline_patterns in
      let same : matched ≡ fires T name cmdline rule = ground (
        arith,
        match_name-eq-any (T.lower name) rule.process_names,
        match_cmdline-eq-any (T.lower cmdline) rule.cmdline_patterns,
      ) in
      match_rules-append name cmdline (if matched then matches ++ report rule ∷ [] else matches)
        rules
      ∙ extend matched matches rule (filter (fires T name cmdline) rules)
      ∙ ap
          (λ b.
            matches
            ++ map report (
                if b
                then rule ∷ filter (fires T name cmdline) rules
                else filter (fires T name cmdline) rules))
          same

-- A process is reported for exactly the rules that fire on it, in the order of the rules and each
-- once; file patterns and network indicators play no part.
pub match_process-eq-filter :
    (T : Texts) (rules : List DetectionRule) (name cmdline : String)
    → match_process T rules name cmdline ≡ map report (filter (fires T name cmdline) rules)
unfolding match_process
match_process-eq-filter T rules name cmdline = match_rules-append T name cmdline [] rules

-- A property of what is reported, from the rules that can fire.
pub match_process-All :
    (T : Texts) (P : Match → Type 0) (name cmdline : String) (rules : List DetectionRule)
    → All (λ r. (fires T name cmdline r ≡ false) ⊎ P (report r)) rules
    → All P (match_process T rules name cmdline)
match_process-All T P name cmdline rules h =
    rw (match_process-eq-filter T rules name cmdline) (kept rules h)
  where
    choose :
        (rule : DetectionRule) (rest : List DetectionRule) (b : Bool)
        → (b ≡ false) ⊎ P (report rule)
        → All P (map report rest)
        → All P (map report (if b then rule ∷ rest else rest))
    choose rule rest true (inl no_fire) t = absurd (cc)
    choose rule rest true (inr p) t = (p, t)
    choose rule rest false c t = t

    kept :
        (rules : List DetectionRule)
        → All (λ r. (fires T name cmdline r ≡ false) ⊎ P (report r)) rules
        → All P (map report (filter (fires T name cmdline) rules))
    kept [] all_fire = tt
    kept (r ∷ rs) (c, cs) =
        choose r (filter (fires T name cmdline) rs) (fires T name cmdline r) c (kept rs cs)

pub differs : (s t : String) → (s == t) ≡ false → s ≢ t
differs s t h = ground (arith, eq_iff s t)

-- The rule on outbound traffic, SIGMA-006, is never reported, whatever the process and its command
-- line: it has network indicators only, and these are never consulted.
pub match_process-ne-sigma_006 :
    (T : Texts) (name cmdline : String)
    → All (λ m. m.rule_id ≢ "SIGMA-006") (match_process T sigma_rules name cmdline)
match_process-ne-sigma_006 T name cmdline =
    match_process-All T (λ m. m.rule_id ≢ "SIGMA-006") name cmdline sigma_rules
      (
        inr (differs _ _ refl),
        (
          inr (differs _ _ refl),
          (
            inr (differs _ _ refl),
            (
              inr (differs _ _ refl),
              (
                inr (differs _ _ refl),
                (inl refl, (inr (differs _ _ refl), (inr (differs _ _ refl), tt))),
              ),
            ),
          ),
        ),
      )
