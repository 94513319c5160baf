-- ===== src/Agent/Monitors/Processes/Baseline.antt =====
-- What a second scan tells.
use guardian_pi.Base.{
  ℕ, String, ◌≡◌, refl, sym, ap, ◌∙◌, Bool, true, false, ◌||◌, List, [], ◌∷◌, ◌++◌, Option, none,
  some, nat_eq, All, All-append, any-append, get_or, is_substring, Bool-cases, if_ind, inl, inr,
  arith,
}
use mathlib.Core.Path.{subst}
use guardian_pi.Agent.Monitors.Processes.{
  Values, Info, Alert, suspicious, high_cpu, many_connections, by_name, by_load, knows,
  suspicious_processes, scan_one, scan,
}

nat_eq-eq : (a b : ℕ) → nat_eq a b ≡ true → a ≡ b
nat_eq-eq a b h = ground (arith, h)

nat_eq_self : (a : ℕ) → nat_eq a a ≡ true
nat_eq_self a = ground arith

apart : {b : Bool} → b ≡ true → b ≡ false → ⊥
apart h k = cc

or-eq-true : (a b : Bool) → b ≡ true → (a || b) ≡ true
or-eq-true a b h = ground (arith, h)

module _ {V : Values} where
  -- An alert that is not about a new process.
  abbrev pub IsRepeated : Alert V → Type 0
  IsRepeated (suspicious title pid process_name username description) = Unit
  IsRepeated (high_cpu title pid process_name cpu) = Unit
  IsRepeated (many_connections title pid connection_count) = ⊥

  -- Each process that can be read is in the baseline.
  abbrev pub Known : List ℕ → List (Option (Info V)) → Type 0
  Known baseline [] = Unit
  Known baseline (none ∷ procs) = Known baseline procs
  Known baseline (some info ∷ procs) = (knows baseline info.pid ≡ true) × Known baseline procs

  by_name-IsRepeated :
      (info : Info V) (name : String) (entries : List (String × String))
      → All (IsRepeated) (by_name info name entries)
  by_name-IsRepeated info name [] = tt
  by_name-IsRepeated info name ((bad_name, description) ∷ others) =
      elim (Bool-cases (is_substring bad_name name)) [
        | inl bad ↦ rw bad (tt, by_name-IsRepeated info name others)
        | inr good ↦ rw good (by_name-IsRepeated info name others)
      ]

  by_load-IsRepeated : (info : Info V) (load : Option V.Load) → All IsRepeated (by_load info load)
  by_load-IsRepeated info none = tt
  by_load-IsRepeated info (some cpu) = elim (Bool-cases (V.above_90 cpu)) [
    | inl high ↦ rw high (tt, tt)
    | inr low ↦ rw low tt
  ]

  scan_one-old :
      (info : Info V) (baseline : List ℕ)
      → knows baseline info.pid ≡ true
      → All IsRepeated (scan_one info baseline).0 × ((scan_one info baseline).1 ≡ baseline)
  unfolding scan_one
  scan_one-old info baseline old =
      let name = V.lower (get_or info.name "") in
      let named =
        All-append IsRepeated (by_name info name suspicious_processes)
          (by_load info info.cpu_percent) (by_name-IsRepeated info name suspicious_processes)
          (by_load-IsRepeated info info.cpu_percent) in
      if_ind (λ (r : List (Alert V) × List ℕ). All IsRepeated r.0 × (r.1 ≡ baseline))
        (knows baseline info.pid) (λ known. (named, refl)) (λ new. absurd (apart old new))

  scan_one-new :
      (info : Info V) (baseline : List ℕ)
      → knows baseline info.pid ≡ false
      → (scan_one info baseline).1 ≡ baseline ++ info.pid ∷ []
  unfolding scan_one
  scan_one-new info baseline new =
      if_ind (λ (r : List (Alert V) × List ℕ). r.1 ≡ baseline ++ info.pid ∷ [])
        (knows baseline info.pid) (λ known. absurd (apart known new)) (λ new. refl)

  -- A scan of processes that are all known.
  scan-IsRepeated :
      (procs : List (Option (Info V))) (baseline : List ℕ)
      → Known baseline procs
      → All IsRepeated (scan procs baseline).0 × ((scan procs baseline).1 ≡ baseline)
  unfolding scan scan_one
  scan-IsRepeated [] baseline known = (tt, refl)
  scan-IsRepeated (none ∷ procs) baseline known = scan-IsRepeated procs baseline known
  scan-IsRepeated (some info ∷ procs) baseline (old, known) =
      let (told, same) = scan_one-old info baseline old in
      let rest = scan-IsRepeated procs baseline known in
      let later : All IsRepeated (scan procs (scan_one info baseline).1).0
          × ((scan procs (scan_one info baseline).1).1 ≡ baseline) =
        rw same rest in
      (All-append IsRepeated _ _ told later.0, later.1)

  -- A scan forgets no pid and learns those of its processes.
  knows-scan_one :
      (info : Info V) (baseline : List ℕ) (pid : ℕ)
      → knows (scan_one info baseline).1 pid ≡ (knows baseline pid || nat_eq pid info.pid)
  knows-scan_one info baseline pid = elim (Bool-cases (knows baseline info.pid)) [
    | inl old ↦ ap (λ b. knows b pid) (scan_one-old info baseline old).1 ∙ already old
    | inr new ↦
        ap (λ b. knows b pid) (scan_one-new info baseline new)
        ∙ any-append (nat_eq pid) baseline (info.pid ∷ [])
        ∙ ap (λ b. knows baseline pid || b) (or_false (nat_eq pid info.pid))
  ]
    where
      or_false : (b : Bool) → (b || false) ≡ b
      or_false true = refl
      or_false false = refl

      already :
          knows baseline info.pid ≡ true
          → knows baseline pid ≡ (knows baseline pid || nat_eq pid info.pid)
      already old = elim (Bool-cases (nat_eq pid info.pid)) [
        | inl same ↦
            let here : knows baseline pid ≡ true =
              subst (λ k. knows baseline k ≡ true) (sym (nat_eq-eq pid info.pid same)) old in
            rw (here) refl
        | inr other ↦ rw other (or_false' (knows baseline pid))
      ]
        where
          or_false' : (b : Bool) → b ≡ (b || false)
          or_false' true = refl
          or_false' false = refl

  knows-scan :
      (procs : List (Option (Info V))) (baseline : List ℕ) (pid : ℕ)
      → knows baseline pid ≡ true
      → knows (scan procs baseline).1 pid ≡ true
  unfolding scan
  knows-scan [] baseline pid h = h
  knows-scan (none ∷ procs) baseline pid h = knows-scan procs baseline pid h
  knows-scan (some info ∷ procs) baseline pid h =
      knows-scan procs (scan_one info baseline).1 pid (knows-scan_one info baseline pid ∙ rw h refl)

  Known-scan :
      (procs later : List (Option (Info V))) (baseline : List ℕ)
      → Known baseline procs
      → Known (scan later baseline).1 procs
  Known-scan [] later baseline known = tt
  Known-scan (none ∷ procs) later baseline known = Known-scan procs later baseline known
  Known-scan (some info ∷ procs) later baseline (old, known) =
      (knows-scan later baseline info.pid old, Known-scan procs later baseline known)

  scan-Known :
      (procs : List (Option (Info V))) (baseline : List ℕ) → Known (scan procs baseline).1 procs
  unfolding scan
  scan-Known [] baseline = tt
  scan-Known (none ∷ procs) baseline = scan-Known procs baseline
  scan-Known (some info ∷ procs) baseline =
      let known = (scan_one info baseline).1 in
      let learnt : knows known info.pid ≡ true =
        knows-scan_one info baseline info.pid
        ∙ or-eq-true (knows baseline info.pid) (nat_eq info.pid info.pid) (nat_eq_self info.pid) in
      (knows-scan procs known info.pid learnt, scan-Known procs known)

  -- A process is told of for its many connections at most once: where the same processes are scanned
  -- again, every alert is for a suspicious name or a high load, and the baseline stays as it is.
  pub scan-scan :
      (procs : List (Option (Info V))) (baseline : List ℕ)
      → All IsRepeated (scan procs (scan procs baseline).1).0
        × ((scan procs (scan procs baseline).1).1 ≡ (scan procs baseline).1)
  scan-scan procs baseline =
      scan-IsRepeated procs (scan procs baseline).1 (scan-Known procs baseline)
