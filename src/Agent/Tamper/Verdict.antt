-- ===== src/Agent/Tamper/Verdict.antt =====
-- What the verdict of the tamper checks means.
use guardian_pi.Base.{
  ℕ, String, ◌≡◌, refl, sym, ap, ◌∙◌, ◌↔◌, Bool, true, false, List, Option, none, some, ◌==◌,
  eq_iff, ne_of_eq_false, if◌then◌else◌,
}
use guardian_pi.Agent.Hashing.{Sha256, IsStream}
use guardian_pi.Agent.Hashing.Chunks.{hash_file-hexdigest}
use guardian_pi.Agent.Tamper.{
  Engine, System, Checks, new_engine, verify_integrity, detect_debugger, status_of, check_all,
  checks_with,
}

status_of_iff : (a b : Bool) → (status_of a b ≡ "secure") ↔ ((a ≡ true) × (b ≡ false))
status_of_iff true false = (λ h. (refl, refl), λ h. refl)
status_of_iff true true = (λ h. absurd (ne_of_eq_false "compromised" "secure" refl h), λ h. cc)
status_of_iff false b = (λ h. absurd (ne_of_eq_false "compromised" "secure" refl h), λ h. cc)

-- The digest of a content.
abbrev pub digest : Sha256 → List ℕ → String
digest H content = H.hexdigest (H.update H.start content)

module _ (H : Sha256) (law : IsStream H) where
  verify_integrity-eq :
      (before now : List ℕ) (e : Engine)
      → (digest H before == "") ≡ false
      → e.binary_hash ≡ some (digest H before)
      → ((verify_integrity H (some now) e).0 ≡ (digest H before == digest H now))
        × ((verify_integrity H (some now) e).1.binary_hash ≡ some (digest H before))
  unfolding verify_integrity
  verify_integrity-eq before now e given held =
      rw (verify_integrity, held, given, hash_file-hexdigest H law now)
        (chosen (digest H before == digest H now) _ _ refl refl)
    where
      chosen :
          (b : Bool) (f g : Engine)
          → f.binary_hash ≡ some (digest H before)
          → g.binary_hash ≡ some (digest H before)
          → ((if◌then◌else◌ {A = Bool × Engine} b (true, f) (false, g)).0 ≡ b)
            × ((if◌then◌else◌ {A = Bool × Engine} b (true, f) (false, g)).1.binary_hash
                ≡ some (digest H before))
      chosen true f g h k = (refl, h)
      chosen false f g h k = (refl, k)

  verdict_iff :
      (before now : List ℕ) (intact first : Bool) (debugged : Option Bool) (e f : Engine)
      (checks : Checks)
      → intact ≡ (digest H before == digest H now)
      → checks_with H debugged first (intact, e) ≡ some (checks, f)
      → (checks.overall_status ≡ "secure")
        ↔ ((digest H before ≡ digest H now) × (debugged ≡ some false))
  verdict_iff before now intact first none e f checks same h = cc
  verdict_iff before now intact first (some debugged) e f checks same h =
      let status : status_of intact debugged ≡ checks.overall_status = cc in
      let verdict = status_of_iff intact debugged in
      let equal = eq_iff (digest H before) (digest H now) in
      (
        λ secure.
            let (good, quiet) = verdict.0 (status ∙ secure) in
            (equal.0 (sym same ∙ good), ap some quiet),
        λ (alike, quiet). sym status ∙ verdict.1 (same ∙ equal.1 alike, cc),
      )

  -- An agent whose file could be read at the start and can be read now: where the checks are made at
  -- all, their verdict is secure exactly if the file has the digest that it had at the start and no
  -- debugger is found.
  pub check_all_iff :
      (s : System) (before now : List ℕ) (checks : Checks) (e : Engine)
      → (digest H before == "") ≡ false
      → check_all H s (some now) (some now) (new_engine H (some before)) ≡ some (checks, e)
      → (checks.overall_status ≡ "secure")
        ↔ ((digest H before ≡ digest H now) × (detect_debugger s ≡ some false))
  unfolding check_all new_engine
  check_all_iff s before now checks e given h =
      let start = new_engine H (some before) in
      let first = verify_integrity-eq before now start given (hash_file-hexdigest H law before) in
      let middle = (verify_integrity H (some now) start).1 in
      let second = verify_integrity-eq before now middle given first.1 in
      verdict_iff before now (verify_integrity H (some now) middle).0
        (verify_integrity H (some now) start).0 (detect_debugger s)
        (verify_integrity H (some now) middle).1 e checks second.0 h
