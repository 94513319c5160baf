-- ===== src/Agent/FileIntegrity/Checks.antt =====
-- A second check of unchanged files.
use guardian_pi.Base.{String, ◌≡◌, refl, true, List, [], ◌∷◌, none, All, ◌⊎◌}
use guardian_pi.Agent.FileIntegrity.{
  Hash, Baseline, is_given, Change, check_paths, Monitor, initialize_baseline, reported, check_from,
  check,
}
use guardian_pi.Agent.FileIntegrity.Settled.{
  IsSettled, IsDeletion, check_paths-IsSettled, check_paths-settled, initialize_nil-IsSettled,
}

module _ {File : Type 0} (write : Baseline → File → File) (hash_file : String → Hash) where
  reported-IsDeletion :
      (m : Monitor write) (r : List Change × Baseline)
      → All IsDeletion r.0
      → All IsDeletion (reported write hash_file m r).0
  reported-IsDeletion m ([], baseline) h = tt
  reported-IsDeletion m (c ∷ changes, baseline) h = h

  Settled : Monitor write → Type 0
  Settled m = All (IsSettled hash_file m.baseline) m.paths

  reported-Settled :
      (m : Monitor write) (r : List Change × Baseline)
      → All (IsSettled hash_file r.1) m.paths
      → Settled (reported write hash_file m r).1
  unfolding Settled
  reported-Settled m ([], baseline) h = h
  reported-Settled m (c ∷ changes, baseline) h = h

  check-Settled :
      (digests : (p : String) → (hash_file p ≡ none) ⊎ (is_given (hash_file p) ≡ true))
      (b : Baseline) (m : Monitor write)
      → m.baseline ≡ b
      → Settled (check_from write hash_file b m).1
  unfolding check Settled initialize_baseline
  check-Settled digests [] m e = rw e (initialize_nil-IsSettled hash_file digests m.paths)
  check-Settled digests (b ∷ bs) m e =
      reported-Settled m (check_paths hash_file m.paths m.baseline)
        (check_paths-IsSettled hash_file m.paths m.baseline).0

  check-quiet :
      (b : Baseline) (m : Monitor write)
      → Settled m
      → All IsDeletion (check_from write hash_file b m).0
  unfolding check Settled
  check-quiet [] m h = tt
  check-quiet (b ∷ bs) m h =
      reported-IsDeletion m (check_paths hash_file m.paths m.baseline)
        (check_paths-settled hash_file m.paths m.baseline h).0

-- A second check of unchanged files reports nothing but files that are gone: every other change
-- was taken into the baseline by the first check. A file's hash is never the empty text.
pub check-check :
    {File : Type 0} (write : Baseline → File → File) (hash_file : String → Hash)
    (digests : (p : String) → (hash_file p ≡ none) ⊎ (is_given (hash_file p) ≡ true))
    (m : Monitor write)
    → All IsDeletion (check write hash_file (check write hash_file m).1).0
unfolding check
check-check write hash_file digests m =
    check-quiet write hash_file _ (check write hash_file m).1
      (check-Settled write hash_file digests m.baseline m refl)
