-- ===== src/Agent/FileIntegrity/Settled.antt =====
-- Paths whose change was taken into the baseline, and what a look at them reports.
use guardian_pi.Base.{
  String, ◌≡◌, refl, sym, ◌∙◌, Bool, true, false, not, ◌&&◌, List, [], ◌∷◌, none, some, lookup,
  insert, lookup-insert, ◌==◌, eq_iff, eq_refl, if◌then◌else◌, All, All-append, arith, ◌⊎◌, inl,
  inr, Bool-cases, if_ind,
}
use mathlib.Core.Path.{subst}
use guardian_pi.Agent.FileIntegrity.{
  Hash, Baseline, is_given, is_none, differ, baseline_hash, Change, change, compare_path,
  check_paths, initialize_paths,
}

-- A path whose hash is the one of the baseline, or whose file is gone while the baseline has a hash.
abbrev pub IsSettled : (hash_file : String → Hash) → Baseline → String → Type 0
IsSettled hash_file baseline path =
    ((hash_file path ≡ none) × (is_given (baseline_hash baseline path) ≡ true))
    ⊎ (baseline_hash baseline path ≡ hash_file path)

baseline_hash-insert :
    (baseline : Baseline) (path p : String) (h : Hash)
    → baseline_hash (insert path h baseline) p ≡ (if path == p then h else baseline_hash baseline p)
unfolding baseline_hash
baseline_hash-insert baseline path p h = ground (arith, lookup-insert path p h baseline)

differ-eq : (h k : Hash) → differ h k ≡ false → k ≡ h
differ-eq none none d = refl
differ-eq none (some k) d = cc
differ-eq (some h) none d = cc
differ-eq (some h) (some k) d = ground (arith, eq_iff h k)

is_none-eq : (h : Hash) (b : Bool) → (is_none h && b) ≡ true → (h ≡ none) × (b ≡ true)
is_none-eq none b t = (refl, t)
is_none-eq (some h) b t = cc

given-ne-none : (h : Hash) → is_given h ≡ true → h ≡ none → ⊥
given-ne-none none t e = cc
given-ne-none (some h) t e = cc

if-never : {A : Type 0} (b : Bool) (x y : A) → (if b && not b then x else y) ≡ y
if-never true x y = refl
if-never false x y = refl

abbrev pub IsDeletion : Change → Type 0
IsDeletion c = c.change_type ≡ "deleted"

module _ (hash_file : String → Hash) where
  insert_self :
      (baseline : Baseline) (path : String)
      → baseline_hash (insert path (hash_file path) baseline) path ≡ hash_file path
  insert_self baseline path =
      baseline_hash-insert baseline path path (hash_file path) ∙ (rw (eq_refl path) refl)

  -- Storing the hash of a file keeps what is settled.
  insert-IsSettled :
      (baseline : Baseline) (path p : String)
      → IsSettled hash_file baseline p
      → IsSettled hash_file (insert path (hash_file path) baseline) p
  insert-IsSettled baseline path p h = elim (Bool-cases (path == p)) [
    | inl here ↦
        inr (ground (arith, eq_iff path p, baseline_hash-insert baseline path p (hash_file path)))
    | inr away ↦
        let kept : baseline_hash (insert path (hash_file path) baseline) p
            ≡ baseline_hash baseline p =
          ground (arith, baseline_hash-insert baseline path p (hash_file path)) in
        subst
          (λ previous.
            ((hash_file p ≡ none) × (is_given previous ≡ true)) ⊎ (previous ≡ hash_file p))
          (sym kept) h
  ]

  pub Keeps : Baseline → Baseline → Type 0
  Keeps old new = (p : String) → IsSettled hash_file old p → IsSettled hash_file new p

  -- One path: it is settled afterwards, and so is what was settled before.
  compare_path-IsSettled :
      (path : String) (baseline : Baseline)
      → let next = (compare_path path (hash_file path) (baseline_hash baseline path) baseline).1 in
        IsSettled hash_file next path × Keeps baseline next
  unfolding Keeps
  compare_path-IsSettled path baseline =
      let current = hash_file path in
      let previous = baseline_hash baseline path in
      let stored : IsSettled hash_file (insert path current baseline) path
          × Keeps baseline (insert path current baseline) =
        (inr (insert_self baseline path), λ p h. insert-IsSettled baseline path p h) in
      let P = λ (r : List Change × Baseline). IsSettled hash_file r.1 path × Keeps baseline r.1 in
      if_ind P (is_none current && is_given previous)
        (λ gone. (inl (is_none-eq current (is_given previous) gone), λ p h. h))
        λ _.
          if_ind P (is_given current && not (is_given previous)) (λ _. stored)
            λ _.
              if_ind P (differ current previous) (λ _. stored)
                (λ same. (inr (differ-eq current previous same), λ p h. h))

  -- A settled path: only its deletion can be reported, and the baseline stays.
  compare_path-settled :
      (path : String) (current previous : Hash) (baseline : Baseline)
      → ((current ≡ none) × (is_given previous ≡ true)) ⊎ (previous ≡ current)
      → All IsDeletion (compare_path path current previous baseline).0
        × ((compare_path path current previous baseline).1 ≡ baseline)
  compare_path-settled path current previous baseline (inl (gone, given)) =
      rw (gone, given) ((refl, tt), refl)
  compare_path-settled path none previous baseline (inr same) = rw same (tt, refl)
  compare_path-settled path (some h) previous baseline (inr same) =
      rw (same, eq_refl h)
        (subst (λ (r : List Change × Baseline). All IsDeletion r.0 × (r.1 ≡ baseline))
          (sym (
            if-never (not (h == ""))
              (change path "new" none none ∷ [], insert path (some h) baseline) ([], baseline)))
          (tt, refl))

  All-Keeps :
      (old new : Baseline) (paths : List String)
      → Keeps old new
      → All (IsSettled hash_file old) paths
      → All (IsSettled hash_file new) paths
  unfolding Keeps
  All-Keeps old new [] k h = tt
  All-Keeps old new (p ∷ paths) k h = (k p h.0, All-Keeps old new paths k h.1)

  pub check_paths-IsSettled :
      (paths : List String) (baseline : Baseline)
      → All (IsSettled hash_file (check_paths hash_file paths baseline).1) paths
        × Keeps baseline (check_paths hash_file paths baseline).1
  unfolding check_paths Keeps
  check_paths-IsSettled [] baseline = (tt, λ p h. h)
  check_paths-IsSettled (path ∷ paths) baseline =
      let next = (compare_path path (hash_file path) (baseline_hash baseline path) baseline).1 in
      let (here, keeps) = compare_path-IsSettled path baseline in
      let (later, keeps_later) = check_paths-IsSettled paths next in
      ((keeps_later path here, later), λ p h. keeps_later p (keeps p h))

  pub check_paths-settled :
      (paths : List String) (baseline : Baseline)
      → All (IsSettled hash_file baseline) paths
      → All IsDeletion (check_paths hash_file paths baseline).0
        × ((check_paths hash_file paths baseline).1 ≡ baseline)
  unfolding check_paths
  check_paths-settled [] baseline h = (tt, refl)
  check_paths-settled (path ∷ paths) baseline h =
      let first = compare_path path (hash_file path) (baseline_hash baseline path) baseline in
      let (here, same) =
        compare_path-settled path (hash_file path) (baseline_hash baseline path) baseline h.0 in
      let (later, rest_same) =
        check_paths-settled paths first.1
          (subst (λ b. All (IsSettled hash_file b) paths) (sym same) h.1) in
      (
        All-append IsDeletion first.0 (check_paths hash_file paths first.1).0 here later,
        rest_same ∙ same,
      )

  -- The first baseline: a path without a hash has no entry, and every path is settled.
  IsFresh : Baseline → Type 0
  IsFresh baseline = (p : String) → is_given (hash_file p) ≡ false → baseline_hash baseline p ≡ none

  IsFresh-insert :
      (path : String) (baseline : Baseline)
      → is_given (hash_file path) ≡ true
      → IsFresh baseline
      → IsFresh (insert path (hash_file path) baseline)
  unfolding IsFresh
  IsFresh-insert path baseline given fresh p missing = ground (
    arith,
    given,
    missing,
    fresh p missing,
    eq_iff path p,
    baseline_hash-insert baseline path p (hash_file path),
  )

  missing-eq : (h : Hash) → (h ≡ none) ⊎ (is_given h ≡ true) → is_given h ≡ false → none ≡ h
  missing-eq h (inl gone) e = sym gone
  missing-eq h (inr given) e = cc

  module _ (digests : (p : String) → (hash_file p ≡ none) ⊎ (is_given (hash_file p) ≡ true)) where
    initialize_path-IsSettled :
        (path : String) (baseline : Baseline)
        → IsFresh baseline
        → let next =
            (if is_given (hash_file path)
              then insert path (hash_file path) baseline
              else baseline) in
          IsSettled hash_file next path × (Keeps baseline next × IsFresh next)
    unfolding Keeps IsFresh
    initialize_path-IsSettled path baseline fresh =
        if_ind (λ next. IsSettled hash_file next path × (Keeps baseline next × IsFresh next))
          (is_given (hash_file path))
          (λ given. (
            inr (insert_self baseline path),
            (λ p h. insert-IsSettled baseline path p h, IsFresh-insert path baseline given fresh),
          ))
          (λ missing. (
            inr (fresh path missing ∙ missing-eq (hash_file path) (digests path) missing),
            (λ p h. h, fresh),
          ))

    initialize_paths-IsSettled :
        (paths : List String) (baseline : Baseline)
        → IsFresh baseline
        → All (IsSettled hash_file (initialize_paths hash_file paths baseline)) paths
          × Keeps baseline (initialize_paths hash_file paths baseline)
    unfolding initialize_paths Keeps
    initialize_paths-IsSettled [] baseline fresh = (tt, λ p h. h)
    initialize_paths-IsSettled (path ∷ paths) baseline fresh =
        let next =
          (if is_given (hash_file path) then insert path (hash_file path) baseline else baseline) in
        let (here, (keeps, fresh_next)) = initialize_path-IsSettled path baseline fresh in
        let (later, keeps_later) = initialize_paths-IsSettled paths next fresh_next in
        ((keeps_later path here, later), λ p h. keeps_later p (keeps p h))

    IsFresh-nil : IsFresh []
    unfolding IsFresh baseline_hash lookup
    IsFresh-nil p missing = refl

    pub initialize_nil-IsSettled :
        (paths : List String)
        → All (IsSettled hash_file (initialize_paths hash_file paths [])) paths
    initialize_nil-IsSettled paths = (initialize_paths-IsSettled paths [] IsFresh-nil).0
