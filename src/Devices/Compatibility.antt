-- ===== src/Devices/Compatibility.antt =====
-- When a device is compatible, and why a device that is not is not.
use guardian_pi.Base.{
  sym, ◌∙◌, ℤ, below, String, ◌≡◌, refl, ◌↔◌, Bool, true, false, not, ◌&&◌, List, [], ◌∷◌, Option,
  none, some, lookup, contains, arith, nat_eq, length,
}
use mathlib.Core.Path.{subst}
use mathlib.Core.Option.{some-injective}
use guardian_pi.Devices.{
  Requirements, minimum_requirements, check_compatibility, check_against, append_if,
}

-- The device meets the row of the matrix.
pub record Meets (reqs : Requirements) (architecture : String) (ram_mb storage_gb : ℤ)
    : Type 0 where
  pub supported : contains reqs.architectures architecture ≡ true
  pub ram : below ram_mb reqs.min_ram_mb ≡ false
  pub storage : below storage_gb reqs.min_storage_gb ≡ false

three : Bool → Bool → Bool → String → String → String → Bool
three a b c s t u = nat_eq (length (append_if c u (append_if b t (append_if a s [])))) 0

three_lem : (a b c : Bool) (s t u : String) → three a b c s t u ≡ (not a && not b && not c)
unfolding three
three_lem a b c s t u = ground arith

-- The test on the number of issues is the test that each check passed.
Meets-iff :
    (reqs : Requirements) (architecture : String) (ram_mb storage_gb : ℤ) (s t u : String)
    → (three
          (not (contains reqs.architectures architecture))
          (below ram_mb reqs.min_ram_mb)
          (below storage_gb reqs.min_storage_gb)
          s
          t
          u
        ≡ true)
      ↔ Meets reqs architecture ram_mb storage_gb
Meets-iff reqs architecture ram_mb storage_gb s t u = (
  λ h.
      let e =
        sym (
          three_lem (not (contains reqs.architectures architecture)) (below ram_mb reqs.min_ram_mb)
            (below storage_gb reqs.min_storage_gb) s t u)
        ∙ h in
      record { supported = ground arith; ram = ground arith; storage = ground arith },
  λ m.
      three_lem (not (contains reqs.architectures architecture)) (below ram_mb reqs.min_ram_mb)
        (below storage_gb reqs.min_storage_gb) s t u
      ∙ ground (arith, m.supported, m.ram, m.storage),
)

empty_iff : (xs : List String) → (nat_eq (length xs) 0 ≡ true) ↔ (xs ≡ [])
empty_iff [] = (λ h. refl, λ h. refl)
empty_iff (x ∷ xs) = (λ h. absurd (ground arith), λ h. absurd (cc))

module _ (str : ℤ → String) (os_type architecture : String) (ram_mb storage_gb : ℤ) where
  check_against_iff :
      (o : Option Requirements)
      → ((check_against str o os_type architecture ram_mb storage_gb).is_compatible ≡ true)
        ↔ ((reqs : Requirements) × (o ≡ some reqs) × Meets reqs architecture ram_mb storage_gb)
  unfolding three
  check_against_iff none = (λ h. absurd (cc), λ (reqs, e, m). absurd (cc))
  check_against_iff (some reqs) = (
    λ h. (reqs, refl, (Meets-iff reqs architecture ram_mb storage_gb _ _ _).0 h),
    λ (r, e, m).
        (Meets-iff reqs architecture ram_mb storage_gb _ _ _).1
          (subst (λ q. Meets q architecture ram_mb storage_gb) (sym (some-injective reqs r e)) m),
  )

  check_against-issues :
      (o : Option Requirements)
      → ((check_against str o os_type architecture ram_mb storage_gb).is_compatible ≡ true)
        ↔ ((check_against str o os_type architecture ram_mb storage_gb).issues ≡ [])
  check_against-issues none = (λ h. absurd (cc), λ h. absurd (cc))
  check_against-issues (some reqs) = empty_iff _

-- A device is compatible exactly if its OS has a row in the matrix, its architecture is in the row,
-- and neither its RAM nor its storage is below the row's minimum.
pub check_compatibility_iff :
    (str : ℤ → String) (os_type os_version architecture : String) (ram_mb storage_gb : ℤ)
    → ((check_compatibility str os_type os_version architecture ram_mb storage_gb).is_compatible
        ≡ true)
      ↔ ((reqs : Requirements) × (lookup os_type minimum_requirements ≡ some reqs)
          × Meets reqs architecture ram_mb storage_gb)
unfolding check_compatibility
check_compatibility_iff str os_type os_version architecture ram_mb storage_gb =
    check_against_iff str os_type architecture ram_mb storage_gb _

-- A device is compatible exactly if no issue is reported.
pub is_compatible_iff_no_issues :
    (str : ℤ → String) (os_type os_version architecture : String) (ram_mb storage_gb : ℤ)
    → ((check_compatibility str os_type os_version architecture ram_mb storage_gb).is_compatible
        ≡ true)
      ↔ ((check_compatibility str os_type os_version architecture ram_mb storage_gb).issues ≡ [])
unfolding check_compatibility
is_compatible_iff_no_issues str os_type os_version architecture ram_mb storage_gb =
    check_against-issues str os_type architecture ram_mb storage_gb _
