-- ===== src/Agent/Detector/Accepted.antt =====
-- Which detected machines the server takes for compatible.
use guardian_pi.Base.{
  ℤ, pos, String, ◌≡◌, refl, sym, ◌⊎◌, inl, inr, Bool, true, false, List, [], ◌∷◌, some, lookup,
  contains, All, ◌==◌, if◌then◌else◌, Bool-cases, false_ne_true,
}
use mathlib.Core.Path.{subst}
use guardian_pi.Devices.{Requirements, minimum_requirements, check_compatibility}
use guardian_pi.Devices.Compatibility.{check_compatibility_iff}
use guardian_pi.Agent.Detector.{Machine, detect}

lookup-All :
    {V : Type 0} (P : V → Type 0) (d : List (String × V)) (k : String) (v : V)
    → All (λ entry. P entry.1) d
    → lookup k d ≡ some v
    → P v
unfolding lookup
lookup-All P [] k v h e = cc
lookup-All P ((j, w) ∷ d) k v h e = pick (j == k) (lookup-All P d k v h.1) e
  where
    pick :
        (b : Bool) → (lookup k d ≡ some v → P v) → (if b then some w else lookup k d) ≡ some v → P v
    pick true later e = let same : w ≡ v = cc in subst P same h.0
    pick false later e = later e

-- What the server's matrix supports, by the names that platform.machine has on 64-bit Windows and on
-- 64-bit ARM under Linux.
abbrev IsUnsupported : String → Requirements → Type 0
IsUnsupported architecture reqs = contains reqs.architectures architecture ≡ false

minimum_requirements-IsUnsupported :
    (architecture : String)
    → (architecture ≡ "AMD64") ⊎ (architecture ≡ "aarch64")
    → All (λ entry. IsUnsupported architecture entry.1) minimum_requirements
minimum_requirements-IsUnsupported architecture (inl e) =
    subst (λ a. All (λ entry. IsUnsupported a entry.1) minimum_requirements) (sym e)
      (refl, (refl, (refl, (refl, (refl, (refl, tt))))))
minimum_requirements-IsUnsupported architecture (inr e) =
    subst (λ a. All (λ entry. IsUnsupported a entry.1) minimum_requirements) (sym e)
      (refl, (refl, (refl, (refl, (refl, (refl, tt))))))

-- A machine that calls its architecture AMD64, as Windows does, or aarch64, as Linux does, is detected
-- with this name, and the server finds it not compatible, whatever its system, memory and storage.
pub check_compatibility-detect :
    (M : Machine) (str : ℤ → String)
    → (M.machine ≡ "AMD64") ⊎ (M.machine ≡ "aarch64")
    → (check_compatibility str
        (detect M).os_type
        (detect M).os_version
        (detect M).architecture
        (pos (detect M).ram_mb)
        (pos (detect M).storage_gb)).is_compatible
      ≡ false
unfolding detect
check_compatibility-detect M str named = elim (Bool-cases _) [
  | inl compatible ↦
      let (reqs, listed, meets) =
        (check_compatibility_iff str (detect M).os_type (detect M).os_version
            (detect M).architecture (pos (detect M).ram_mb) (pos (detect M).storage_gb)).0
          compatible in
      absurd (
        false_ne_true
          (lookup-All (IsUnsupported M.machine) minimum_requirements (detect M).os_type reqs
            (minimum_requirements-IsUnsupported M.machine named) listed)
          meets.supported)
  | inr incompatible ↦ incompatible
]
