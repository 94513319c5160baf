-- ===== src/Agent/Installer/Runs.antt =====
-- What an installation needs.
use guardian_pi.Base.{
  ℕ, ◌/◌, ◌*◌, ◌≤◌, ◌<◌, ◌≡◌, refl, sym, ◌∙◌, ◌⊎◌, inl, inr, ◌↔◌, Bool, true, false, ◌&&◌, ◌||◌,
  Option, none, some, leb, ltb, nat_eq, arith, Bool-cases,
}
use guardian_pi.Agent.Installer.{
  Machine, Installer, enough, check_python, check_disk_space, check_permissions, check_dependencies,
  preflight_checks, install, verify_installation, uninstall,
}

-- What a machine needs: Python 3.10 or later, 500 MB, a writable place, pip and python.
pub record IsReady (m : Machine) : Type 0 where
  pub python_version : (3 < m.major) ⊎ ((m.major ≡ 3) × (10 ≤ m.minor))
  pub space : (free : ℕ) × ((m.free ≡ some free) × (524288000 ≤ free))
  pub writable : m.writable ≡ true
  pub runs : (m.pip ≡ true) × (m.python ≡ true)

check_python_iff :
    (m : Machine) → (check_python m ≡ true) ↔ ((3 < m.major) ⊎ ((m.major ≡ 3) × (10 ≤ m.minor)))
unfolding check_python
check_python_iff m = (λ h. version (ltb 3 m.major) refl h, λ v. newer v)
  where
    version :
        (b : Bool)
        → ltb 3 m.major ≡ b
        → (b || (nat_eq m.major 3 && leb 10 m.minor)) ≡ true
        → (3 < m.major) ⊎ ((m.major ≡ 3) × (10 ≤ m.minor))
    version true newer h = inl (ground (arith, newer))
    version false older h = inr (ground (arith, h), ground (arith, h))

    newer :
        (3 < m.major) ⊎ ((m.major ≡ 3) × (10 ≤ m.minor))
        → (ltb 3 m.major || (nat_eq m.major 3 && leb 10 m.minor)) ≡ true
    newer (inl later) = ground (arith, later)
    newer (inr (same, minor)) = ground (arith, same, minor)

enough_iff :
    (o : Option ℕ) → (enough o ≡ true) ↔ ((free : ℕ) × ((o ≡ some free) × (524288000 ≤ free)))
enough_iff none = (λ h. cc, λ (free, (e, h)). cc)
enough_iff (some free) = (λ h. (free, (refl, big h)), λ (f, (e, h)). fits f e h)
  where
    big : leb 500 (free / (1024 * 1024)) ≡ true → 524288000 ≤ free
    big h = ground (arith, h)

    fits : (f : ℕ) → some free ≡ some f → 524288000 ≤ f → leb 500 (free / (1024 * 1024)) ≡ true
    fits f e h = let same : free ≡ f = cc in ground (arith, h, same)

installed-eq :
    (passed pip_runs : Bool)
    → (install true pip_runs false
        (record { checks_passed = passed; installed = false })).1.installed
      ≡ passed
unfolding install
installed-eq true pip_runs = refl
installed-eq false pip_runs = refl

uninstalled-eq : (i : Installer) → (uninstall true i).1.installed ≡ false
unfolding uninstall
uninstalled-eq i = elim (Bool-cases i.installed) [
  | inl there ↦ rw there refl
  | inr absent ↦ rw absent refl
]

all_four :
    (a b c d : Bool) → (a && b && c && d) ≡ true → (a ≡ true) × (b ≡ true) × (c ≡ true) × (d ≡ true)
all_four true true true true h = (refl, refl, refl, refl)
all_four true true true false h = cc
all_four true true false d h = cc
all_four true false c d h = cc
all_four false b c d h = cc

-- An installation that is not forced, after the checks, where the directory can be made, makes it
-- exactly on a machine that is ready, even if installing the dependencies then fails. After an
-- uninstallation that can remove it, the verification fails.
pub install-preflight_checks :
    (m : Machine) (pip_runs : Bool) (passed : Bool)
    → let i = (preflight_checks m (record { checks_passed = passed; installed = false })).1 in
      ((verify_installation (install true pip_runs false i).1 ≡ true) ↔ IsReady m)
      × (verify_installation (uninstall true (install true pip_runs false i).1).1 ≡ false)
unfolding verify_installation preflight_checks check_disk_space check_permissions check_dependencies
install-preflight_checks m pip_runs passed =
    let ready =
      check_python m && check_disk_space m && check_permissions m && check_dependencies m in
    let made = installed-eq ready pip_runs in
    (
      (
        λ there.
            let (python, disk, permissions, dependencies) =
              all_four (check_python m) (check_disk_space m) (check_permissions m)
                (check_dependencies m) (sym made ∙ there) in
            record {
              python_version = (check_python_iff m).0 python;
              space = (enough_iff m.free).0 disk;
              writable = permissions;
              runs = both m.pip m.python dependencies;
            },
        λ r.
            made
            ∙ rw
                (
                  (check_python_iff m).1 r.python_version,
                  (enough_iff m.free).1 r.space,
                  r.writable,
                  r.runs.0,
                  r.runs.1,
                )
                refl,
      ),
      uninstalled-eq (install true pip_runs false _).1,
    )
  where
    both : (a b : Bool) → (a && b) ≡ true → (a ≡ true) × (b ≡ true)
    both true b h = (refl, h)
    both false b h = cc
