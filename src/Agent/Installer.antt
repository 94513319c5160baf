-- ===== src/Agent/Installer.antt =====
-- agent/installer/secure_installer.py: SecureInstaller. The file system and pip are parameters.
pub mod Runs
use guardian_pi.Base.{
  ℕ, ◌/◌, ◌*◌, String, Bool, true, false, not, ◌&&◌, ◌||◌, Option, none, some, leb, ltb, nat_eq,
  if◌then◌else◌,
}

-- What it finds of the machine: the version of Python, the free bytes, `none` where the query raises,
-- whether a directory can be made beside the installation, and whether pip and python run.
pub record Machine : Type 0 where
  pub major : ℕ
  pub minor : ℕ
  pub free : Option ℕ
  pub writable : Bool
  pub pip : Bool
  pub python : Bool

abbrev pub required_space_mb : ℕ
required_space_mb = 500

-- (v.major, v.minor) >= MINIMUM_PYTHON
unfoldable pub check_python : Machine → Bool
check_python m = ltb 3 m.major || (nat_eq m.major 3 && leb 10 m.minor)

abbrev pub enough : Option ℕ → Bool
enough none = false
enough (some free) = leb required_space_mb (free / (1024 * 1024))

unfoldable pub check_disk_space : Machine → Bool
check_disk_space m = enough m.free

unfoldable pub check_permissions : Machine → Bool
check_permissions m = m.writable

unfoldable pub check_dependencies : Machine → Bool
check_dependencies m = m.pip && m.python

-- The installer, and whether its directory exists.
pub record Installer : Type 0 where
  pub checks_passed : Bool
  pub installed : Bool

pub record Results : Type 0 where
  pub python_version : Bool
  pub disk_space : Bool
  pub permissions : Bool
  pub dependencies : Bool

unfoldable pub preflight_checks : Machine → Installer → Results × Installer
preflight_checks m i =
    let results = checked m in
    (
      results,
      record i {
        checks_passed =
            results.python_version && results.disk_space && results.permissions
            && results.dependencies;
      },
    )
  where
    checked : Machine → Results
    checked m = record {
      python_version = check_python m;
      disk_space = check_disk_space m;
      permissions = check_permissions m;
      dependencies = check_dependencies m;
    }

-- Whether the directory can be made, and whether installing the dependencies then succeeds. The
-- result is `none` where one raises.
unfoldable pub install : (made pip_runs force : Bool) → Installer → Option Bool × Installer
install made pip_runs force i =
    if not i.checks_passed && not force
    then (some false, i)
    else (if made
        then (if pip_runs then some true else none, record i { installed = true })
        else (none, i))

unfoldable pub verify_installation : Installer → Bool
verify_installation i = i.installed

-- shutil.rmtree of the directory, if it exists; where it raises, the directory is still there.
unfoldable pub uninstall : (removes : Bool) → Installer → Option Bool × Installer
uninstall removes i =
    if i.installed && not removes then (none, i) else (some true, record i { installed = false })
