-- ===== src/Agent/Detector.antt =====
-- agent/detectors/device_detector.py: DeviceDetector. What it reads of the machine is a parameter.
pub mod Accepted
use guardian_pi.Base.{
  ℕ, String, Bool, true, false, ◌||◌, List, [], ◌∷◌, Option, none, some, any, contains, starts_with,
  is_substring, get_or, nat_eq, ◌==◌, if◌then◌else◌,
}

abbrev pub vm_mac_prefixes : List String
vm_mac_prefixes =
    "00:05:69" ∷ "00:0c:29" ∷ "00:1c:14" ∷ "00:50:56" ∷ "08:00:27" ∷ "0a:00:27" ∷ "00:15:5d"
    ∷ "52:54:00" ∷ []

abbrev pub root_indicators_android : List String
root_indicators_android =
    "/system/app/Superuser.apk" ∷ "/system/xbin/su" ∷ "/system/bin/su" ∷ "/data/local/xbin/su"
    ∷ "/sbin/su" ∷ []

abbrev pub root_indicators_ios : List String
root_indicators_ios =
    "/Applications/Cydia.app" ∷ "/Library/MobileSubstrate" ∷ "/private/var/stash" ∷ "/usr/sbin/sshd"
    ∷ "/usr/bin/sshd" ∷ []

abbrev pub vm_strings : List String
vm_strings = "virtualbox" ∷ "vmware" ∷ "kvm" ∷ "qemu" ∷ "xen" ∷ "hyper-v" ∷ []

abbrev pub vm_indicators : List String
vm_indicators = "/sys/class/dmi/id/product_name" ∷ "/sys/class/dmi/id/sys_vendor" ∷ []

-- The machine. A text that cannot be read, or a call that raises, is `none`.
pub record Machine : Type 0 where
  pub lower : String → String
  pub system : String
  pub hostname : String
  pub version : String
  pub release : String
  pub machine : String
  pub python_version : String
  pub cpu_model : String
  -- os.geteuid(), if os has it
  pub geteuid : Option ℕ
  pub is_user_an_admin : Option Bool
  pub mac : Option String
  pub exists : String → Bool
  pub read : String → Option String
  pub physical_cores : Option ℕ
  pub logical_cores : Option ℕ
  -- the memory and the storage, rounded to MB and GB
  pub ram_mb : ℕ
  pub storage_gb : ℕ

module _ (M : Machine) where
  -- needle in f.read().lower()
  abbrev pub mentions : (path needle : String) → Bool
  mentions path needle = elim (M.read path) [
    | none ↦ false
    | some text ↦ is_substring needle (M.lower text)
  ]

  unfoldable pub normalize_os : (system : String) → String
  normalize_os system =
      let system_lower = M.lower system in
      if system_lower == "windows"
      then "windows"
      else if system_lower == "linux"
      then (if mentions "/proc/cpuinfo" "raspberry" then "raspberrypi" else "linux")
      else if system_lower == "darwin"
      then "macos"
      else system_lower

  abbrev pub is_root : Option ℕ → Bool
  is_root none = false
  is_root (some euid) = nat_eq euid 0

  unfoldable pub check_rooted : (os_type : String) → Bool
  check_rooted os_type =
      if os_type == "android"
      then any M.exists root_indicators_android
      else if os_type == "ios"
      then any M.exists root_indicators_ios
      else if contains ("linux" ∷ "raspberrypi" ∷ []) os_type
      then is_root M.geteuid
      else if os_type == "windows"
      then get_or M.is_user_an_admin false
      else false

  abbrev pub has_vm_mac : Option String → Bool
  has_vm_mac none = false
  has_vm_mac (some mac) = any (starts_with mac) vm_mac_prefixes

  unfoldable pub check_virtual : Bool
  check_virtual =
      has_vm_mac M.mac
      || (if M.system == "Linux" then mentions "/proc/cpuinfo" "hypervisor" else false)
      || any (λ path. any (mentions path) vm_strings) vm_indicators

  -- psutil.cpu_count(..) or 1
  abbrev pub or_1 : Option ℕ → ℕ
  or_1 none = 1
  or_1 (some n) = if nat_eq n 0 then 1 else n

  pub record Fingerprint : Type 0 where
    pub hostname : String
    pub os_type : String
    pub os_version : String
    pub os_release : String
    pub architecture : String
    pub cpu_model : String
    pub cpu_cores : ℕ
    pub cpu_threads : ℕ
    pub ram_mb : ℕ
    pub storage_gb : ℕ
    pub is_rooted : Bool
    pub is_virtual : Bool
    pub python_version : String
    pub agent_version : String

  unfoldable pub detect : Fingerprint
  detect =
      let os_type = normalize_os M.system in
      record {
        hostname = M.hostname;
        os_type = os_type;
        os_version = M.version;
        os_release = M.release;
        architecture = M.machine;
        cpu_model = M.cpu_model;
        cpu_cores = or_1 M.physical_cores;
        cpu_threads = or_1 M.logical_cores;
        ram_mb = M.ram_mb;
        storage_gb = M.storage_gb;
        is_rooted = check_rooted os_type;
        is_virtual = check_virtual;
        python_version = M.python_version;
        agent_version = "1.0.0";
      }
