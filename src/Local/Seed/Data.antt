-- ===== src/Local/Seed/Data.antt =====
-- run_local.py: the demonstration data of seed_data.
use guardian_pi.Base.{ℕ, String, List, [], ◌∷◌, Option, none, some}

-- The tuples, by the names that the loops give their parts.
pub record SeedDevice : Type 0 where
  pub hostname : String
  pub os_type : String
  pub os_version : String
  pub architecture : String
  pub cpu_model : String
  pub cpu_cores : ℕ
  pub ram_mb : ℕ
  pub storage_gb : ℕ
  pub status : String

pub record SeedAlert : Type 0 where
  pub severity : String
  pub category : String
  pub title : String
  pub hostname : String
  pub description : String
  pub tactic : Option String
  pub technique : Option String

pub record SeedPolicy : Type 0 where
  pub name : String
  pub category : String
  pub rules : String
  pub severity : String

abbrev pub devices_data : List SeedDevice
devices_data =
    record {
      hostname = "WS-001";
      os_type = "windows";
      os_version = "Windows 11 Pro";
      architecture = "x86_64";
      cpu_model = "Intel i7-13700K";
      cpu_cores = 16;
      ram_mb = 32768;
      storage_gb = 512;
      status = "online";
    }
    ∷ record {
      hostname = "SRV-002";
      os_type = "linux";
      os_version = "Ubuntu 24.04 LTS";
      architecture = "x86_64";
      cpu_model = "AMD EPYC 7543";
      cpu_cores = 32;
      ram_mb = 65536;
      storage_gb = 2048;
      status = "online";
    }
    ∷ record {
      hostname = "PI-003";
      os_type = "raspberrypi";
      os_version = "Raspberry Pi OS";
      architecture = "arm64";
      cpu_model = "BCM2711";
      cpu_cores = 4;
      ram_mb = 8192;
      storage_gb = 64;
      status = "online";
    }
    ∷ record {
      hostname = "MAC-004";
      os_type = "macos";
      os_version = "macOS Sonoma 14.5";
      architecture = "arm64";
      cpu_model = "Apple M3 Pro";
      cpu_cores = 12;
      ram_mb = 18432;
      storage_gb = 512;
      status = "online";
    }
    ∷ record {
      hostname = "LNX-005";
      os_type = "linux";
      os_version = "Debian 12";
      architecture = "x86_64";
      cpu_model = "Intel Xeon E-2388G";
      cpu_cores = 8;
      ram_mb = 16384;
      storage_gb = 256;
      status = "offline";
    }
    ∷ record {
      hostname = "DRD-006";
      os_type = "android";
      os_version = "Android 14";
      architecture = "arm64";
      cpu_model = "Snapdragon 8 Gen 3";
      cpu_cores = 8;
      ram_mb = 12288;
      storage_gb = 256;
      status = "online";
    }
    ∷ []

abbrev pub alerts_data : List SeedAlert
alerts_data =
    record {
      severity = "critical";
      category = "malware";
      title = "Suspicious process: mimikatz.exe";
      hostname = "WS-001";
      description = "Credential dumping tool detected";
      tactic = some "Credential Access";
      technique = some "T1003";
    }
    ∷ record {
      severity = "critical";
      category = "tamper";
      title = "Debugger attached to agent process";
      hostname = "SRV-002";
      description = "Anti-tamper violation detected";
      tactic = some "Defense Evasion";
      technique = some "T1622";
    }
    ∷ record {
      severity = "high";
      category = "integrity";
      title = "File integrity change: /etc/shadow";
      hostname = "PI-003";
      description = "Critical system file modified";
      tactic = some "Persistence";
      technique = some "T1098";
    }
    ∷ record {
      severity = "high";
      category = "intrusion";
      title = "Brute-force tool detected: hydra";
      hostname = "SRV-002";
      description = "Password attack tool running";
      tactic = some "Credential Access";
      technique = some "T1110";
    }
    ∷ record {
      severity = "medium";
      category = "anomaly";
      title = "Connection spike: 250 active connections";
      hostname = "SRV-002";
      description = "Unusual network activity";
      tactic = some "Command and Control";
      technique = some "T1571";
    }
    ∷ record {
      severity = "medium";
      category = "policy";
      title = "Unknown USB device connected";
      hostname = "WS-001";
      description = "Unauthorized peripheral";
      tactic = some "Collection";
      technique = some "T1025";
    }
    ∷ record {
      severity = "low";
      category = "system";
      title = "Agent updated to v2.0.0";
      hostname = "MAC-004";
      description = "Routine agent update";
      tactic = none;
      technique = none;
    }
    ∷ []

abbrev pub policies_data : List SeedPolicy
policies_data =
    record {
      name = "Suspicious Process Detection";
      category = "endpoint";
      rules = "{\"patterns\":[\"mimikatz\",\"hydra\",\"hashcat\"]}";
      severity = "critical";
    }
    ∷ record {
      name = "File Integrity Monitoring";
      category = "compliance";
      rules = "{\"paths\":[\"/etc/passwd\",\"/etc/shadow\"]}";
      severity = "high";
    }
    ∷ record {
      name = "Network Anomaly Detection";
      category = "network";
      rules = "{\"max_connections\":200}";
      severity = "medium";
    }
    ∷ []
