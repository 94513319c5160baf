-- ===== src/Detection/Rules.antt =====
-- The rules and signatures of backend/app/services/detection_service.py.
use Prim.Native.Char.{code}
use guardian_pi.Base.{ℕ, String, List, [], ◌∷◌}

pub data RuleCategory : Type 0 where
  malware credential_access persistence defense_evasion execution lateral_movement collection c2 :
      RuleCategory

-- category.value
abbrev pub value : RuleCategory → String
value malware = "malware"
value credential_access = "credential_access"
value persistence = "persistence"
value defense_evasion = "defense_evasion"
value execution = "execution"
value lateral_movement = "lateral_movement"
value collection = "collection"
value c2 = "command_and_control"

pub record DetectionRule : Type 0 where
  pub id : String
  pub name : String
  pub description : String
  pub severity : String
  pub category : RuleCategory
  pub mitre_tactic : String
  pub mitre_technique : String
  pub process_names : List String
  pub cmdline_patterns : List String
  pub file_patterns : List String
  pub network_indicators : List String

abbrev pub sigma_rules : List DetectionRule
sigma_rules =
    record {
      id = "SIGMA-001";
      name = "Mimikatz Credential Dumping";
      description = "Detects mimikatz and related credential access tools";
      severity = "critical";
      category = credential_access;
      mitre_tactic = "Credential Access";
      mitre_technique = "T1003";
      process_names = "mimikatz" ∷ "sekurlsa" ∷ "kiwi" ∷ [];
      cmdline_patterns = "sekurlsa::logonpasswords" ∷ "lsadump::" ∷ "privilege::debug" ∷ [];
      file_patterns = [];
      network_indicators = [];
    }
    ∷ record {
      id = "SIGMA-002";
      name = "Reverse Shell Detection";
      description = "Detects common reverse shell patterns across platforms";
      severity = "critical";
      category = execution;
      mitre_tactic = "Execution";
      mitre_technique = "T1059";
      process_names = [];
      cmdline_patterns =
          "/dev/tcp/\\d+\\.\\d+\\.\\d+\\.\\d+" ∷ "bash\\s+-i\\s+>&\\s+/dev/tcp"
          ∷ "nc\\s+.*-e\\s+/bin/(sh|bash)" ∷ "python.*socket.*subprocess" ∷ "php\\s+-r.*fsockopen"
          ∷ "ruby.*TCPSocket.*exec" ∷ [];
      file_patterns = [];
      network_indicators = [];
    }
    ∷ record {
      id = "SIGMA-003";
      name = "Brute Force Tools";
      description = "Detects password cracking and brute force utilities";
      severity = "high";
      category = credential_access;
      mitre_tactic = "Credential Access";
      mitre_technique = "T1110";
      process_names = "hydra" ∷ "john" ∷ "hashcat" ∷ "medusa" ∷ "ncrack" ∷ "patator" ∷ [];
      cmdline_patterns = [];
      file_patterns = [];
      network_indicators = [];
    }
    ∷ record {
      id = "SIGMA-004";
      name = "Suspicious Persistence Mechanism";
      description = "Detects unauthorized persistence attempts";
      severity = "high";
      category = persistence;
      mitre_tactic = "Persistence";
      mitre_technique = "T1053";
      process_names = [];
      cmdline_patterns =
          "crontab\\s+-e" ∷ "schtasks\\s+/create" ∷ "reg\\s+add.*\\\\Run" ∷ "launchctl\\s+load"
          ∷ "systemctl\\s+enable" ∷ [];
      file_patterns =
          "/etc/cron\\.d/" ∷ "\\.bashrc$" ∷ "\\.profile$" ∷ "\\\\Startup\\\\" ∷ "LaunchAgents" ∷ [];
      network_indicators = [];
    }
    ∷ record {
      id = "SIGMA-005";
      name = "Encoded PowerShell Command";
      description = "Detects base64-encoded PowerShell execution";
      severity = "high";
      category = defense_evasion;
      mitre_tactic = "Defense Evasion";
      mitre_technique = "T1027";
      process_names = [];
      cmdline_patterns =
          "powershell.*-[eE](nc|ncodedcommand)" ∷ "powershell.*[Ff]rom[Bb]ase64"
          ∷ "powershell.*-[wW]\\s+hidden" ∷ [];
      file_patterns = [];
      network_indicators = [];
    }
    ∷ record {
      id = "SIGMA-006";
      name = "Unusual Outbound Traffic";
      description = "Detects connections to known C2/malicious ports";
      severity = "medium";
      category = c2;
      mitre_tactic = "Command and Control";
      mitre_technique = "T1571";
      process_names = [];
      cmdline_patterns = [];
      file_patterns = [];
      network_indicators = "4444" ∷ "5555" ∷ "1337" ∷ "31337" ∷ "9999" ∷ [];
    }
    ∷ record {
      id = "SIGMA-007";
      name = "Debugger/Tamper Tools";
      description = "Detects debugger attachment and tampering tools";
      severity = "medium";
      category = defense_evasion;
      mitre_tactic = "Defense Evasion";
      mitre_technique = "T1622";
      process_names =
          "gdb" ∷ "lldb" ∷ "strace" ∷ "ltrace" ∷ "x64dbg" ∷ "ollydbg" ∷ "windbg" ∷ "ida" ∷ "ida64"
          ∷ [];
      cmdline_patterns = [];
      file_patterns = [];
      network_indicators = [];
    }
    ∷ record {
      id = "SIGMA-008";
      name = "Lateral Movement Tools";
      description = "Detects tools used for lateral movement";
      severity = "high";
      category = lateral_movement;
      mitre_tactic = "Lateral Movement";
      mitre_technique = "T1021";
      process_names = "psexec" ∷ "wmiexec" ∷ "smbexec" ∷ "evil-winrm" ∷ "crackmapexec" ∷ [];
      cmdline_patterns = [];
      file_patterns = [];
      network_indicators = [];
    }
    ∷ []

-- A bytes literal of ASCII characters. The first pattern below is a raw literal in the source, so
-- its backslashes are characters.
abbrev bytes : String → List ℕ
bytes String.[] = []
bytes (String.◌∷◌ c s) = code c ∷ bytes s

pub record Signature : Type 0 where
  pub name : String
  pub pattern : List ℕ
  pub severity : String

abbrev pub yara_signatures : List Signature
yara_signatures =
    record {
      name = "suspicious_shellcode";
      pattern = bytes "\\xfc\\xe8\\x82\\x00\\x00\\x00";
      severity = "critical";
    }
    ∷ record { name = "metasploit_marker"; pattern = bytes "metsrv.dll"; severity = "critical" }
    ∷ record { name = "cobalt_strike_beacon"; pattern = bytes "beacon.dll"; severity = "critical" }
    ∷ record { name = "mimikatz_string"; pattern = bytes "gentilkiwi"; severity = "critical" }
    ∷ record { name = "powersploit_marker"; pattern = bytes "PowerSploit"; severity = "high" }
    ∷ []
