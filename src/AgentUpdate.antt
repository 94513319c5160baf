-- ===== src/AgentUpdate.antt =====
-- backend/app/api/v1/agent_update.py: the registry of agent versions. Its dependency
-- verify_agent_api_key is missing from deps.py, so its answer is a parameter.
pub mod Offers
use guardian_pi.Base.{
  ℕ, String, ◌<>◌, Bool, true, false, not, List, [], ◌∷◌, Option, none, some, length, lookup,
  insert, ◌==◌, if◌then◌else◌,
}
use guardian_pi.Http.{Result, ok, ◌>>=◌, ◌>>◌}
use guardian_pi.Models.{User}
use guardian_pi.Deps.{require_role}
use guardian_pi.Agent.Hashing.{Sha256}

pub record AgentVersion : Type 0 where
  pub version : String
  pub platform : String
  pub download_url : String
  pub sha256_hash : String
  pub release_notes : String
  pub size_bytes : ℕ
  pub released_at : String

-- _versions, by platform.
abbrev pub Versions : Type 0
Versions = List (String × AgentVersion)

abbrev pub initial_versions : (started : String) → Versions
initial_versions started =
    (
      "linux",
      record {
        version = "2.0.0";
        platform = "linux";
        download_url = "/api/v1/agent/download/linux";
        sha256_hash = "placeholder_hash";
        release_notes = "Initial Go agent release";
        size_bytes = 0;
        released_at = started;
      },
    )
    ∷ []

pub data UpdateCheck : Type 0 where
  no_builds : (message : String) → UpdateCheck
  checked :
      (update_available : Bool) (current_version latest_version : String)
      (download_url sha256_hash release_notes : Option String)
      → UpdateCheck

-- `x if needs_update else None`
abbrev pub offered : Bool → String → Option String
offered needs_update x = if needs_update then some x else none

abbrev pub answer : (current_version platform : String) → Option AgentVersion → UpdateCheck
answer current_version platform none = no_builds ("No builds for platform: " <> platform)
answer current_version platform (some available) =
    let needs_update = not (available.version == current_version) in
    checked needs_update current_version available.version
      (offered needs_update available.download_url) (offered needs_update available.sha256_hash)
      (offered needs_update available.release_notes)

unfoldable pub check_for_update :
    (current_version platform : String) → (api_key : Result String) → Versions → Result UpdateCheck
check_for_update current_version platform api_key versions = do
  api_key
  ok (answer current_version platform (lookup platform versions))

pub record Published : Type 0 where
  pub status : String
  pub version : String
  pub platform : String
  pub sha256 : String

module _ (H : Sha256) where
  -- The version of an uploaded file.
  abbrev pub uploaded :
      (now version platform release_notes : String) → (content : List ℕ) → AgentVersion
  uploaded now version platform release_notes content = record {
    version = version;
    platform = platform;
    download_url = "/api/v1/agent/download/" <> platform;
    sha256_hash = H.hexdigest (H.update H.start content);
    release_notes = release_notes;
    size_bytes = length content;
    released_at = now;
  }

  unfoldable pub publish_agent_update :
      (now version platform release_notes : String) (content : List ℕ) (current_user : Result User)
      → Versions
      → Result (Published × Versions)
  publish_agent_update now version platform release_notes content current_user versions = do
    user ← current_user
    require_role ("admin" ∷ []) user
    let published = uploaded now version platform release_notes content
    ok (
      record {
        status = "published";
        version = version;
        platform = platform;
        sha256 = published.sha256_hash;
      },
      insert platform published versions,
    )
