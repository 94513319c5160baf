-- ===== src/Agent/Hashing.antt =====
-- The hashing of a file in chunks: _hash_file of agent/monitors/file_integrity.py and
-- _compute_self_hash of agent/security/anti_tamper.py. hashlib is a parameter.
pub mod Chunks
use guardian_pi.Base.{
  ℕ, zero, suc, String, ◌≡◌, List, [], ◌∷◌, ◌++◌, Option, none, some, length, take, drop,
}

-- hashlib.sha256(): an object that is updated by bytes, and its digest as a text.
pub record Sha256 : Type 1 where
  pub State : Type 0
  pub start : State
  pub update : State → List ℕ → State
  pub hexdigest : State → String

-- Repeated updates are one update by the concatenation, as hashlib documents.
pub record IsStream (H : Sha256) : Type 0 where
  pub update-nil : (s : H.State) → H.update s [] ≡ s
  pub update-update : (s : H.State) (a b : List ℕ) → H.update (H.update s a) b ≡ H.update s (a ++ b)

module _ (H : Sha256) where
  -- for chunk in iter(lambda: f.read(size), b""): the loop on fuel, with the bytes that are not read
  -- yet; `none` is out of fuel.
  unfoldable pub hash_chunks : (fuel size : ℕ) → H.State → (unread : List ℕ) → Option H.State
  hash_chunks zero size s unread = none
  hash_chunks (suc fuel) size s unread = elim (take size unread) [
    | [] ↦ some s
    | b ∷ bs ↦ hash_chunks fuel size (H.update s (b ∷ bs)) (drop size unread)
  ]

  abbrev pub digest_of : Option H.State → Option String
  digest_of none = none
  digest_of (some s) = some (H.hexdigest s)

  -- The hash of a file with this content; `none` is a file that cannot be opened or read, and None.
  unfoldable pub hash_file : Option (List ℕ) → Option String
  hash_file none = none
  hash_file (some content) = digest_of (hash_chunks (suc (length content)) 8192 H.start content)
