-- ===== src/Agent/Crypto.antt =====
-- agent/security/crypto.py: TelemetryCrypto. base64, JSON and AES-GCM are parameters.
pub mod Roundtrip
use guardian_pi.Base.{
  ℕ, ◌-◌, String, ◌≡◌, Bool, false, All, List, [], ◌∷◌, ◌++◌, Option, none, some, length, take,
  drop, get_or, ◌==◌, if◌then◌else◌,
}

abbrev pub Bytes : Type 0
Bytes = List ℕ

-- What crypto.py uses of other packages, for the values D that it sends. `none` is an exception.
pub record Primitives (D : Type 0) : Type 1 where
  pub b64encode : Bytes → String
  pub b64decode : String → Option Bytes
  -- json.dumps(data).encode("utf-8") and json.loads
  pub dumps : D → Bytes
  pub loads : Bytes → Option D
  -- AESGCM(key), which rejects a key of a wrong length, and its operations without associated data
  pub Key : Type 0
  pub aesgcm : Bytes → Option Key
  pub seal : Key → (nonce plaintext : Bytes) → Bytes
  pub unseal : Key → (nonce ciphertext : Bytes) → Option Bytes

pub record Encrypted : Type 0 where
  pub encrypted_data : String
  pub nonce : String
  pub tag : String

module _ {A B : Type 0} where
  -- An exception of the first ends the second.
  infixl 5 ◌>>=◌
  abbrev pub ◌>>=◌ : Option A → (A → Option B) → Option B
  none >>= f = none
  some a >>= f = f a

module _ {D : Type 0} (P : Primitives D) where
  -- self.key; `generated` is AESGCM.generate_key(bit_length=256). An empty text is falsy.
  abbrev pub init_key : (generated : Bytes) → (key_b64 : Option String) → Option Bytes
  init_key generated none = some generated
  init_key generated (some text) = if text == "" then some generated else P.b64decode text

  -- TelemetryCrypto(key_b64).key and its .aesgcm
  unfoldable pub new_crypto :
      (generated : Bytes) → (key_b64 : Option String) → Option (Bytes × P.Key)
  new_crypto generated key_b64 = do
    key ← init_key generated key_b64
    aesgcm ← P.aesgcm key
    some (key, aesgcm)

  -- The property key_b64.
  abbrev pub key_b64 : Bytes → String
  key_b64 = P.b64encode

  -- ciphertext[:-16] and ciphertext[-16:]; `nonce` is os.urandom(12).
  unfoldable pub encrypt : P.Key → (nonce : Bytes) → D → Encrypted
  encrypt aesgcm nonce d =
      let ciphertext = P.seal aesgcm nonce (P.dumps d) in
      record {
        encrypted_data = P.b64encode (take (length ciphertext - 16) ciphertext);
        nonce = P.b64encode nonce;
        tag = P.b64encode (drop (length ciphertext - 16) ciphertext);
      }

  unfoldable pub decrypt : P.Key → (encrypted_data nonce tag : String) → Option D
  decrypt aesgcm encrypted_data nonce tag = do
    ct ← P.b64decode encrypted_data
    n ← P.b64decode nonce
    t ← P.b64decode tag
    plaintext ← P.unseal aesgcm n (ct ++ t)
    P.loads plaintext

  -- The ciphertext, the nonce and the tag of a payload, as they are sent.
  abbrev pub parts : P.Key → (nonce : Bytes) → D → List Bytes
  parts aesgcm nonce d =
      let ciphertext = P.seal aesgcm nonce (P.dumps d) in
      take (length ciphertext - 16) ciphertext
      ∷ nonce
      ∷ drop (length ciphertext - 16) ciphertext
      ∷ []

  -- What the packages document, of one payload: what was sealed is opened, what was written as JSON
  -- is read, and the base64 text of each part, none of which is empty, is decoded and not empty.
  pub record IsSent (aesgcm : P.Key) (nonce : Bytes) (d : D) : Type 0 where
    pub opened : P.unseal aesgcm nonce (P.seal aesgcm nonce (P.dumps d)) ≡ some (P.dumps d)
    pub read : P.loads (P.dumps d) ≡ some d
    pub decoded : All (λ b. P.b64decode (P.b64encode b) ≡ some b) (parts aesgcm nonce d)
    pub filled : All (λ b. (P.b64encode b == "") ≡ false) (parts aesgcm nonce d)
