-- ===== src/Delivery/Decrypt.antt =====
-- The server reads the events that the agent encrypted.
use guardian_pi.Base.{
  ℕ, ◌-◌, String, ◌≡◌, refl, Bool, List, Option, none, some, length, take-append-drop,
}
use guardian_pi.Http.{ok}
use guardian_pi.Db.{Uuid}
use guardian_pi.Deps.{Security}
use guardian_pi.Models.{Time}
use guardian_pi.Telemetry.{Event, Data, read}
use guardian_pi.Agent.Crypto.{Bytes, Primitives, IsSent, ◌>>=◌, encrypt}
use guardian_pi.Delivery.{setting_key, server_decrypt, body}

>>=-eq-some :
    {A B : Type 0} (m : Option A) (f : A → Option B) {b : B}
    → (m >>= f) ≡ some b
    → (a : A) × (m ≡ some a) × (f a ≡ some b)
>>=-eq-some none f h = cc
>>=-eq-some (some a) f h = (a, refl, h)

-- The server's setting is the key of the agent's cipher.
abbrev pub IsKey : (P : Primitives Data) → Option String → P.Key → Type 0
IsKey P setting k = (setting_key P setting >>= P.aesgcm) ≡ some k

module _ (P : Primitives Data) where
  server_decrypt-encrypt :
      (setting : Option String) (k : P.Key) (nonce : Bytes) (d : Data)
      → IsKey P setting k
      → IsSent P k nonce d
      → server_decrypt P setting
          (encrypt P k nonce d).nonce
          (encrypt P k nonce d).encrypted_data
          (encrypt P k nonce d).tag
        ≡ some d
  unfolding server_decrypt encrypt
  server_decrypt-encrypt setting k nonce d is_key sent =
      let c = P.seal k nonce (P.dumps d) in
      let (key, found, made) = >>=-eq-some (setting_key P setting) P.aesgcm is_key in
      rw
        (
          found,
          sent.decoded.1.0,
          sent.decoded.0,
          sent.decoded.1.1.0,
          made,
          take-append-drop (length c - 16) c,
          sent.opened,
        )
        sent.read

  -- The payload of events that an agent encrypts with the key of the server's setting is read by the
  -- server as these events, in any environment.
  pub read-body :
      (setting : Option String) (k : P.Key) (dev : Bool) (fresh : ℕ → Uuid) (now : Time)
      (sec : Security) (nonce : Bytes) (events : List Event)
      → IsKey P setting k
      → IsSent P k nonce (some events)
      → read sec (server_decrypt P setting) dev fresh now (body P (some k) nonce events)
        ≡ ok (some events)
  unfolding body encrypt
  read-body setting k dev fresh now sec nonce events is_key sent =
      rw
        (
          sent.filled.0,
          sent.filled.1.0,
          sent.filled.1.1.0,
          server_decrypt-encrypt setting k nonce (some events) is_key sent,
        )
        refl
