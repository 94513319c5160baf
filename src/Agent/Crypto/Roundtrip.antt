-- ===== src/Agent/Crypto/Roundtrip.antt =====
-- What was encrypted is decrypted, by the agent and by the server.
use guardian_pi.Base.{◌-◌, ◌≡◌, some, length, take-append-drop}
use guardian_pi.Agent.Crypto.{Bytes, Primitives, IsSent, encrypt, decrypt}

module _ {D : Type 0} (P : Primitives D) where
  -- What an agent encrypts it decrypts to the same payload.
  pub decrypt-encrypt :
      (k : P.Key) (nonce : Bytes) (d : D)
      → IsSent P k nonce d
      → decrypt P k
          (encrypt P k nonce d).encrypted_data
          (encrypt P k nonce d).nonce
          (encrypt P k nonce d).tag
        ≡ some d
  unfolding encrypt decrypt
  decrypt-encrypt k nonce d sent =
      let c = P.seal k nonce (P.dumps d) in
      rw
        (
          sent.decoded.0,
          sent.decoded.1.0,
          sent.decoded.1.1.0,
          take-append-drop (length c - 16) c,
          sent.opened,
        )
        sent.read
