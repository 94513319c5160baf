-- ===== src/Delivery/Flush.antt =====
-- What the flushes of an agent deliver to the server, and what they never deliver.
use guardian_pi.Base.{
  ℕ, String, ◌≡◌, refl, ap, ◌∙◌, ◌⊎◌, inl, inr, Bool, true, false, not, ◌&&◌, ◌||◌, List, [], ◌∷◌,
  Option, none, some, any, length, All, ◌==◌, nat_eq, Bool-cases,
}
use guardian_pi.Http.{Error, Result, ok, err, http, raised}
use guardian_pi.Db.{Uuid}
use guardian_pi.Db.Sessions.{get_db-err, get_db-ok}
use guardian_pi.Models.{Time}
use guardian_pi.Deps.{Security, validate_agent_api_key, validate_api_key}
use guardian_pi.Telemetry.{
  Event, Data, TelemetryPayload, IngestResponse, is_alarming, read, pending_alerts, flush_all,
  ingest_telemetry,
}
use guardian_pi.Telemetry.Ingest.{ingest_telemetry-eq-raised}
use guardian_pi.Agent.Crypto.{Bytes, Primitives, IsSent}
use guardian_pi.Agent.Sender.{finish}
use guardian_pi.Delivery.{
  Server, status_of, server_decrypt, body, post_telemetry, flush_queue, flush_times,
}
use guardian_pi.Delivery.Decrypt.{IsKey, read-body}

validate_agent_api_key-cases :
    (sec : Security) (api_key : String)
    → (validate_agent_api_key sec (some api_key) ≡ ok api_key)
      ⊎ (validate_agent_api_key sec (some api_key) ≡ err (http 401 "Invalid or missing API key"))
unfolding validate_agent_api_key
validate_agent_api_key-cases sec api_key =
    elim (Bool-cases (not (api_key == "") && validate_api_key sec api_key)) [
      | inl valid ↦ inl (rw valid refl)
      | inr invalid ↦ inr (rw invalid refl)
    ]

or-eq-false : (a b : Bool) → (a || b) ≡ false → (a ≡ false) × (b ≡ false)
or-eq-false false b h = (refl, h)
or-eq-false true b h = cc

module _ (P : Primitives Data) (S : Server) (fresh : ℕ → Uuid) (now : Time) (api_key : String) where
  -- The agent has no cipher, or its cipher has the key of the server and works on these events.
  abbrev pub IsPaired : Option P.Key → (nonce : Bytes) → List Event → Type 0
  IsPaired none nonce events = Unit
  IsPaired (some k) nonce events =
      IsKey P S.telemetry_encryption_key k × IsSent P k nonce (some events)

  abbrev ingest : TelemetryPayload → S.alerts.Store → Result (IngestResponse × S.alerts.Store)
  ingest payload =
      ingest_telemetry S.security (server_decrypt P S.telemetry_encryption_key) S.is_development
        fresh now S.alerts payload (some api_key)

  -- A request that ends in an exception, seen by the client with a status other than 202.
  abbrev IsRefused : TelemetryPayload → S.alerts.Store → Type 0
  IsRefused payload s =
      (e : Error) × ((ingest payload s ≡ err e)
        × (nat_eq (status_of {R = IngestResponse} (err e)) 202 ≡ false))

  flush_queue-refused :
      (crypto : Option P.Key) (nonce : Bytes) (events : List Event) (s : S.alerts.Store)
      → IsRefused (body P crypto nonce events) s
      → flush_queue P S fresh now api_key crypto nonce (events, s) ≡ (events, s)
  unfolding flush_queue post_telemetry finish
  flush_queue-refused crypto nonce [] s refused = refl
  flush_queue-refused crypto nonce (event ∷ rest) s (e, (is_err, other)) =
      let events = event ∷ rest in
      rw (get_db-err S.commit (ingest (body P crypto nonce events)) s is_err, other) refl

  flush_times-refused :
      (crypto : Option P.Key) (nonces : List Bytes) (events : List Event) (s : S.alerts.Store)
      → All (λ nonce. IsRefused (body P crypto nonce events) s) nonces
      → flush_times P S fresh now api_key crypto nonces (events, s) ≡ (events, s)
  unfolding flush_times
  flush_times-refused crypto [] events s refused = refl
  flush_times-refused crypto (nonce ∷ nonces) events s (first, others) =
      rw (flush_queue-refused crypto nonce events s first)
        (flush_times-refused crypto nonces events s others)

  unauthorized-IsRefused :
      (payload : TelemetryPayload) (s : S.alerts.Store)
      → validate_agent_api_key S.security (some api_key)
        ≡ err (http 401 "Invalid or missing API key")
      → IsRefused payload s
  unfolding ingest_telemetry
  unauthorized-IsRefused payload s invalid =
      (http 401 "Invalid or missing API key", (rw invalid refl, refl))

  plain-IsRefused :
      (nonce : Bytes) (events : List Event) (s : S.alerts.Store)
      → S.is_development ≡ false
      → IsRefused (body P none nonce events) s
  unfolding ingest_telemetry body
  plain-IsRefused nonce events s production =
      elim (validate_agent_api_key-cases S.security api_key) [
        | inl valid ↦ (http 400 "Encrypted payload required", (rw (valid, production) refl, refl))
        | inr invalid ↦ unauthorized-IsRefused (body P none nonce events) s invalid
      ]

  -- A body of the agent whose events the server reads, one of which is alarming.
  read-IsRefused :
      (payload : TelemetryPayload) (events : List Event) (s : S.alerts.Store)
      → payload.device_id ≡ "self"
      → read S.security
          (server_decrypt P S.telemetry_encryption_key)
          S.is_development
          fresh
          now
          payload
        ≡ ok (some events)
      → S.security.parse_uuid "self" ≡ none
      → any is_alarming events ≡ true
      → IsRefused payload s
  read-IsRefused payload events s self is_read p a =
      elim (validate_agent_api_key-cases S.security api_key) [
        | inl valid ↦ (
          raised "ValueError",
          (
            ingest_telemetry-eq-raised S.security (server_decrypt P S.telemetry_encryption_key)
                S.is_development fresh now S.alerts payload (some api_key) api_key s (some events)
                valid is_read (ap S.security.parse_uuid self ∙ p) a,
            refl,
          ),
        )
        | inr invalid ↦ unauthorized-IsRefused payload s invalid
      ]

  alarming-IsRefused :
      (crypto : Option P.Key) (nonce : Bytes) (events : List Event) (s : S.alerts.Store)
      → IsPaired crypto nonce events
      → S.security.parse_uuid "self" ≡ none
      → any is_alarming events ≡ true
      → IsRefused (body P crypto nonce events) s
  unfolding body
  alarming-IsRefused none nonce events s paired p a = elim (Bool-cases S.is_development) [
    | inl development ↦
        read-IsRefused (body P none nonce events) events s refl (rw development refl) p a
    | inr production ↦ plain-IsRefused nonce events s production
  ]
  alarming-IsRefused (some k) nonce events s (key, sent) p a =
      read-IsRefused (body P (some k) nonce events) events s refl
        (read-body P S.telemetry_encryption_key k S.is_development fresh now S.security nonce events
          key sent)
        p a

  -- Where the server is not in development, an agent that has no cipher delivers nothing: however
  -- often it flushes, its queue and the server's alerts stay as they were.
  pub flush_times-plain :
      (nonces : List Bytes) (events : List Event) (s : S.alerts.Store)
      → S.is_development ≡ false
      → flush_times P S fresh now api_key none nonces (events, s) ≡ (events, s)
  flush_times-plain nonces events s production =
      flush_times-refused none nonces events s (every nonces)
    where
      every : (nonces : List Bytes) → All (λ nonce. IsRefused (body P none nonce events) s) nonces
      every [] = tt
      every (nonce ∷ nonces) = (plain-IsRefused nonce events s production, every nonces)

  -- One alarming event blocks the queue: as "self" is the text of no UUID, an agent whose cipher has
  -- the server's key, or that has none, delivers nothing, however often it flushes, with any API key.
  pub flush_times-alarming :
      (crypto : Option P.Key) (nonces : List Bytes) (events : List Event) (s : S.alerts.Store)
      → All (λ nonce. IsPaired crypto nonce events) nonces
      → S.security.parse_uuid "self" ≡ none
      → any is_alarming events ≡ true
      → flush_times P S fresh now api_key crypto nonces (events, s) ≡ (events, s)
  flush_times-alarming crypto nonces events s paired p a =
      flush_times-refused crypto nonces events s (every nonces paired)
    where
      every :
          (nonces : List Bytes)
          → All (λ nonce. IsPaired crypto nonce events) nonces
          → All (λ nonce. IsRefused (body P crypto nonce events) s) nonces
      every [] paired = tt
      every (nonce ∷ nonces) (first, others) =
          (alarming-IsRefused crypto nonce events s first p a, every nonces others)

  pending_alerts-calm :
      (device_id : String) (events : List Event)
      → any is_alarming events ≡ false
      → pending_alerts S.security
          (server_decrypt P S.telemetry_encryption_key)
          S.is_development
          fresh
          now
          device_id
          0
          events
        ≡ ok []
  unfolding pending_alerts
  pending_alerts-calm device_id [] calm = refl
  pending_alerts-calm device_id (event ∷ events) calm =
      let (this, others) = or-eq-false (is_alarming event) (any is_alarming events) calm in
      rw this (pending_alerts-calm device_id events others)

  accepts-calm :
      (payload : TelemetryPayload) (events : List Event) (s : S.alerts.Store)
      → validate_agent_api_key S.security (some api_key) ≡ ok api_key
      → read S.security
          (server_decrypt P S.telemetry_encryption_key)
          S.is_development
          fresh
          now
          payload
        ≡ ok (some events)
      → any is_alarming events ≡ false
      → ingest payload s
        ≡ ok (
          record { status = "accepted"; events_processed = length events; alerts_created = 0 },
          s,
        )
  unfolding ingest_telemetry flush_all
  accepts-calm payload events s valid is_read calm =
      rw (valid, is_read, pending_alerts-calm payload.device_id events calm) refl

  -- Where the agent's cipher has the server's key, its API key is valid, no event is alarming, and the
  -- database commits and changes no row by that, a flush empties the queue, and the server's alerts are
  -- those it had.
  pub flush_queue-delivered :
      (k : P.Key) (nonce : Bytes) (event : Event) (rest : List Event) (s t : S.alerts.Store)
      → IsPaired (some k) nonce (event ∷ rest)
      → validate_agent_api_key S.security (some api_key) ≡ ok api_key
      → any is_alarming (event ∷ rest) ≡ false
      → S.commit s ≡ some t
      → S.alerts.rows t ≡ S.alerts.rows s
      → ((flush_queue P S fresh now api_key (some k) nonce (event ∷ rest, s)).0 ≡ [])
        × (S.alerts.rows (flush_queue P S fresh now api_key (some k) nonce (event ∷ rest, s)).1
            ≡ S.alerts.rows s)
  unfolding flush_queue post_telemetry finish
  flush_queue-delivered k nonce event rest s t (key, sent) valid calm commits same =
      let payload = body P (some k) nonce (event ∷ rest) in
      let answered =
        get_db-ok S.commit (ingest payload) s
          (accepts-calm payload (event ∷ rest) s valid
            (read-body P S.telemetry_encryption_key k S.is_development fresh now S.security nonce
              (event ∷ rest) key sent)
            calm)
          commits in
      rw answered (refl, same)
