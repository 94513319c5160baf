-- ===== src/Telemetry/Ingest.antt =====
-- What a payload of events leaves behind, and when it is refused as a whole.
use guardian_pi.Base.{
  ℕ, suc, String, ◌≡◌, refl, sym, ◌∙◌, ap, Bool, true, false, ◌||◌, List, [], ◌∷◌, ◌++◌, Option,
  none, some, length, get_or, filter, any, All, if◌then◌else◌, arith,
}
use mathlib.Core.Path.{subst}
use mathlib.Core.List.{append_assoc, append-nil}
use guardian_pi.Http.{Result, ok, err, raised, ◌>>=◌, >>=-eq-ok, >>-eq-ok}
use guardian_pi.Db.{Uuid, Table, IsLawful, flush}
use guardian_pi.Db.Modify.{flush-eq-ok, ok-injective}
use guardian_pi.Models.{Alert, Time}
use guardian_pi.Deps.{Security, uuid, validate_agent_api_key}
use guardian_pi.Telemetry.{
  Event, Data, TelemetryPayload, IngestResponse, is_alarming, read, event_alert, pending_alerts,
  flush_all, ingest_telemetry,
}

-- An alert as the agents' telemetry opens it.
abbrev pub IsTelemetryAlert : Alert → Type 0
IsTelemetryAlert a = (a.status ≡ "open") × (a.source ≡ some "agent_telemetry")

-- One pending row for each alarming event.
abbrev pub Pending : List Event → List Alert → Type 0
Pending events alerts =
    (length alerts ≡ length (filter is_alarming events)) × All IsTelemetryAlert alerts

here-eq-ok :
    (m : Result Uuid) (rest : Result (List Alert)) (row : Uuid → Alert) (alerts : List Alert)
    → (m >>= λ id. rest >>= λ r. ok (row id ∷ r)) ≡ ok alerts
    → (id : Uuid) × (r : List Alert) × (rest ≡ ok r) × (row id ∷ r ≡ alerts)
here-eq-ok (ok id) (ok r) row alerts h = (id, r, refl, ok-injective h)
here-eq-ok (ok id) (err e) row alerts h = cc
here-eq-ok (err e) rest row alerts h = cc

module _ (sec : Security) (decrypt : (nonce encrypted tag : String) → Option Data) (dev : Bool)
    (fresh : ℕ → Uuid) (now : Time) where
  pending_alerts-Pending :
      (device_id : String) (n : ℕ) (events : List Event) (alerts : List Alert)
      → pending_alerts sec decrypt dev fresh now device_id n events ≡ ok alerts
      → Pending events alerts
  unfolding pending_alerts
  pending_alerts-Pending device_id n [] alerts h = subst (Pending []) (ok-injective h) (refl, tt)
  pending_alerts-Pending device_id n (e ∷ events) alerts h =
      split (is_alarming e) refl (pending_alerts-Pending device_id n events alerts)
        (λ r. pending_alerts-Pending device_id (suc n) events r) h
    where
      split :
          (b : Bool)
          → is_alarming e ≡ b
          → (pending_alerts sec decrypt dev fresh now device_id n events ≡ ok alerts
              → Pending events alerts)
          → ((r : List Alert)
              → pending_alerts sec decrypt dev fresh now device_id (suc n) events ≡ ok r
              → Pending events r)
          → (if b
              then (uuid sec device_id >>= λ id.
                  pending_alerts sec decrypt dev fresh now device_id (suc n) events >>= λ rest.
                  ok (event_alert sec decrypt dev fresh now id n e ∷ rest))
              else pending_alerts sec decrypt dev fresh now device_id n events)
            ≡ ok alerts
          → Pending (e ∷ events) alerts
      split false b skip take h = rw b (skip h)
      split true b skip take h =
          let (id, r, pending, shape) =
            here-eq-ok (uuid sec device_id)
              (pending_alerts sec decrypt dev fresh now device_id (suc n) events)
              (λ id. event_alert sec decrypt dev fresh now id n e) alerts h in
          let later = take r pending in
          subst (Pending (e ∷ events)) shape (rw b (ap suc later.0, ((refl, refl), later.1)))

  uuid-raised :
      (device_id : String)
      → sec.parse_uuid device_id ≡ none
      → uuid sec device_id ≡ err (raised "ValueError")
  uuid-raised device_id p = ground arith

  pending_alerts-raised :
      (device_id : String) (n : ℕ) (events : List Event)
      → sec.parse_uuid device_id ≡ none
      → any is_alarming events ≡ true
      → pending_alerts sec decrypt dev fresh now device_id n events ≡ err (raised "ValueError")
  unfolding pending_alerts
  pending_alerts-raised device_id n [] p h = cc
  pending_alerts-raised device_id n (e ∷ events) p h =
      split (is_alarming e) refl (pending_alerts-raised device_id n events p) h
    where
      split :
          (b : Bool)
          → is_alarming e ≡ b
          → (any is_alarming events ≡ true
              → pending_alerts sec decrypt dev fresh now device_id n events
                ≡ err (raised "ValueError"))
          → (b || any is_alarming events) ≡ true
          → pending_alerts sec decrypt dev fresh now device_id n (e ∷ events)
            ≡ err (raised "ValueError")
      split true b later h = rw (b, uuid-raised device_id p) refl
      split false b later h = rw b (later h)

  module _ (T : Table Alert) where
    rows-flush_all :
        (alerts : List Alert) (s t : T.Store)
        → IsLawful (λ a. a.id) T
        → flush_all sec decrypt dev fresh now T alerts s ≡ ok t
        → T.rows t ≡ T.rows s ++ alerts
    unfolding flush_all
    rows-flush_all [] s t law h = ap T.rows (sym (ok-injective h)) ∙ sym (append-nil (T.rows s))
    rows-flush_all (a ∷ alerts) s t law h =
        let (u, added, later) = >>=-eq-ok (flush (T.add a s)) _ h in
        rows-flush_all alerts u t law later
        ∙ ap (λ rs. rs ++ alerts) (law.rows-add a s u (flush-eq-ok (T.add a s) added))
        ∙ append_assoc (T.rows s) (a ∷ []) alerts

-- An accepted payload: every event is counted as processed, and the alerts created are exactly as
-- many as the events of severity critical, high or medium; the table of alerts is the one before
-- followed by that many open alerts of this source.
pub ingest_telemetry-eq-ok :
    (sec : Security) (decrypt : (nonce encrypted tag : String) → Option Data) (dev : Bool)
    (fresh : ℕ → Uuid) (now : Time) (T : Table Alert) (payload : TelemetryPayload)
    (api_key : Option String) (s t : T.Store) (response : IngestResponse)
    → IsLawful (λ a. a.id) T
    → ingest_telemetry sec decrypt dev fresh now T payload api_key s ≡ ok (response, t)
    → (found : Data) × (new : List Alert) × (read sec decrypt dev fresh now payload ≡ ok found)
      × (response.events_processed ≡ length (get_or found []))
      × (response.alerts_created ≡ length (filter is_alarming (get_or found [])))
      × (T.rows t ≡ T.rows s ++ new)
      × (length new ≡ response.alerts_created)
      × All IsTelemetryAlert new
unfolding ingest_telemetry
ingest_telemetry-eq-ok sec decrypt dev fresh now T payload api_key s t response law h =
    let after_key = >>-eq-ok (validate_agent_api_key sec api_key) _ h in
    let (found, is_read, after_read) =
      >>=-eq-ok (read sec decrypt dev fresh now payload) _ after_key in
    let (new, is_new, after_new) =
      >>=-eq-ok (pending_alerts sec decrypt dev fresh now payload.device_id 0 (get_or found [])) _
        after_read in
    let (u, flushed, answered) =
      >>=-eq-ok (flush_all sec decrypt dev fresh now T new s) _ after_new in
    let pending =
      pending_alerts-Pending sec decrypt dev fresh now payload.device_id 0 (get_or found []) new
        is_new in
    let same : u ≡ t = ap (λ p. p.1) (ok-injective answered) in
    let answer = ap (λ p. p.0) (ok-injective answered) in
    (
      found,
      new,
      is_read,
      ap (λ r. r.events_processed) (sym answer),
      ap (λ r. r.alerts_created) (sym answer) ∙ pending.0,
      rows-flush_all sec decrypt dev fresh now T new s t law
          (subst (λ v. flush_all sec decrypt dev fresh now T new s ≡ ok v) same flushed),
      ap (λ r. r.alerts_created) answer,
      pending.1,
    )

-- Where the payload's device id is not the text of a UUID, as "self" is none, a single alarming
-- event makes the endpoint raise, so none of the payload's events is taken.
pub ingest_telemetry-eq-raised :
    (sec : Security) (decrypt : (nonce encrypted tag : String) → Option Data) (dev : Bool)
    (fresh : ℕ → Uuid) (now : Time) (T : Table Alert) (payload : TelemetryPayload)
    (api_key : Option String) (key : String) (s : T.Store) (found : Data)
    → validate_agent_api_key sec api_key ≡ ok key
    → read sec decrypt dev fresh now payload ≡ ok found
    → sec.parse_uuid payload.device_id ≡ none
    → any is_alarming (get_or found []) ≡ true
    → ingest_telemetry sec decrypt dev fresh now T payload api_key s ≡ err (raised "ValueError")
unfolding ingest_telemetry
ingest_telemetry-eq-raised sec decrypt dev fresh now T payload api_key key s found k r p a =
    rw
      (
        k,
        r,
        pending_alerts-raised sec decrypt dev fresh now payload.device_id 0 (get_or found []) p a,
      )
      refl
