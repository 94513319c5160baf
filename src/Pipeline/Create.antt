-- ===== src/Pipeline/Create.antt =====
-- _create_alert: the keywords that it gives to the model, the commit, and the two channels.
use guardian_pi.Base.{
  ℕ, String, ◌≡◌, refl, ◌∙◌, ap, false, not, ◌&&◌, List, [], ◌∷◌, ◌++◌, Option, none, some,
  contains, ◌==◌, if◌then◌else◌, all, inl, inr, ◌⊎◌,
}
use guardian_pi.Db.{Uuid, Table}
use guardian_pi.Models.{Alert}
use guardian_pi.Detection.{Numbers, Texts}
use guardian_pi.Pipeline.{Event, Request, AlertData, Create, process_telemetry_batch}
use guardian_pi.Pipeline.Wanted.{process_telemetry_batch-eq, create_all_failing, wanted_all}

-- The attributes that the class Alert of backend/app/models/alert.py declares.
abbrev pub alert_attributes : List String
alert_attributes =
    "id" ∷ "device_id" ∷ "severity" ∷ "category" ∷ "title" ∷ "description" ∷ "evidence" ∷ "status"
    ∷ "acknowledged_by" ∷ "source" ∷ "mitre_tactic" ∷ "mitre_technique" ∷ "created_at"
    ∷ "resolved_at" ∷ "device" ∷ "remediation_actions" ∷ []

-- The keywords of the call Alert(...) in _create_alert.
abbrev pub create_keywords : List String
create_keywords =
    "device_id" ∷ "title" ∷ "description" ∷ "severity" ∷ "alert_type" ∷ "source" ∷ "details" ∷ []

-- What the call touches: the table, the WebSocket channel of alerts, and the subject of new alerts.
-- Sending on either does not raise: both catch the exceptions of a connection.
pub record Outlets (S : Type 0) : Type 0 where
  pub store : S
  pub broadcast : List AlertData
  pub published : List AlertData

-- SQLAlchemy's constructor of the model for a list of keywords, at the row's device id and the
-- request: `none` where it raises, and otherwise the row with its attribute alert_type.
abbrev pub Construct : Type 0
Construct = List String → Option Uuid → Request → Option (Alert × String)

-- SQLAlchemy raises TypeError for a keyword that is no attribute of the class.
pub record IsDeclarative (construct : Construct) : Type 0 where
  pub rejects :
      (keywords : List String) (device_id : Option Uuid) (r : Request)
      → all (contains alert_attributes) keywords ≡ false
      → construct keywords device_id r ≡ none

module _ (parse_uuid : String → Option Uuid) (construct : Construct) (T : Table Alert) where
  -- UUID(device_id) if device_id and device_id != "self" else None; the outer `none` is ValueError
  abbrev pub device_of : String → Option (Option Uuid)
  device_of device_id =
      if not (device_id == "") && not (device_id == "self")
      then elim (parse_uuid device_id) [ none ↦ none | some id ↦ some (some id) ]
      else some none

  abbrev pub alert_data : Alert → String → Request → AlertData
  alert_data alert alert_type r = record {
    id = alert.id;
    title = alert.title;
    severity = alert.severity;
    alert_type = alert_type;
    device_id = r.device_id;
    details = r.details;
    created_at = alert.created_at;
  }

  -- The constructed alert; `none` is an exception in an argument or in the constructor.
  abbrev pub built : Request → Option (Option Uuid) → Option (Alert × String)
  built r none = none
  built r (some device_id) = construct create_keywords device_id r

  -- await db.commit() and what follows it
  abbrev pub committed :
      Request
      → Alert
      → String
      → Outlets T.Store
      → Option T.Store
      → Option AlertData × Outlets T.Store
  committed r alert alert_type o none = (none, o)
  committed r alert alert_type o (some store) =
      let d = alert_data alert alert_type r in
      (
        some d,
        record {
          store = store;
          broadcast = o.broadcast ++ d ∷ [];
          published = o.published ++ d ∷ [];
        },
      )

  abbrev pub stored :
      Request → Outlets T.Store → Option (Alert × String) → Option AlertData × Outlets T.Store
  stored r o none = (none, o)
  stored r o (some (alert, alert_type)) = committed r alert alert_type o (T.add alert o.store)

  -- The exception handler returns None; what was not committed is gone.
  unfoldable pub create_alert : Create (Outlets T.Store)
  create_alert r o = stored r o (built r (device_of r.device_id))

  built-eq-none :
      IsDeclarative construct → (r : Request) (d : Option (Option Uuid)) → built r d ≡ none
  built-eq-none declarative r none = refl
  built-eq-none declarative r (some id) = declarative.rejects create_keywords id r refl

  create_alert-eq-none :
      IsDeclarative construct → (r : Request) (o : Outlets T.Store) → create_alert r o ≡ (none, o)
  unfolding create_alert
  create_alert-eq-none d r o = ap (stored r o) (built-eq-none d r (device_of r.device_id))

  -- A reply with what the call leaves: nothing at all, or one row more and its data on both channels.
  abbrev IsAllOrNothing : Outlets T.Store → Option AlertData × Outlets T.Store → Type 0
  IsAllOrNothing o reply =
      (reply ≡ (none, o))
      ⊎ ((alert : Alert) × (d : AlertData) × (T.add alert o.store ≡ some reply.1.store)
          × (reply.0 ≡ some d)
          × (reply.1.broadcast ≡ o.broadcast ++ d ∷ [])
          × (reply.1.published ≡ o.published ++ d ∷ []))

  committed-IsAllOrNothing :
      (r : Request) (a : Alert) (k : String) (o : Outlets T.Store) (s : Option T.Store)
      → T.add a o.store ≡ s
      → IsAllOrNothing o (committed r a k o s)
  committed-IsAllOrNothing r a k o none e = inl refl
  committed-IsAllOrNothing r a k o (some s) e = inr (a, alert_data a k r, e, refl, refl, refl)

  stored-IsAllOrNothing :
      (r : Request) (o : Outlets T.Store) (b : Option (Alert × String))
      → IsAllOrNothing o (stored r o b)
  stored-IsAllOrNothing r o none = inl refl
  stored-IsAllOrNothing r o (some (a, k)) = committed-IsAllOrNothing r a k o (T.add a o.store) refl

  -- Creating an alert leaves everything as it was and returns nothing, or it stores one row and sends
  -- the same data on, once over the WebSocket channel and once over the bus, and returns it.
  pub create_alert_cases :
      (r : Request) (o : Outlets T.Store)
      → (create_alert r o ≡ (none, o))
        ⊎ ((alert : Alert) × (d : AlertData) × (T.add alert o.store
              ≡ some (create_alert r o).1.store)
            × ((create_alert r o).0 ≡ some d)
            × ((create_alert r o).1.broadcast ≡ o.broadcast ++ d ∷ [])
            × ((create_alert r o).1.published ≡ o.published ++ d ∷ []))
  unfolding create_alert
  create_alert_cases r o = stored-IsAllOrNothing r o (built r (device_of r.device_id))

-- With the model that the repository declares, no batch ever creates an alert: two keywords of the
-- call are no attributes of Alert, so every creation raises, and nothing is stored, broadcast or
-- published.
pub process_telemetry_batch-create_alert :
    (N : Numbers) (T : Texts) (str : ℕ → String) (device_id : String)
    (parse_uuid : String → Option Uuid) (construct : Construct) (alerts : Table Alert)
    (events : List (Event N)) (o : Outlets alerts.Store)
    → IsDeclarative construct
    → process_telemetry_batch N T str device_id (create_alert parse_uuid construct alerts) events o
      ≡ ([], o)
process_telemetry_batch-create_alert N T str device_id parse_uuid construct alerts events o d =
    process_telemetry_batch-eq N T str device_id (create_alert parse_uuid construct alerts) events o
    ∙ create_all_failing (create_alert parse_uuid construct alerts)
        (wanted_all N T str device_id events) o (create_alert-eq-none parse_uuid construct alerts d)
