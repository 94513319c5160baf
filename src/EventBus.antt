-- ===== src/EventBus.antt =====
-- backend/app/services/event_bus.py: NATSEventBus. The client library of NATS and JSON are parameters.
-- A result `false` or `none` of theirs is an exception.
pub mod Relay
use guardian_pi.Base.{
  ℕ, ◌*◌, String, ◌<>◌, ◌≡◌, Bool, true, false, List, [], ◌∷◌, Option, none, some, if◌then◌else◌,
}

abbrev pub streams : List (String × List String)
streams =
    ("GUARDIAN_ALERTS", "guardian.alerts.>" ∷ [])
    ∷ ("GUARDIAN_TELEMETRY", "guardian.telemetry.>" ∷ [])
    ∷ ("GUARDIAN_DEVICES", "guardian.devices.>" ∷ [])
    ∷ []

-- Seconds, bytes.
abbrev max_age : ℕ
max_age = 86400 * 7

abbrev max_bytes : ℕ
max_bytes = 1024 * 1024 * 512

-- Server: what NATS holds, to which each call leads.
pub record Nats : Type 1 where
  pub Client : Type 0
  pub Server : Type 0
  -- whether `import nats` finds the library
  pub installed : Bool
  pub connecting : (url : String) → Server → Option Client × Server
  pub add_stream :
      Client
      → (name : String) → (subjects : List String) → (max_age max_bytes : ℕ) → Server
      → Bool × Server
  pub publish : Client → (subject payload : String) → Server → Bool × Server
  pub subscribe : Client → (subject durable : String) → Server → Bool × Server
  pub is_closed : Client → Server → Bool
  pub close : Client → Server → Bool × Server

-- Dict: a dict with text keys and values that JSON has. Alerts and telemetry are such dicts; `object`
-- makes one of what an event is published with.
pub record Event (Dict : Type 0) : Type 0 where
  pub subject : String
  pub content : Dict

-- The keys "type", "device_id", "data", "status" and "timestamp" of an event's dict.
pub record Fields (Dict : Type 0) : Type 0 where
  pub type_of : String
  pub device_id : Option String
  pub data_of : Option Dict
  pub status : Option String
  pub timestamp : String

pub record Json : Type 1 where
  pub Dict : Type 0
  pub object : Fields Dict → Dict
  pub dumps : Dict → Option String
  pub loads : String → Option Dict

module _ (J : Json) where
  abbrev pub alert_event : (alert_data : J.Dict) (now : String) → Event J.Dict
  alert_event alert_data now = record {
    subject = "guardian.alerts.new";
    content = J.object (record {
      type_of = "new_alert";
      device_id = none;
      data_of = some alert_data;
      status = none;
      timestamp = now;
    });
  }

  abbrev pub telemetry_event :
      (device_id : String) (telemetry_data : J.Dict) (now : String) → Event J.Dict
  telemetry_event device_id telemetry_data now = record {
    subject = "guardian.telemetry." <> device_id;
    content = J.object (record {
      type_of = "telemetry";
      device_id = some device_id;
      data_of = some telemetry_data;
      status = none;
      timestamp = now;
    });
  }

  abbrev pub device_status_event : (device_id status now : String) → Event J.Dict
  device_status_event device_id status now = record {
    subject = "guardian.devices.status";
    content = J.object (record {
      type_of = "device_status";
      device_id = some device_id;
      data_of = none;
      status = some status;
      timestamp = now;
    });
  }

  -- What the application publishes, and when.
  pub data Call : Type 0 where
    alert : (alert_data : J.Dict) (now : String) → Call
    telemetry : (device_id : String) (telemetry_data : J.Dict) (now : String) → Call
    device_status : (device_id status now : String) → Call

  abbrev pub event_of : Call → Event J.Dict
  event_of (alert alert_data now) = alert_event alert_data now
  event_of (telemetry device_id telemetry_data now) = telemetry_event device_id telemetry_data now
  event_of (device_status device_id status now) = device_status_event device_id status now

  abbrev handled : {S : Type 0} → (J.Dict → S → Bool × S) → S → Option J.Dict → Bool × S
  handled callback s none = (false, s)
  handled callback s (some content) = callback content s

  -- A subscriber's handler of one message: whether it calls msg.ack, and the state that the callback
  -- left. A callback that raises may have changed the state.
  unfoldable pub handler :
      {S : Type 0} → (callback : J.Dict → S → Bool × S) → (payload : String) → S → Bool × S
  handler callback payload s = handled callback s (J.loads payload)

module _ (N : Nats) where
  -- self._nc and self._js, the context of the same client.
  pub record Bus : Type 0 where
    pub nc : Option N.Client
    pub js : Option N.Client

  abbrev pub new_bus : Bus
  new_bus = record { nc = none; js = none }

  -- A stream that exists raises, and the others are still added.
  unfoldable pub add_streams : N.Client → List (String × List String) → N.Server → N.Server
  add_streams c [] s = s
  add_streams c ((name, subjects) ∷ rest) s =
      add_streams c rest (N.add_stream c name subjects max_age max_bytes s).1

  abbrev pub opened : Bus → Option N.Client × N.Server → Bus × N.Server
  opened bus (none, s) = (bus, s)
  opened bus (some c, s) = (record { nc = some c; js = some c }, add_streams c streams s)

  unfoldable pub connect : (url : String) → Bus → N.Server → Bus × N.Server
  connect url bus s = if N.installed then opened bus (N.connecting url s) else (bus, s)

  abbrev close_open : N.Server → Option N.Client → Bool × N.Server
  close_open s none = (true, s)
  close_open s (some c) = if N.is_closed c s then (true, s) else N.close c s

  -- Whether it returns, and the server. The bus keeps its client.
  unfoldable pub disconnect : Bus → N.Server → Bool × N.Server
  disconnect bus s = close_open s bus.nc

  abbrev subscribed : (subject : String) → N.Server → Option N.Client → Bool × N.Server
  subscribed subject s none = (true, s)
  subscribed subject s (some c) = N.subscribe c subject "guardian-api" s

  -- Whether it returns, and the server.
  unfoldable pub subscribe : Bus → (subject : String) → N.Server → Bool × N.Server
  subscribe bus subject s = subscribed subject s bus.js

  module _ (J : Json) where
    unfoldable pub send : N.Client → (subject : String) → Option String → N.Server → N.Server
    send c subject none s = s
    send c subject (some payload) s = (N.publish c subject payload s).1

    -- Every exception is caught.
    unfoldable pub publish : Option N.Client → Event J.Dict → N.Server → N.Server
    publish none e s = s
    publish (some c) e s = send c e.subject (J.dumps e.content) s

    unfoldable pub publish_alert : Bus → (alert_data : J.Dict) (now : String) → N.Server → N.Server
    publish_alert bus alert_data now s = publish bus.js (alert_event J alert_data now) s

    unfoldable pub publish_telemetry :
        Bus → (device_id : String) (telemetry_data : J.Dict) (now : String) → N.Server → N.Server
    publish_telemetry bus device_id telemetry_data now s =
        publish bus.js (telemetry_event J device_id telemetry_data now) s

    unfoldable pub publish_device_status :
        Bus → (device_id status now : String) → N.Server → N.Server
    publish_device_status bus device_id status now s =
        publish bus.js (device_status_event J device_id status now) s

    abbrev pub publish_call : Bus → Call J → N.Server → N.Server
    publish_call bus (alert alert_data now) s = publish_alert bus alert_data now s
    publish_call bus (telemetry device_id telemetry_data now) s =
        publish_telemetry bus device_id telemetry_data now s
    publish_call bus (device_status device_id status now) s =
        publish_device_status bus device_id status now s

    unfoldable pub publish_all : Bus → List (Call J) → N.Server → N.Server
    publish_all bus [] s = s
    publish_all bus (call ∷ calls) s = publish_all bus calls (publish_call bus call s)
