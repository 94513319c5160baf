-- ===== src/Tests/Bus.antt =====
-- The event bus at a concrete server.
use guardian_pi.Base.{
  String, ◌<>◌, ◌==◌, ◌≡◌, refl, sym, Bool, true, false, not, List, [], ◌∷◌, ◌++◌, some, inl,
  get_or, if◌then◌else◌,
}
use guardian_pi.EventBus.{
  Nats, Fields, Json, Call, alert, telemetry, device_status, new_bus, connect, publish_all, handler,
}
use guardian_pi.EventBus.Relay.{IsNats, IsJson, Outcome, connect-Outcome}

-- A server that has its streams already, and takes no status.
abbrev accepts : String → Bool
accepts subject = not (subject == "guardian.devices.status")

abbrev nats : Nats
nats = record {
  Client = Unit;
  Server = List (String × String);
  installed = true;
  connecting = λ url s. (some tt, s);
  add_stream = λ c name subjects age bytes s. (false, s);
  publish = λ c subject payload s.
      (accepts subject, if accepts subject then s ++ (subject, payload) ∷ [] else s);
  subscribe = λ c subject durable s. (true, s);
  is_closed = λ c s. false;
  close = λ c s. (true, s);
}

nats-IsNats : IsNats nats
nats-IsNats = record {
  stored = λ s. s;
  stored-connecting = λ url s. refl;
  stored-add_stream = λ c name subjects age bytes s. refl;
  stored-publish = λ c subject payload s h. rw h refl;
  stored-raised = λ c subject payload s h. inl (rw h refl);
}

abbrev json : Json
json = record {
  Dict = String;
  object = λ f. f.type_of <> ":" <> get_or f.data_of "" <> "@" <> f.timestamp;
  dumps = λ content. some content;
  loads = λ payload. some payload;
}

json-IsJson : IsJson json
json-IsJson = record { loads-dumps = λ content payload h. sym h }

abbrev calls : List (Call json)
calls =
    alert "malware" "9:00" ∷ device_status "7" "offline" "9:01" ∷ telemetry "7" "cpu" "9:02" ∷ []

abbrev url : String
url = "nats://localhost:4222"

stored_calls :
    (let (bus, s) = connect nats url (new_bus nats) [] in publish_all nats json bus calls s)
    ≡ ("guardian.alerts.new", "new_alert:malware@9:00")
      ∷ ("guardian.telemetry.7", "telemetry:cpu@9:02")
      ∷ []
unfolding publish_all connect guardian_pi.EventBus.add_streams guardian_pi.EventBus.publish
    guardian_pi.EventBus.send guardian_pi.EventBus.publish_alert
    guardian_pi.EventBus.publish_telemetry guardian_pi.EventBus.publish_device_status
stored_calls = refl

connect-Outcome_example :
    Outcome nats json nats-IsNats json-IsJson calls [] (connect nats url (new_bus nats) [])
connect-Outcome_example = connect-Outcome nats json nats-IsNats json-IsJson url [] calls
