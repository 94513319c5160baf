-- ===== src/Websocket.antt =====
-- backend/app/api/v1/websocket.py: the channels of connections and the endpoints that fill them.
-- A connection is a number. Whether a broadcast reaches it is a parameter; a pong always does.
pub mod Channels
use guardian_pi.Base.{
  ℕ, suc, ◌+◌, String, Bool, true, false, not, List, [], ◌∷◌, ◌++◌, Option, none, some, length,
  filter, any, nat_eq, lookup, insert, get_or, if◌then◌else◌,
}

-- self._connections: a set has each connection once.
abbrev pub Connections : Type 0
Connections = List (String × List ℕ)

abbrev pub no_connections : Connections
no_connections = ("alerts", []) ∷ ("devices", []) ∷ ("telemetry", []) ∷ []

-- self._connections.get(channel, set())
unfoldable pub members : String → Connections → List ℕ
members channel connections = get_or (lookup channel connections) []

-- set.add, set.discard
abbrev pub add_to : ℕ → List ℕ → List ℕ
add_to ws conns = if any (nat_eq ws) conns then conns else conns ++ ws ∷ []

abbrev pub discard : ℕ → List ℕ → List ℕ
discard ws conns = filter (λ c. not (nat_eq c ws)) conns

-- The connection after `accept`.
unfoldable pub connect : (ws : ℕ) (channel : String) → Connections → Connections
connect ws channel connections =
    insert channel (add_to ws (members channel connections)) connections

-- What is discarded from the set of a missing channel changes nothing.
abbrev pub discard_in : String → (List ℕ → List ℕ) → Option (List ℕ) → Connections → Connections
discard_in channel change none connections = connections
discard_in channel change (some conns) connections = insert channel (change conns) connections

unfoldable pub disconnect : (ws : ℕ) (channel : String) → Connections → Connections
disconnect ws channel connections =
    discard_in channel (discard ws) (lookup channel connections) connections

-- for ws in dead: ...discard(ws)
abbrev pub discard_all : List ℕ → List ℕ → List ℕ
discard_all [] conns = conns
discard_all (ws ∷ dead) conns = discard_all dead (discard ws conns)

-- Those of the targets whose send raised.
abbrev pub dead_of : (sends : ℕ → Bool) → List ℕ → List ℕ
dead_of sends targets = filter (λ ws. not (sends ws)) targets

-- A broadcast: the connections that the message was sent to, and the connections afterwards.
unfoldable pub broadcast : (sends : ℕ → Bool) → String → Connections → List ℕ × Connections
broadcast sends channel connections =
    let targets = members channel connections in
    (
      filter sends targets,
      discard_in channel (discard_all (dead_of sends targets)) (lookup channel connections)
          connections,
    )

abbrev pub total : Connections → ℕ
total [] = 0
total ((channel, conns) ∷ connections) = length conns + total connections

unfoldable pub active_count : Connections → ℕ
active_count connections = total connections

-- A message that a client of the alerts sends: a text that is no JSON, an object of type "ping",
-- another object, or JSON that is no object, which has no `get`; or a binary message, of which
-- `receive_text` raises KeyError.
pub data Incoming : Type 0 where
  no_json ping other_object no_object binary : Incoming

-- The loop up to the client's disconnection, which ends the list: the pongs that were sent, and
-- whether the loop ended by WebSocketDisconnect and not by another exception.
unfoldable pub receive : List Incoming → ℕ × Bool
receive [] = (0, true)
receive (ping ∷ texts) = let (pongs, clean) = receive texts in (suc pongs, clean)
receive (no_json ∷ texts) = receive texts
receive (other_object ∷ texts) = receive texts
receive (no_object ∷ texts) = (0, false)
receive (binary ∷ texts) = (0, false)

-- The endpoint from its start to its end, if nothing else happens meanwhile.
unfoldable pub alerts_websocket : (ws : ℕ) → List Incoming → Connections → ℕ × Connections
alerts_websocket ws texts connections =
    let opened = connect ws "alerts" connections in
    let (pongs, clean) = receive texts in
    (pongs, if clean then disconnect ws "alerts" opened else opened)

-- The endpoints of devices and of telemetry, which ignore what they receive.
unfoldable pub watch : (channel : String) (ws : ℕ) → Connections → Connections
watch channel ws connections = disconnect ws channel (connect ws channel connections)
