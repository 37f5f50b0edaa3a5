-- ===== src/Core/EventBus.antt =====
-- src/core/event-bus.ts: the class NodeEventBus. Each operation gives the bus after it and what it
-- does to the sockets and the listeners. Sockets, `readyState` and the clock are node's; a time
-- stands for its ISO text. The ids of new clients come from outside.
mod State
pub mod Log
pub mod Delivery
pub mod Clients
pub mod Subscriptions
mod Tests
unfoldable pub use State.*
use gstdbot.Common.{
  ℕ, ◌+◌, ◌-◌, ltb, eqb, length, drop, String, ◌==◌, Bool, true, false, not, ◌&&◌, ◌||◌,
  if◌then◌else◌, Option, none, some, List, [], ◌∷◌, ◌++◌, map, filter_map, any, select,
}

abbrev pub system : ℕ → String → Data → EventPayload
system now event d = record {
  topic = "system";
  event = event;
  data_of = d;
  timestamp = now;
  node_id = none;
}

abbrev pub new_client : ℕ → String → Option String → Option String → Client
new_client now id ip agent = record {
  id = id;
  subscriptions = "*" ∷ [];
  connected_at = now;
  last_ping = now;
  ip = ip;
  user_agent = agent;
  is_open = true;
}

abbrev pub connection : ℕ → String → Option String → Option String → Bus → Bus × List Effect
connection now id ip agent b = (
  record b { clients = set_client (new_client now id ip agent) b.clients },
  emits "ws:connect" ∷ sends id (system now "connected" (connected_data id b.node_id now)) ∷ [],
)

abbrev pub close : String → Bus → Bus × List Effect
close id b = (
  record b { clients = select (λ (c : Client). not (c.id == id)) b.clients },
  emits "ws:disconnect" ∷ [],
)

abbrev pub ponged : ℕ → Client → Client
ponged now c = record c { last_ping = now }

abbrev pub pong : ℕ → String → Bus → Bus × List Effect
pong now id b = (record b { clients = on_client id (ponged now) b.clients }, [])

-- The heartbeat's test, and what it does to one client.
abbrev pub is_stale : ℕ → Client → Bool
is_stale now c = ltb 60000 (now - c.last_ping)

abbrev pub beat : ℕ → Client → Option Effect
beat now c =
    if is_stale now c then some (terminates c.id) else if c.is_open then some (pings c.id) else none

abbrev pub heartbeat : ℕ → Bus → Bus × List Effect
heartbeat now b = (
  record b { clients = select (λ (c : Client). not (is_stale now c)) b.clients },
  filter_map (beat now) b.clients,
)

-- What a client may send; `topics` may be missing.
pub data Message : Type 0 where
  subscribe unsubscribe : Option (List String) → Message
  ping other : Message

abbrev pub topics_of : Option (List String) → List String
topics_of none = []
topics_of (some ts) = ts

abbrev pub heard : Message → Client → Client
heard (subscribe ts) c = record c { subscriptions = add_all (topics_of ts) c.subscriptions }
heard (unsubscribe ts) c = record c { subscriptions = delete_all (topics_of ts) c.subscriptions }
heard ping c = c
heard other c = c

abbrev pub answer : ℕ → Message → Client → List Effect
answer now (subscribe ts) c =
    sends c.id (system now "subscribed" (subscribed_data (heard (subscribe ts) c).subscriptions))
    ∷ []
answer now (unsubscribe ts) c = []
answer now ping c = sends c.id (system now "pong" (pong_data now)) ∷ []
answer now other c = []

abbrev pub handle_client_message : ℕ → Message → Client → Client × List Effect
handle_client_message now m c = (heard m c, answer now m c)

unfoldable pub answers : ℕ → Message → String → List Client → List Effect
answers now m id [] = []
answers now m id (c ∷ l) =
    if c.id == id then (handle_client_message now m c).1 else answers now m id l

abbrev pub message : ℕ → Message → String → Bus → Bus × List Effect
message now m id b = (
  record b { clients = on_client id (λ c. (handle_client_message now m c).0) b.clients },
  answers now m id b.clients,
)

-- `slice(-n)`, of which `slice(-0)` is the whole.
abbrev pub slice_last {ℓ} : {A : Type ℓ} → ℕ → List A → List A
slice_last n l = if eqb n 0 then l else drop (length l - n) l

abbrev pub push_log : EventPayload → List EventPayload → List EventPayload
push_log p l =
    if ltb max_log_size (length (l ++ p ∷ []))
    then slice_last max_log_size (l ++ p ∷ [])
    else l ++ p ∷ []

unfoldable pub topic_event : String → String → String
topic_event topic event = Prim.Native.String.◌++◌ topic (Prim.Native.String.◌++◌ ":" event)

unfoldable pub matches : String → String → Client → Bool
matches topic event c =
    has c.subscriptions "*"
    || has c.subscriptions topic
    || has c.subscriptions (topic_event topic event)

abbrev pub payload_of : ℕ → String → String → String → Bus → EventPayload
payload_of now topic event d b = record {
  topic = topic;
  event = event;
  data_of = given d;
  timestamp = now;
  node_id = some b.node_id;
}

abbrev pub push_to : EventPayload → Client → Option Effect
push_to p c =
    if not c.is_open then none else if matches p.topic p.event c then some (sends c.id p) else none

abbrev pub broadcast : ℕ → String → String → String → Bus → Bus × List Effect
broadcast now topic event d b =
    let p = payload_of now topic event d b in
    (
      record b { event_log = push_log p b.event_log },
      emits (topic_event topic event) ∷ emits "event" ∷ filter_map (push_to p) b.clients,
    )

abbrev pub get_event_log : ℕ → Bus → List EventPayload
get_event_log limit b = slice_last limit b.event_log

abbrev pub get_clients : Bus → List (String × List String × ℕ)
get_clients b = map (λ (c : Client). (c.id, c.subscriptions, c.connected_at)) b.clients

abbrev pub get_client_count : Bus → ℕ
get_client_count b = length b.clients

abbrev pub destroy : Bus → Bus × List Effect
destroy b = (record b { clients = [] }, map (λ (c : Client). terminates c.id) b.clients)

-- What may happen to a bus.
pub data Event : Type 0 where
  connects : String → Option String → Option String → Event
  closes pongs : String → Event
  says : String → Message → Event
  socket : String → Bool → Event
  beats destroys : Event
  broadcasts : String → String → String → Event

abbrev pub ready_state : Bool → Client → Client
ready_state up c = record c { is_open = up }

abbrev pub step : ℕ → Event → Bus → Bus × List Effect
step now (connects id ip agent) b = connection now id ip agent b
step now (closes id) b = close id b
step now (pongs id) b = pong now id b
step now (says id m) b = message now m id b
step now (socket id up) b = (record b { clients = on_client id (ready_state up) b.clients }, [])
step now beats b = heartbeat now b
step now destroys b = destroy b
step now (broadcasts topic event d) b = broadcast now topic event d b

unfoldable pub run : List (ℕ × Event) → Bus → Bus
run [] b = b
run ((now, e) ∷ es) b = run es (step now e b).0
