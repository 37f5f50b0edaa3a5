-- ===== src/Core/EventBus/State.antt =====
-- src/core/event-bus.ts: the state of a bus, its Set of subscriptions and its Map of clients.
use gstdbot.Common.{ℕ, String, ◌==◌, Bool, not, if◌then◌else◌, Option, List, [], ◌∷◌, any, select}

-- The `data` of the bus's own events, and that of a caller.
pub data Data : Type 0 where
  connected_data : String → String → ℕ → Data
  subscribed_data : List String → Data
  pong_data : ℕ → Data
  given : String → Data

pub record EventPayload : Type 0 where
  pub topic : String
  pub event : String
  pub data_of : Data
  pub timestamp : ℕ
  pub node_id : Option String

-- `is_open` says that the socket's `readyState` is OPEN.
pub record Client : Type 0 where
  pub id : String
  pub subscriptions : List String
  pub connected_at : ℕ
  pub last_ping : ℕ
  pub ip : Option String
  pub user_agent : Option String
  pub is_open : Bool

-- `clients` is the Map in insertion order.
pub record Bus : Type 0 where
  pub node_id : String
  pub clients : List Client
  pub event_log : List EventPayload

abbrev pub max_log_size : ℕ
max_log_size = 500

pub data Effect : Type 0 where
  sends : String → EventPayload → Effect
  emits : String → Effect
  pings terminates : String → Effect

abbrev pub new_bus : String → Bus
new_bus node = record { node_id = node; clients = []; event_log = [] }

-- The Set in insertion order.
unfoldable pub add : String → List String → List String
add t [] = t ∷ []
add t (x ∷ l) = if x == t then x ∷ l else x ∷ add t l

unfoldable pub add_all : List String → List String → List String
add_all [] l = l
add_all (t ∷ ts) l = add_all ts (add t l)

abbrev pub delete : String → List String → List String
delete t l = select (λ x. not (x == t)) l

unfoldable pub delete_all : List String → List String → List String
delete_all [] l = l
delete_all (t ∷ ts) l = delete_all ts (delete t l)

abbrev pub has : List String → String → Bool
has l t = any (λ x. x == t) l

unfoldable pub set_client : Client → List Client → List Client
set_client c [] = c ∷ []
set_client c (x ∷ l) = if x.id == c.id then c ∷ l else x ∷ set_client c l

-- The change of one client, where it is in the Map.
unfoldable pub on_client : String → (Client → Client) → List Client → List Client
on_client id f [] = []
on_client id f (c ∷ l) = if c.id == id then f c ∷ l else c ∷ on_client id f l
