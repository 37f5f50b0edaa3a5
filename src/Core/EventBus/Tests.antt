-- ===== src/Core/EventBus/Tests.antt =====
-- src/core/event-bus.ts: the theorems applied to a bus with two clients.
use gstdbot.Common.{latest, ℕ, true, none, some, List, [], ◌∷◌, arith, ◌≡◌, ◌↔◌, Memᴰ}
use gstdbot.Core.EventBus.{
  Client, Bus, new_bus, sends, Event, connects, says, broadcasts, subscribe, unsubscribe,
  payload_of, broadcast, get_event_log, run,
}
use gstdbot.Core.EventBus.Log.{broadcast_in, get_event_log-run}
use gstdbot.Core.EventBus.Delivery.{IsSubscribed, broadcast-IsSubscribed}

abbrev events : List (ℕ × Event)
events =
    (1, connects "a" none none)
    ∷ (2, connects "b" none none)
    ∷ (3, says "b" (unsubscribe (some ("*" ∷ []))))
    ∷ (4, says "b" (subscribe (some ("node:up" ∷ []))))
    ∷ (5, broadcasts "node" "up" "{}")
    ∷ (6, broadcasts "chat" "said" "{}")
    ∷ []

abbrev bus : Bus
bus = run events (new_bus "n")

abbrev client : Client
client = record {
  id = "b";
  subscriptions = "node:up" ∷ [];
  connected_at = 2;
  last_ping = 2;
  ip = none;
  user_agent = none;
  is_open = true;
}

get_event_log-run_example :
    get_event_log 1 (run events (new_bus "n")) ≡ latest 1 (broadcast_in "n" events)
get_event_log-run_example = get_event_log-run "n" events 1 (omega arith) (omega arith)

broadcast-IsSubscribed_example :
    Memᴰ (sends "b" (payload_of 9 "node" "up" "{}" bus)) (broadcast 9 "node" "up" "{}" bus).1 ↔ (
      (c : Client) × Memᴰ c bus.clients
      × (c.id ≡ "b")
      × (c.is_open ≡ true)
      × IsSubscribed "node" "up" c
      × (payload_of 9 "node" "up" "{}" bus ≡ payload_of 9 "node" "up" "{}" bus))
broadcast-IsSubscribed_example =
    broadcast-IsSubscribed 9 "node" "up" "{}" "b" (payload_of 9 "node" "up" "{}" bus) bus
