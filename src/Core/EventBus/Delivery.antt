-- ===== src/Core/EventBus/Delivery.antt =====
-- src/core/event-bus.ts: whom a broadcast is sent to.
use gstdbot.Common.{
  ℕ, String, ◌==◌, eq_iff, eq_refl, Bool, true, false, ◌||◌, some, List, filter_map, any_sound,
  any_complete, arith, ◌≡◌, sym, ap, ◌∙◌, ◌⊎◌, inl, inr, ◌↔◌, Memᴰ, Memᴰ-cons, Memᴰ-filter_map,
  Memᴰ-filter_map_of, Bool-cases, or-true,
}
use gstdbot.Core.EventBus.{
  EventPayload, Client, Bus, Effect, sends, emits, pings, terminates, has, topic_event, matches,
  payload_of, push_to, broadcast,
}

has_sound : (l : List String) (t : String) → has l t ≡ true → Memᴰ t l
has_sound l t h = let (x, m, e) = any_sound (λ x. x == t) l h in rw ((eq_iff x t).0 e) at m

has_complete : (l : List String) (t : String) → Memᴰ t l → has l t ≡ true
has_complete l t m = any_complete (λ x. x == t) m (eq_refl t)

-- Some subscription is to everything, to the topic or to this event of it.
abbrev pub IsSubscribed : String → String → Client → Type 0
IsSubscribed topic event c =
    Memᴰ "*" c.subscriptions
    ⊎ Memᴰ topic c.subscriptions
    ⊎ Memᴰ (topic_event topic event) c.subscriptions

matches_sound :
    (topic event : String) (c : Client) → matches topic event c ≡ true → IsSubscribed topic event c
unfolding matches
matches_sound topic event c h =
    elim (or-true {a = has c.subscriptions "*" || has c.subscriptions topic} h) [
      | inr e ↦ inr (inr (has_sound c.subscriptions (topic_event topic event) e))
      | inl k ↦ elim (or-true {a = has c.subscriptions "*"} k) [
        | inl e ↦ inl (has_sound c.subscriptions "*" e)
        | inr e ↦ inr (inl (has_sound c.subscriptions topic e))
      ]
    ]

matches_complete :
    (topic event : String) (c : Client) → IsSubscribed topic event c → matches topic event c ≡ true
unfolding matches
matches_complete topic event c (inl m) = ground (arith, has_complete c.subscriptions "*" m)
matches_complete topic event c (inr (inl m)) = ground (arith, has_complete c.subscriptions topic m)
matches_complete topic event c (inr (inr m)) =
    ground (arith, has_complete c.subscriptions (topic_event topic event) m)

push_to_sound :
    (p : EventPayload) (c : Client) {x : Effect}
    → push_to p c ≡ some x
    → (c.is_open ≡ true) × IsSubscribed p.topic p.event c × (sends c.id p ≡ x)
push_to_sound p c {x} h = elim (Bool-cases c.is_open) [
  | inr e ↦ absurd (ground arith)
  | inl e ↦ elim (Bool-cases (matches p.topic p.event c)) [
    | inr f ↦ absurd (ground arith)
    | inl f ↦ (e, matches_sound p.topic p.event c f, ground arith)
  ]
]

push_to_complete :
    (p : EventPayload) (c : Client)
    → c.is_open ≡ true
    → IsSubscribed p.topic p.event c
    → push_to p c ≡ some (sends c.id p)
push_to_complete p c up s = ground (arith, up, matches_complete p.topic p.event c s)

-- The id and the payload of an effect that sends.
abbrev sent_id : String → Effect → String
sent_id id (sends i p) = i
sent_id id (emits name) = id
sent_id id (pings i) = id
sent_id id (terminates i) = id

abbrev sent_payload : EventPayload → Effect → EventPayload
sent_payload q (sends i p) = p
sent_payload q (emits name) = q
sent_payload q (pings i) = q
sent_payload q (terminates i) = q

abbrev is_send : Effect → Bool
is_send (sends i p) = true
is_send (emits name) = false
is_send (pings i) = false
is_send (terminates i) = false

send_apart : true ≡ false → ⊥
send_apart h = cc

-- A broadcast sends to a client id exactly where a client of the Map with that id has an open socket
-- and is subscribed to everything, to the topic or to the event, and what it sends is the event with
-- the node's id and the time.
pub broadcast-IsSubscribed :
    (now : ℕ) (topic event d id : String) (q : EventPayload) (b : Bus)
    → Memᴰ (sends id q) (broadcast now topic event d b).1 ↔ (
        (c : Client) × Memᴰ c b.clients
        × (c.id ≡ id)
        × (c.is_open ≡ true)
        × IsSubscribed topic event c
        × (q ≡ payload_of now topic event d b))
broadcast-IsSubscribed now topic event d id q b = (sound, complete)
  where
    p : EventPayload
    p = payload_of now topic event d b

    pushed :
        Memᴰ (sends id q) (broadcast now topic event d b).1
        → Memᴰ (sends id q) (filter_map (push_to p) b.clients)
    pushed m = elim (Memᴰ-cons m) [
      | inl e ↦ absurd (send_apart (ap is_send e))
      | inr k ↦ elim (Memᴰ-cons k) [ inl e ↦ absurd (send_apart (ap is_send e)) | inr n ↦ n ]
    ]

    sound :
        Memᴰ (sends id q) (broadcast now topic event d b).1
        → (c : Client) × Memᴰ c b.clients
          × (c.id ≡ id)
          × (c.is_open ≡ true)
          × IsSubscribed topic event c
          × (q ≡ payload_of now topic event d b)
    sound m =
        let (c, n, h) = Memᴰ-filter_map (push_to p) b.clients (pushed m) in
        let (up, s, e) = push_to_sound p c h in
        (c, n, ap (sent_id id) e, up, s, sym (ap (sent_payload q) e))

    complete :
        (c : Client) × Memᴰ c b.clients
          × (c.id ≡ id)
          × (c.is_open ≡ true)
          × IsSubscribed topic event c
          × (q ≡ payload_of now topic event d b)
        → Memᴰ (sends id q) (broadcast now topic event d b).1
    complete (c, n, e, up, s, f) = Memᴰ.tail (
        Memᴰ.tail (
          Memᴰ-filter_map_of (push_to p) n
            (push_to_complete p c up s ∙ (λ i. some (sends (e i) (sym f i))))))
