-- ===== src/Core/EventBus/Clients.antt =====
-- src/core/event-bus.ts: the Map of clients, through the runs of a bus.
use gstdbot.Common.{
  ℕ, ◌+◌, ◌≤◌, ◌<◌, String, ◌==◌, eq_iff, true, not, ◌&&◌, Option, none, some, List, [], ◌∷◌, map,
  filter_map, select, arith, ◌≡◌, refl, sym, ap, ◌⊎◌, inl, inr, ◌↔◌, Memᴰ, Memᴰ-cons, Memᴰ-select,
  Memᴰ-select_of, Memᴰ-filter_map, Memᴰ-filter_map_of, Bool-cases, Distinct, Distinct-map-select,
  subst,
}
use gstdbot.Core.EventBus.{
  EventPayload, Client, Bus, new_bus, Effect, sends, emits, pings, terminates, set_client,
  on_client, new_client, ponged, is_stale, beat, heartbeat, handle_client_message, Event, connects,
  closes, pongs, says, socket, beats, destroys, broadcasts, ready_state, matches, push_to,
  broadcast, payload_of, step, run, heard, subscribe, unsubscribe, ping, other, Message,
}

beat-terminates :
    (now : ℕ) (c : Client) (id : String)
    → beat now c ≡ some (terminates id)
    → (c.id ≡ id) × (c.last_ping + 60000 < now)
beat-terminates now c id h = elim (Bool-cases (is_stale now c)) [
  | inl e ↦ (ground arith, ground arith)
  | inr e ↦ elim (Bool-cases c.is_open) [
    | inl f ↦ absurd (ground arith)
    | inr f ↦ absurd (ground arith)
  ]
]

-- A client is still there after a heartbeat exactly where it was there and its last pong (or its
-- connection) is not more than 60 s old, and the heartbeat terminates the sockets of the others.
pub heartbeat-60000 :
    (now : ℕ) (b : Bus)
    → ((c : Client)
        → Memᴰ c (heartbeat now b).0.clients ↔ Memᴰ c b.clients × (now ≤ c.last_ping + 60000))
      × ((id : String)
          → Memᴰ (terminates id) (heartbeat now b).1
            ↔ ((c : Client) × Memᴰ c b.clients × (c.id ≡ id) × (c.last_ping + 60000 < now)))
heartbeat-60000 now b = (kept, ended)
  where
    kept :
        (c : Client)
        → Memᴰ c (heartbeat now b).0.clients ↔ Memᴰ c b.clients × (now ≤ c.last_ping + 60000)
    kept c = (
      λ m.
          let (k, h) = Memᴰ-select (λ (x : Client). not (is_stale now x)) b.clients m in
          (k, ground arith),
      λ (m, h). Memᴰ-select_of (λ (x : Client). not (is_stale now x)) m (ground arith),
    )

    ended :
        (id : String)
        → Memᴰ (terminates id) (heartbeat now b).1
          ↔ ((c : Client) × Memᴰ c b.clients × (c.id ≡ id) × (c.last_ping + 60000 < now))
    ended id = (
      λ m.
          let (c, n, h) = Memᴰ-filter_map (beat now) b.clients m in
          let (e, k) = beat-terminates now c id h in (c, n, e, k),
      λ (c, m, e, k). Memᴰ-filter_map_of (beat now) m (
          let stale : is_stale now c ≡ true = ground arith in
          rw stale (λ i. some (terminates (e i)))),
    )

map-id-on_client :
    (id : String) (f : Client → Client) (l : List Client)
    → ((c : Client) → (f c).id ≡ c.id)
    → map (λ (c : Client). c.id) (on_client id f l) ≡ map (λ (c : Client). c.id) l
unfolding on_client
map-id-on_client id f [] same = refl
map-id-on_client id f (c ∷ l) same = elim (Bool-cases (c.id == id)) [
  | inl e ↦ rw e (λ i. same c i ∷ map (λ (x : Client). x.id) l)
  | inr e ↦ rw e (λ i. c.id ∷ map-id-on_client id f l same i)
]

Memᴰ-set_client :
    (c : Client) (l : List Client) {id : String}
    → Memᴰ id (map (λ (x : Client). x.id) (set_client c l))
    → (id ≡ c.id) ⊎ Memᴰ id (map (λ (x : Client). x.id) l)
unfolding set_client
Memᴰ-set_client c [] m = Memᴰ-cons m
Memᴰ-set_client c (x ∷ l) m = elim (Bool-cases (x.id == c.id)) [
  | inl e ↦ elim (Memᴰ-cons (rw e at m)) [ inl h ↦ inl h | inr k ↦ inr (Memᴰ.tail k) ]
  | inr e ↦ elim (Memᴰ-cons (rw e at m)) [
    | inl h ↦ inr (Memᴰ.head h)
    | inr k ↦ elim (Memᴰ-set_client c l k) [ inl h ↦ inl h | inr n ↦ inr (Memᴰ.tail n) ]
  ]
]

-- The ids of the clients in the Map are distinct.
abbrev pub HasDistinctIds : Bus → Type 0
HasDistinctIds b = Distinct (map (λ (c : Client). c.id) b.clients)

Distinct-set_client :
    (c : Client) (l : List Client)
    → Distinct (map (λ (x : Client). x.id) l)
    → Distinct (map (λ (x : Client). x.id) (set_client c l))
unfolding set_client
Distinct-set_client c [] d = (λ m. elim m [ ], tt)
Distinct-set_client c (x ∷ l) d = elim (Bool-cases (x.id == c.id)) [
  | inl e ↦
      let same : x.id ≡ c.id = (eq_iff x.id c.id).0 e in rw e (λ m. d.0 (rw (← same) at m), d.1)
  | inr e ↦ rw e (
    λ m. elim (Memᴰ-set_client c l m) [
      | inl h ↦ absurd (ground (arith, (eq_iff x.id c.id).1 h))
      | inr k ↦ d.0 k
    ],
    Distinct-set_client c l d.1,
  )
]

heard-id : (m : Message) (c : Client) → (heard m c).id ≡ c.id
heard-id (subscribe ts) c = refl
heard-id (unsubscribe ts) c = refl
heard-id ping c = refl
heard-id other c = refl

step-HasDistinctIds :
    (now : ℕ) (e : Event) (b : Bus) → HasDistinctIds b → HasDistinctIds (step now e b).0
step-HasDistinctIds now (connects id ip agent) b d =
    Distinct-set_client (new_client now id ip agent) b.clients d
step-HasDistinctIds now (closes id) b d =
    Distinct-map-select (λ (c : Client). c.id) (λ (c : Client). not (c.id == id)) b.clients d
step-HasDistinctIds now (pongs id) b d =
    subst Distinct (sym (map-id-on_client id (ponged now) b.clients (λ c. refl))) d
step-HasDistinctIds now (says id m) b d =
    subst Distinct
      (sym (map-id-on_client id (λ c. (handle_client_message now m c).0) b.clients (heard-id m))) d
step-HasDistinctIds now (socket id up) b d =
    subst Distinct (sym (map-id-on_client id (ready_state up) b.clients (λ c. refl))) d
step-HasDistinctIds now beats b d =
    Distinct-map-select (λ (c : Client). c.id) (λ (c : Client). not (is_stale now c)) b.clients d
step-HasDistinctIds now destroys b d = tt
step-HasDistinctIds now (broadcasts topic event x) b d = d

run-HasDistinctIds :
    (es : List (ℕ × Event)) (b : Bus) → HasDistinctIds b → HasDistinctIds (run es b)
unfolding run
run-HasDistinctIds [] b d = d
run-HasDistinctIds ((now, e) ∷ es) b d =
    run-HasDistinctIds es (step now e b).0 (step-HasDistinctIds now e b d)

abbrev receiver : Effect → Option String
receiver (sends id p) = some id
receiver (emits name) = none
receiver (pings id) = none
receiver (terminates id) = none

-- The ids that some effects send to, once for each that sends.
abbrev pub receivers : List Effect → List String
receivers l = filter_map receiver l

receivers-push_to :
    (p : EventPayload) (l : List Client)
    → receivers (filter_map (push_to p) l)
      ≡ map
          (λ (c : Client). c.id)
          (select (λ (c : Client). c.is_open && matches p.topic p.event c) l)
unfolding filter_map matches
receivers-push_to p [] = refl
receivers-push_to p (c ∷ l) = elim (Bool-cases c.is_open) [
  | inr e ↦ rw e (receivers-push_to p l)
  | inl e ↦ elim (Bool-cases (matches p.topic p.event c)) [
    | inl f ↦ rw (e, f) (ap (λ z. c.id ∷ z) (receivers-push_to p l))
    | inr f ↦ rw (e, f) (receivers-push_to p l)
  ]
]

-- Whatever happened to a new bus, a broadcast sends to no client id twice.
pub receivers-broadcast :
    (node : String) (es : List (ℕ × Event)) (now : ℕ) (topic event d : String)
    → Distinct (receivers (broadcast now topic event d (run es (new_bus node))).1)
unfolding filter_map
receivers-broadcast node es now topic event d =
    let b = run es (new_bus node) in
    let p = payload_of now topic event d b in
    subst Distinct (sym (receivers-push_to p b.clients)) (
      Distinct-map-select (λ (c : Client). c.id)
        (λ (c : Client). c.is_open && matches topic event c) b.clients
        (run-HasDistinctIds es (new_bus node) tt))
