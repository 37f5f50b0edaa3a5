-- ===== src/P2p/Peers/Gate.antt =====
-- src/p2p/peers.ts: what unauthenticated requests can do to the table of peers.
use gstdbot.Common.{
  ℕ, ◌≤◌, String, ◌==◌, Bool, ◌||◌, Option, none, some, List, [], ◌∷◌, map, lookup, put, arith, ◌≡◌,
  refl, sym, subst, inl, inr, ◌⊎◌, Bool-cases, Option-cases, eq_of_some, if_cases, Memᴰ-map,
  Memᴰ-map_of, Memᴰ-select, Memᴰ, Memᴰ-cons,
}
use gstdbot.Sovereign.Node.Peers.{Url}
use gstdbot.P2p.Peers.{
  PeerInfo, PeerManager, PeerSource, Peers, HeartbeatPayload, Reply, unverified_latency_ms, peer_of,
  registered, or_else, is_self, is_self_url, placeholder, receive_heartbeat, register_peer,
  record_outcome, heartbeat_answered,
}
use gstdbot.P2p.Peers.Startup.{Listed, drop_self, add_seeds, add_one, add_listed, forwarded}
use gstdbot.P2p.Peers.Scores.{values, get_best_peer}
use gstdbot.P2p.Peers.Best.{IsBest, get_best_peer-IsBest}

-- A call of the manager.
pub data Call : Type 0 where
  hears : ℕ → Option String → HeartbeatPayload → ℕ → Call
  registers :
      ℕ → Option String → String → String → List String → PeerSource → Bool → Option String → Call
  records : String → Bool → Call
  seeded : Option String → List String → Call
  finds : Option String → List Listed → Call
  forwards : Bool → String → ℕ → ℕ → Call
  answered : ℕ → Option String → String → ℕ → Reply → Call

module _ {V : Type 0} where
  Memᴰ-put :
      (k : String) (v w : V) (l : List (String × V))
      → Memᴰ w (map (λ (e : String × V). e.1) (put k v l))
      → (w ≡ v) ⊎ Memᴰ w (map (λ (e : String × V). e.1) l)
  unfolding put
  Memᴰ-put k v w [] m = elim (Memᴰ-cons m) [ inl e ↦ inl e | inr n ↦ elim n [ ] ]
  Memᴰ-put k v w ((j, u) ∷ l) m = elim (Bool-cases (j == k)) [
    | inl e ↦ elim (Memᴰ-cons (rw e at m)) [ inl h ↦ inl h | inr n ↦ inr (Memᴰ.tail n) ]
    | inr e ↦ elim (Memᴰ-cons (rw e at m)) [
      | inl h ↦ inr (Memᴰ.head h)
      | inr n ↦ elim (Memᴰ-put k v w l n) [ inl h ↦ inl h | inr i ↦ inr (Memᴰ.tail i) ]
    ]
  ]

  Memᴰ-lookup :
      (k : String) (l : List (String × V)) {v : V}
      → lookup k l ≡ some v
      → Memᴰ v (map (λ (e : String × V). e.1) l)
  unfolding lookup
  Memᴰ-lookup k [] h = absurd (cc)
  Memᴰ-lookup k ((j, u) ∷ l) {v} h = elim (Bool-cases (j == k)) [
    | inl e ↦ Memᴰ.head (sym (eq_of_some (rw (lookup, e) at h)))
    | inr e ↦ Memᴰ.tail (Memᴰ-lookup k l (rw (lookup, e) at h))
  ]

-- No round trip of any peer has been measured.
abbrev pub AllUnverified : Peers → Type 0
AllUnverified ps = (p : PeerInfo) → Memᴰ p (values ps) → unverified_latency_ms ≤ p.latency_ms

-- No answer of a peer, to a heartbeat or to a request; and the clock of a route does not tick between
-- two readings.
abbrev pub IsRequest : Call → Type 0
IsRequest (hears now tunnel h measured) = measured ≡ 0
IsRequest (registers now tunnel id url capabilities source touch key) = Unit
IsRequest (records id success) = Unit
IsRequest (seeded tunnel urls) = Unit
IsRequest (finds tunnel ns) = Unit
IsRequest (forwards held id latency now) = ⊥
IsRequest (answered now tunnel url elapsed r) = ⊥

abbrev pub AreRequests : List Call → Type 0
AreRequests [] = Unit
AreRequests (c ∷ cs) = IsRequest c × AreRequests cs

put-AllUnverified :
    (k : String) (v : PeerInfo) (ps : Peers)
    → unverified_latency_ms ≤ v.latency_ms
    → AllUnverified ps
    → AllUnverified (put k v ps)
put-AllUnverified k v ps le all p m = elim (Memᴰ-put k v p ps m) [
  | inl same ↦ subst (λ (x : PeerInfo). unverified_latency_ms ≤ x.latency_ms) (sym same) le
  | inr n ↦ all p n
]

or_else-unverified :
    (n : ℕ)
    → unverified_latency_ms ≤ n
    → unverified_latency_ms ≤ or_else (some n) unverified_latency_ms
or_else-unverified n h = ground arith

module _ (parse_url : String → Option Url) (self_id self_url : String) where
  abbrev pub step : Call → PeerManager → PeerManager
  step (hears now tunnel h measured) m =
      receive_heartbeat parse_url self_id self_url now tunnel h measured m
  step (registers now tunnel id url capabilities source touch key) m =
      register_peer parse_url self_id self_url now tunnel id url capabilities source touch key m
  step (records id success) m = record_outcome id success m
  step (seeded tunnel urls) m = record m {
    peers =
        add_seeds parse_url self_id self_url tunnel urls
          (drop_self parse_url self_id self_url tunnel m.peers);
  }
  step (finds tunnel ns) m = record m {
    peers = add_listed parse_url self_id self_url tunnel ns m.peers;
  }
  step (forwards held id latency now) m = forwarded held id latency now m
  step (answered now tunnel url elapsed r) m =
      heartbeat_answered parse_url self_id self_url now tunnel url elapsed r m

  unfoldable pub run : List Call → PeerManager → PeerManager
  run [] m = m
  run (c ∷ cs) m = run cs (step c m)

  peer_of-unverified :
      (now : ℕ) (h : HeartbeatPayload) (ps : Peers) (o : Option PeerInfo)
      → lookup h.node_id ps ≡ o
      → AllUnverified ps
      → unverified_latency_ms ≤ (peer_of now h 0 o).latency_ms
  peer_of-unverified now h ps none e all = omega arith
  peer_of-unverified now h ps (some p) e all =
      or_else-unverified p.latency_ms (all p (Memᴰ-lookup h.node_id ps e))

  registered-unverified :
      (now : ℕ) (id url : String) (capabilities : List String) (source : PeerSource) (touch : Bool)
      (key : Option String) (ps : Peers) (o : Option PeerInfo)
      → lookup id ps ≡ o
      → AllUnverified ps
      → unverified_latency_ms ≤ (registered now id url capabilities source touch key o).latency_ms
  registered-unverified now id url capabilities source touch key ps none e all = omega arith
  registered-unverified now id url capabilities source touch key ps (some p) e all =
      or_else-unverified p.latency_ms (all p (Memᴰ-lookup id ps e))

  drop_self-AllUnverified :
      (tunnel : Option String) (ps : Peers)
      → AllUnverified ps
      → AllUnverified (drop_self parse_url self_id self_url tunnel ps)
  unfolding drop_self
  drop_self-AllUnverified tunnel ps all p m =
      let (e, n, same) = Memᴰ-map (λ (x : String × PeerInfo). x.1) _ m in
      let kept = Memᴰ-select _ ps n in
      all p (
        subst (λ x. Memᴰ x (values ps)) (sym same)
          (Memᴰ-map_of (λ (x : String × PeerInfo). x.1) kept.0))

  add_seeds-AllUnverified :
      (tunnel : Option String) (urls : List String) (ps : Peers)
      → AllUnverified ps
      → AllUnverified (add_seeds parse_url self_id self_url tunnel urls ps)
  unfolding add_seeds
  add_seeds-AllUnverified tunnel [] ps all = all
  add_seeds-AllUnverified tunnel (url ∷ urls) ps all = add_seeds-AllUnverified tunnel urls _ (
      if_cases AllUnverified (is_self_url parse_url self_id self_url tunnel url) (λ _. all)
        (λ _. put-AllUnverified url (placeholder url url []) ps (omega arith) all))

  add_one-AllUnverified :
      (tunnel : Option String) (n : Listed) (ps : Peers)
      → AllUnverified ps
      → AllUnverified (add_one parse_url self_id self_url tunnel n ps)
  add_one-AllUnverified tunnel n ps all =
      if_cases AllUnverified
        (n.url == ""
          || n.node_id == ""
          || is_self parse_url self_id self_url tunnel n.node_id n.url)
        (λ _. all)
        (λ _. elim (Option-cases (lookup n.node_id ps)) [
          | inl e ↦ rw e (put-AllUnverified n.node_id _ ps (omega arith) all)
          | inr (p, e) ↦ rw e all
        ])

  add_listed-AllUnverified :
      (tunnel : Option String) (ns : List Listed) (ps : Peers)
      → AllUnverified ps
      → AllUnverified (add_listed parse_url self_id self_url tunnel ns ps)
  unfolding add_listed
  add_listed-AllUnverified tunnel [] ps all = all
  add_listed-AllUnverified tunnel (n ∷ ns) ps all =
      add_listed-AllUnverified tunnel ns _ (add_one-AllUnverified tunnel n ps all)

  step-AllUnverified :
      (c : Call) (m : PeerManager)
      → IsRequest c
      → AllUnverified m.peers
      → AllUnverified (step c m).peers
  unfolding receive_heartbeat register_peer record_outcome
  step-AllUnverified (hears now tunnel h measured) m none_measured all =
      elim (Bool-cases (is_self parse_url self_id self_url tunnel h.node_id h.url)) [
        | inl e ↦ rw e all
        | inr e ↦
            rw (e, none_measured)
              (put-AllUnverified h.node_id _ m.peers (peer_of-unverified now h m.peers _ refl all)
                all)
      ]
  step-AllUnverified (registers now tunnel id url capabilities source touch key) m u all =
      elim (Bool-cases (is_self parse_url self_id self_url tunnel id url)) [
        | inl e ↦ rw e all
        | inr e ↦ rw e (
            put-AllUnverified id _ m.peers
              (registered-unverified now id url capabilities source touch key m.peers _ refl all)
              all)
      ]
  step-AllUnverified (records id success) m u all = all
  step-AllUnverified (seeded tunnel urls) m u all =
      add_seeds-AllUnverified tunnel urls _ (drop_self-AllUnverified tunnel m.peers all)
  step-AllUnverified (finds tunnel ns) m u all = add_listed-AllUnverified tunnel ns m.peers all
  step-AllUnverified (forwards held id latency now) m u all = elim u [ ]
  step-AllUnverified (answered now tunnel url elapsed r) m u all = elim u [ ]

  run-AllUnverified :
      (cs : List Call) (m : PeerManager)
      → AreRequests cs
      → AllUnverified m.peers
      → AllUnverified (run cs m).peers
  unfolding run
  run-AllUnverified [] m u all = all
  run-AllUnverified (c ∷ cs) m (one, more) all =
      run-AllUnverified cs (step c m) more (step-AllUnverified c m one all)

  unmeasured :
      (now : ℕ) (model : String) (m : PeerManager) (o : Option PeerInfo)
      → AllUnverified m.peers
      → IsBest now self_url model m o
      → o ≡ none
  unmeasured now model m none all best = refl
  unmeasured now model m (some p) all (candidate, top) =
      let far = all p candidate.held in absurd (omega (arith, far, candidate.measured))

  -- Without a round trip nobody gets a chat, where the clock does not tick between the two readings in
  -- the route of heartbeats: from a table without a measured latency, whatever heartbeats come in with a
  -- measured time of 0, whatever registrations, whatever seeds and registries name, and whatever
  -- outcomes are recorded, with no answer of a peer, no peer is chosen.
  pub get_best_peer-run :
      (now : ℕ) (model : String) (cs : List Call) (m : PeerManager)
      → AreRequests cs
      → AllUnverified m.peers
      → get_best_peer now self_url model (run cs m) ≡ none
  get_best_peer-run now model cs m u all =
      unmeasured now model (run cs m) _ (run-AllUnverified cs m u all)
        (get_best_peer-IsBest now self_url model (run cs m))
