-- ===== src/P2p/Peers/Known.antt =====
-- src/p2p/peers.ts: what a request does to a peer that is known.
use gstdbot.Common.{
  ℕ, ◌<◌, String, ◌==◌, Bool, true, false, Option, none, some, List, lookup, lookup-put, arith, ◌≡◌,
  refl, ◌∙◌, ap, subst,
}
use gstdbot.Sovereign.Node.Peers.{Url}
use gstdbot.P2p.Peers.{
  PeerInfo, PeerManager, PeerSource, HeartbeatPayload, peer_of, registered, is_self,
  receive_heartbeat, register_peer,
}
use gstdbot.P2p.Peers.Scores.{is_eligible}

module _ (parse_url : String → Option Url) (self_id self_url : String) where
  -- The peer that the table has for an id.
  abbrev pub Has : String → PeerManager → (PeerInfo → Type 0) → Type 0
  Has id m P = (p : PeerInfo) × (lookup id m.peers ≡ some p) × P p

  lookup-register_peer :
      (now : ℕ) (tunnel : Option String) (id url : String) (capabilities : List String)
      (source : PeerSource) (touch : Bool) (key : Option String) (m : PeerManager)
      → is_self parse_url self_id self_url tunnel id url ≡ false
      → lookup id
          (register_peer parse_url self_id self_url now tunnel id url capabilities source touch key
            m).peers
        ≡ some (registered now id url capabilities source touch key (lookup id m.peers))
  unfolding register_peer
  lookup-register_peer now tunnel id url capabilities source touch key m other =
      rw (register_peer, other) (lookup-put id _ m.peers)

  lookup-receive_heartbeat :
      (now : ℕ) (tunnel : Option String) (h : HeartbeatPayload) (measured : ℕ) (m : PeerManager)
      → is_self parse_url self_id self_url tunnel h.node_id h.url ≡ false
      → lookup h.node_id
          (receive_heartbeat parse_url self_id self_url now tunnel h measured m).peers
        ≡ some (peer_of now h measured (lookup h.node_id m.peers))
  unfolding receive_heartbeat
  lookup-receive_heartbeat now tunnel h measured m other =
      rw (receive_heartbeat, other) (lookup-put h.node_id _ m.peers)

  registered_key :
      (now : ℕ) (id url : String) (capabilities : List String) (source : PeerSource) (touch : Bool)
      (k : String) (o : Option PeerInfo)
      → (registered now id url capabilities source touch (some k) o).pubkey_hex ≡ some k
  registered_key now id url capabilities source touch k none = refl
  registered_key now id url capabilities source touch k (some p) = refl

  -- Who registers the id of a peer that may get requests gets them at an address of his own, which this
  -- node never called: the entry keeps the latency that was measured, and so stays eligible.
  pub register_peer-is_eligible :
      (now : ℕ) (tunnel : Option String) (id url : String) (capabilities : List String)
      (source : PeerSource) (key : Option String) (m : PeerManager) (p : PeerInfo)
      → lookup id m.peers ≡ some p
      → p.node_id ≡ id
      → 0 < p.latency_ms
      → is_eligible now self_url m p ≡ true
      → is_self parse_url self_id self_url tunnel id url ≡ false
      → (url == self_url) ≡ false
      → Has id
          (register_peer parse_url self_id self_url now tunnel id url capabilities source true key
            m)
          (λ (q : PeerInfo).
            (q.url ≡ url)
            × (is_eligible now self_url
                  (register_peer parse_url self_id self_url now tunnel id url capabilities source
                    true key m)
                  q
                ≡ true))
  unfolding register_peer is_eligible
  register_peer-is_eligible now tunnel id url capabilities source key m p found named measured ok
        other apart =
      (
        registered now id url capabilities source true key (some p),
        lookup-register_peer now tunnel id url capabilities source true key m other
            ∙ ap (λ o. some (registered now id url capabilities source true key o)) found,
        (refl, rw (register_peer, other, apart) (ground (arith, ok, named))),
      )

  -- A heartbeat of a peer that announced its public key leaves it without one: it had the key when it
  -- was registered with it, and has none after a heartbeat with its id.
  pub receive_heartbeat-register_peer :
      (now later : ℕ) (tunnel : Option String) (id url : String) (capabilities : List String)
      (source : PeerSource) (touch : Bool) (k : String) (h : HeartbeatPayload) (measured : ℕ)
      (m : PeerManager)
      → h.node_id ≡ id
      → is_self parse_url self_id self_url tunnel id url ≡ false
      → is_self parse_url self_id self_url tunnel h.node_id h.url ≡ false
      → Has id
          (register_peer parse_url self_id self_url now tunnel id url capabilities source touch
            (some k)
            m)
          (λ (p : PeerInfo). p.pubkey_hex ≡ some k)
        × Has id
            (receive_heartbeat parse_url self_id self_url later tunnel h measured (
              register_peer parse_url self_id self_url now tunnel id url capabilities source touch
                (some k)
                m))
            (λ (p : PeerInfo). p.pubkey_hex ≡ none)
  unfolding register_peer receive_heartbeat
  receive_heartbeat-register_peer now later tunnel id url capabilities source touch k h measured m
        same other heard =
      let after =
        register_peer parse_url self_id self_url now tunnel id url capabilities source touch
          (some k) m in
      (
        (
          _,
          lookup-register_peer now tunnel id url capabilities source touch (some k) m other,
          registered_key now id url capabilities source touch k (lookup id m.peers),
        ),
        (
          _,
          subst
              (λ i.
                lookup i
                  (receive_heartbeat parse_url self_id self_url later tunnel h measured after).peers
                ≡ some (peer_of later h measured (lookup h.node_id after.peers)))
              same (lookup-receive_heartbeat later tunnel h measured after heard),
          refl,
        ),
      )
