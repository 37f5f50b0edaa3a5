-- ===== src/P2p/Peers/Scores.antt =====
-- src/p2p/peers.ts: `getBestPeer` and `getLivePeers`. A score is counted in units of 1/3600, with 500
-- points more than in the source, which keeps the order.
use Prim.Native.Char.{code}
use gstdbot.Common.{
  ℕ, ◌+◌, ◌-◌, ◌*◌, ltb, leb, eqb, min, String, ◌==◌, Bool, true, false, not, ◌&&◌, ◌||◌,
  if◌then◌else◌, Option, List, [], ◌∷◌, map, any, select, sort, head?, lookup,
}
use gstdbot.Sovereign.Node.Peers.{Url}
use gstdbot.P2p.Peers.{
  PeerInfo, PeerQuality, PeerManager, Peers, peer_ttl_ms, unverified_latency_ms, is_self_url,
  quality_or_new,
}

-- `replace(/[^a-z0-9]/gi, '').toLowerCase()`, as the codes of its characters.
unfoldable pub norm : String → List ℕ
norm String.[] = []
norm (String.◌∷◌ c s) =
    if leb b'a' (code c) && leb (code c) b'z' || leb b'0' (code c) && leb (code c) b'9'
    then code c ∷ norm s
    else if leb b'A' (code c) && leb (code c) b'Z'
    then (code c + 32) ∷ norm s
    else norm s

abbrev pub begins : List ℕ → List ℕ → Bool
begins l [] = true
begins [] (y ∷ k) = false
begins (x ∷ l) (y ∷ k) = eqb x y && begins l k

-- `includes`
unfoldable pub contains : List ℕ → List ℕ → Bool
contains [] k = begins [] k
contains (x ∷ l) k = begins (x ∷ l) k || contains l k

abbrev pub has_model : String → PeerInfo → Bool
has_model model p =
    any (λ c. contains (norm c) (norm model) || contains (norm model) (norm c)) p.capabilities

-- Whether more than 30% of at least five calls failed.
abbrev pub is_poor : PeerQuality → Bool
is_poor q =
    leb 5 (q.successes + q.failures) && ltb (3 * (q.successes + q.failures)) (10 * q.failures)

unfoldable pub score : PeerManager → String → PeerInfo → ℕ
score m model p =
    3600
      * ((if has_model model p then 1000 else 0)
          + (2000 - p.latency_ms)
          + (if is_poor (quality_or_new (lookup p.node_id m.quality)) then 0 else 500))
    + min p.uptime 360000

abbrev pub before : PeerManager → String → PeerInfo → PeerInfo → Bool
before m model p q = ltb (score m model q) (score m model p)

abbrev pub values : Peers → List PeerInfo
values ps = map (λ (e : String × PeerInfo). e.1) ps

-- Whether a peer may get a request: seen in the last five minutes, not this node, measured, and not
-- failing.
unfoldable pub is_eligible : ℕ → String → PeerManager → PeerInfo → Bool
is_eligible now self_url m p =
    ltb (now - p.last_seen) peer_ttl_ms
    && not (p.url == self_url)
    && ltb p.latency_ms unverified_latency_ms
    && ltb (quality_or_new (lookup p.node_id m.quality)).consecutive_fails 3

unfoldable pub get_best_peer : ℕ → String → String → PeerManager → Option PeerInfo
get_best_peer now self_url model m =
    head? (sort (before m model) (select (is_eligible now self_url m) (values m.peers)))

module _ (parse_url : String → Option Url) (self_id self_url : String) where
  unfoldable pub get_live_peers : ℕ → Option String → PeerManager → List PeerInfo
  get_live_peers now tunnel m =
      select
        (λ (p : PeerInfo).
          ltb now (p.last_seen + peer_ttl_ms)
          && ltb p.latency_ms unverified_latency_ms
          && not (p.node_id == self_id)
          && not (is_self_url parse_url self_id self_url tunnel p.url))
        (values m.peers)
