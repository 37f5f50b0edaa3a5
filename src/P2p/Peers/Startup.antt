-- ===== src/P2p/Peers/Startup.antt =====
-- src/p2p/peers.ts: what `start` does to the table, and what `forwardToPeer` does to it after an answer.
use gstdbot.Common.{
  ℕ, String, ◌==◌, Bool, true, not, ◌||◌, if◌then◌else◌, Option, none, some, List, [], ◌∷◌, select,
  lookup, put,
}
use gstdbot.Sovereign.Node.Peers.{Url}
use gstdbot.P2p.Peers.{
  PeerInfo, PeerManager, Peers, kv_fallback, placeholder, is_self, is_self_url, record_outcome,
}

-- An entry of the platform's registry: its address and its id, empty where it has none.
pub record Listed : Type 0 where
  pub url : String
  pub node_id : String
  pub capabilities : List String

abbrev pub set_latency : ℕ → ℕ → Option PeerInfo → String → Peers → Peers
set_latency latency now none id ps = ps
set_latency latency now (some p) id ps =
    put id (record p { latency_ms = latency; last_seen = now }) ps

-- `held`: the peer that was called is still the object in the Map, and not one that was replaced.
unfoldable pub forwarded : Bool → String → ℕ → ℕ → PeerManager → PeerManager
forwarded held id latency now m = record_outcome id true (
    if held then record m { peers = set_latency latency now (lookup id m.peers) id m.peers } else m)

module _ (parse_url : String → Option Url) (self_id self_url : String) where
  unfoldable pub drop_self : Option String → Peers → Peers
  drop_self tunnel ps =
      select
        (λ (e : String × PeerInfo).
          not (e.1.node_id == self_id || is_self_url parse_url self_id self_url tunnel e.1.url))
        ps

  unfoldable pub add_seeds : Option String → List String → Peers → Peers
  add_seeds tunnel [] ps = ps
  add_seeds tunnel (url ∷ urls) ps = add_seeds tunnel urls (
      if is_self_url parse_url self_id self_url tunnel url
      then ps
      else put url (placeholder url url []) ps)

  abbrev pub add_one : Option String → Listed → Peers → Peers
  add_one tunnel n ps =
      if n.url == "" || n.node_id == "" || is_self parse_url self_id self_url tunnel n.node_id n.url
      then ps
      else elim (lookup n.node_id ps) [
        | some p ↦ ps
        | none ↦
            put n.node_id
              (record (placeholder n.url n.node_id n.capabilities) { source = kv_fallback }) ps
      ]

  unfoldable pub add_listed : Option String → List Listed → Peers → Peers
  add_listed tunnel [] ps = ps
  add_listed tunnel (n ∷ ns) ps = add_listed tunnel ns (add_one tunnel n ps)
