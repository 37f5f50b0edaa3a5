-- ===== src/P2p/Peers.antt =====
-- src/p2p/peers.ts: the class PeerManager, as its tables and a step for each call. The WHATWG `URL` is
-- node's: `parse_url` gives its parts, or `none` where the constructor throws, with the host name in
-- lower case. `tunnel` is what `readTunnelUrl` gives, or `none` where it throws. Times, latencies and
-- uptimes are natural numbers.
mod Table
pub mod Scores
pub mod Startup
pub mod Gate
pub mod Best
pub mod Known
mod Tests
unfoldable pub use Table.*
use Prim.Native.String
use text.Mathlib.Text.{starts_with}
use gstdbot.Common.{
  ℕ, suc, ◌+◌, ◌-◌, ltb, leb, eqb, String, ◌==◌, Bool, true, false, not, ◌&&◌, ◌||◌, if◌then◌else◌,
  Option, none, some, List, [], ◌∷◌, map, select, lookup, put,
}
use gstdbot.Sovereign.Json.{js_length}
use gstdbot.Sovereign.Node.Peers.{Url}
use gstdbot.P2p.Peers.Table.{
  PeerInfo, PeerManager, PeerSource, Peers, HeartbeatPayload, Reply, is_link_local, is_web,
  resolve_public_url, peer_of, registered, placeholder, measure,
}

-- `self_id` and `self_url` are the node's own, as configured.
module _ (parse_url : String → Option Url) (self_id self_url : String) where
  unfoldable pub normalize_peer_url : String → Option String
  normalize_peer_url raw = if ltb 2048 (js_length raw) then none else elim (parse_url raw) [
    | none ↦ none
    | some u ↦
        if not (is_web u)
          || not (u.username == "")
          || not (u.password == "")
          || is_link_local u.hostname
        then none
        else some u.origin
  ]

  abbrev pub is_same : Option String → String → Bool
  is_same none u = false
  is_same (some v) u = v == u

  unfoldable pub is_self_url : Option String → String → Bool
  is_self_url tunnel raw = elim (normalize_peer_url raw) [
    | none ↦ false
    | some u ↦
        is_same (normalize_peer_url self_url) u
        || is_same (normalize_peer_url (resolve_public_url tunnel self_url)) u
  ]

  abbrev pub is_self : Option String → String → String → Bool
  is_self tunnel id url = id == self_id || is_self_url tunnel url

  unfoldable pub receive_heartbeat :
      ℕ → Option String → HeartbeatPayload → ℕ → PeerManager → PeerManager
  receive_heartbeat now tunnel h measured m =
      if is_self tunnel h.node_id h.url then m else record m {
        peers = put h.node_id (peer_of now h measured (lookup h.node_id m.peers)) m.peers;
      }

  unfoldable pub register_peer :
      ℕ
      → Option String
      → String
      → String
      → List String
      → PeerSource
      → Bool
      → Option String
      → PeerManager
      → PeerManager
  register_peer now tunnel id url capabilities source touch key m =
      if is_self tunnel id url then m else record m {
        peers =
            put id (registered now id url capabilities source touch key (lookup id m.peers))
              m.peers;
      }

  -- A peer that an answer lists, and that is not known.
  abbrev pub learn : Option String → String × String × List String → Peers → Peers
  learn tunnel (id, url, capabilities) ps =
      if id == ""
        || url == ""
        || elim (normalize_peer_url url) [ none ↦ true | some u ↦ false ]
        || is_self tunnel id url
      then ps
      else elim (lookup id ps) [ some p ↦ ps | none ↦ put id (placeholder url id capabilities) ps ]

  abbrev pub learn_all : Option String → List (String × String × List String) → Peers → Peers
  learn_all tunnel [] ps = ps
  learn_all tunnel (x ∷ xs) ps = learn_all tunnel xs (learn tunnel x ps)

  abbrev pub measure_all : String → ℕ → ℕ → Peers → Peers
  measure_all url latency now ps =
      map (λ (e : String × PeerInfo). (e.0, measure url latency now e.1)) ps

  abbrev pub is_answer : Reply → Bool
  is_answer r =
      r.ok && elim r.node_id [ none ↦ false | some id ↦ not (id == "") && not (id == self_id) ]

  -- What `sendHeartbeatTo` does with an answer, `elapsed` after it was sent.
  unfoldable pub heartbeat_answered :
      ℕ → Option String → String → ℕ → Reply → PeerManager → PeerManager
  heartbeat_answered now tunnel url elapsed r m =
      if is_answer r
      then record m {
        peers =
            measure_all url (if eqb elapsed 0 then 1 else elapsed) now
              (learn_all tunnel r.peers m.peers);
      }
      else m
