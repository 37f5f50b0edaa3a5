-- ===== src/P2p/Peers/Table.antt =====
-- src/p2p/peers.ts: the entries of the tables, and what a call makes of an entry.

use text.Mathlib.Text.{starts_with}
use gstdbot.Common.{
  ℕ, suc, eqb, String, ◌==◌, Bool, true, false, ◌||◌, if◌then◌else◌, Option, none, some, List,
  lookup, put,
}
use gstdbot.Sovereign.Node.Peers.{Url}

abbrev pub peer_ttl_ms : ℕ
peer_ttl_ms = 300000

abbrev pub unverified_latency_ms : ℕ
unverified_latency_ms = 9999

pub data PeerSource : Type 0 where
  p2p_mesh http_gossip kv_fallback : PeerSource

pub record PeerInfo : Type 0 where
  pub node_id : String
  pub url : String
  pub capabilities : List String
  pub version : String
  pub cpu_cores : ℕ
  pub ram_gb : ℕ
  pub uptime : ℕ
  pub tasks_handled : ℕ
  pub last_seen : ℕ
  pub latency_ms : ℕ
  pub source : PeerSource
  pub pubkey_hex : Option String

pub record PeerQuality : Type 0 where
  pub successes : ℕ
  pub failures : ℕ
  pub consecutive_fails : ℕ

-- What another node says of itself; the peers that it lists are not read.
pub record HeartbeatPayload : Type 0 where
  pub node_id : String
  pub url : String
  pub capabilities : List String
  pub version : String
  pub cpu_cores : ℕ
  pub ram_gb : ℕ
  pub uptime : ℕ
  pub tasks_handled : ℕ

-- The Map of peers in insertion order, and the Map of qualities.
pub record PeerManager : Type 0 where
  pub peers : List (String × PeerInfo)
  pub quality : List (String × PeerQuality)

abbrev pub Peers : Type 0
Peers = List (String × PeerInfo)

unfoldable pub is_link_local : String → Bool
is_link_local host =
    starts_with host "169.254." || starts_with host "fe80:" || starts_with host "[fe80:"

abbrev pub is_web : Url → Bool
is_web u = u.protocol == "https:" || u.protocol == "http:"

unfoldable pub resolve_public_url : Option String → String → String
resolve_public_url none configured = configured
resolve_public_url (some s) configured = if starts_with s "http" then s else configured

abbrev pub placeholder : String → String → List String → PeerInfo
placeholder url id capabilities = record {
  node_id = id;
  url = url;
  capabilities = capabilities;
  version = "?";
  cpu_cores = 0;
  ram_gb = 0;
  uptime = 0;
  tasks_handled = 0;
  last_seen = 0;
  latency_ms = unverified_latency_ms;
  source = http_gossip;
  pubkey_hex = none;
}

-- `a || b`, for a number that may be missing.
abbrev pub or_else : Option ℕ → ℕ → ℕ
or_else none d = d
or_else (some n) d = if eqb n 0 then d else n

abbrev pub latency_of : Option PeerInfo → Option ℕ
latency_of none = none
latency_of (some p) = some p.latency_ms

abbrev pub source_of : Option PeerInfo → PeerSource
source_of none = http_gossip
source_of (some p) = elim p.source [
  | p2p_mesh ↦ p2p_mesh
  | http_gossip ↦ http_gossip
  | kv_fallback ↦ http_gossip
]

abbrev pub peer_of : ℕ → HeartbeatPayload → ℕ → Option PeerInfo → PeerInfo
peer_of now h measured existing = record {
  node_id = h.node_id;
  url = h.url;
  capabilities = h.capabilities;
  version = h.version;
  cpu_cores = h.cpu_cores;
  ram_gb = h.ram_gb;
  uptime = h.uptime;
  tasks_handled = h.tasks_handled;
  last_seen = now;
  latency_ms = or_else (some measured) (or_else (latency_of existing) unverified_latency_ms);
  source = source_of existing;
  pubkey_hex = none;
}

-- The peer that `registerPeer` sets, from the one that has the id.
abbrev pub registered :
    ℕ
    → String
    → String
    → List String
    → PeerSource
    → Bool
    → Option String
    → Option PeerInfo
    → PeerInfo
registered now id url capabilities source touch key none =
    record (placeholder url id capabilities) {
      last_seen = if touch then now else 0;
      source = source;
      pubkey_hex = key;
    }
registered now id url capabilities source touch key (some p) = record p {
  node_id = id;
  url = url;
  capabilities = capabilities;
  last_seen = if touch then now else p.last_seen;
  latency_ms = or_else (some p.latency_ms) unverified_latency_ms;
  source = source;
  pubkey_hex = elim key [ none ↦ p.pubkey_hex | some k ↦ some k ];
}

abbrev pub quality_or_new : Option PeerQuality → PeerQuality
quality_or_new none = record { successes = 0; failures = 0; consecutive_fails = 0 }
quality_or_new (some q) = q

abbrev pub with_outcome : Bool → PeerQuality → PeerQuality
with_outcome true q = record q { consecutive_fails = 0; successes = suc q.successes }
with_outcome false q = record q {
  consecutive_fails = suc q.consecutive_fails;
  failures = suc q.failures;
}

unfoldable pub record_outcome : String → Bool → PeerManager → PeerManager
record_outcome id success m = record m {
  quality = put id (with_outcome success (quality_or_new (lookup id m.quality))) m.quality;
}

-- The answer to a heartbeat: the `ok` and the `node_id` of its body, and the peers that it lists.
pub record Reply : Type 0 where
  pub ok : Bool
  pub node_id : Option String
  pub peers : List (String × String × List String)

-- The round trip of a peer is measured: every entry with the address that was called.
abbrev pub measure : String → ℕ → ℕ → PeerInfo → PeerInfo
measure url latency now p =
    if p.url == url then record p { latency_ms = latency; last_seen = now } else p
