-- ===== src/P2p/Peers/Tests.antt =====
-- src/p2p/peers.ts: the theorems applied to a table with one peer.
use gstdbot.Common.{
  String, true, false, Option, none, some, List, [], ◌∷◌, lookup, arith, ◌≡◌, refl,
}
use gstdbot.Sovereign.Json.{js_length}
use gstdbot.Sovereign.Node.Peers.{Url}
use gstdbot.P2p.Peers.{
  PeerInfo, PeerManager, http_gossip, p2p_mesh, HeartbeatPayload, placeholder, is_self, is_self_url,
  normalize_peer_url, resolve_public_url, is_link_local, receive_heartbeat, register_peer,
}
use gstdbot.P2p.Peers.Scores.{is_eligible, get_best_peer}
use gstdbot.P2p.Peers.Best.{IsBest, get_best_peer-IsBest}
use gstdbot.P2p.Peers.Gate.{Call, hears, registers, records, run, get_best_peer-run}
use gstdbot.P2p.Peers.Known.{Has, register_peer-is_eligible, receive_heartbeat-register_peer}

abbrev parse_url : String → Option Url
parse_url raw =
    some
      (record { protocol = "https:"; username = ""; password = ""; hostname = raw; origin = raw })

abbrev friend : PeerInfo
friend = record (placeholder "friend.example" "friend" ("llama" ∷ [])) {
  last_seen = 1000;
  latency_ms = 40;
}

abbrev one_peer : PeerManager
one_peer = record { peers = ("friend", friend) ∷ []; quality = [] }

abbrev no_peers : PeerManager
no_peers = record { peers = []; quality = [] }

abbrev stranger : HeartbeatPayload
stranger = record {
  node_id = "friend";
  url = "stranger.example";
  capabilities = [];
  version = "1";
  cpu_cores = 1;
  ram_gb = 1;
  uptime = 1;
  tasks_handled = 1;
}

get_best_peer-IsBest_example :
    IsBest 2000 "me.example" "llama" one_peer (get_best_peer 2000 "me.example" "llama" one_peer)
get_best_peer-IsBest_example = get_best_peer-IsBest 2000 "me.example" "llama" one_peer

abbrev requests : List Call
requests =
    hears 5 none stranger 0
    ∷ registers 6 none "x" "x.example" [] http_gossip true none
    ∷ records "x" true
    ∷ []

get_best_peer-run_example :
    get_best_peer 2000 "me.example" "llama" (run parse_url "me" "me.example" requests no_peers)
    ≡ none
get_best_peer-run_example =
    get_best_peer-run parse_url "me" "me.example" 2000 "llama" requests no_peers
      (refl, (tt, (tt, tt))) (λ p m. elim m [ ])

not_self : is_self parse_url "me" "me.example" none "friend" "stranger.example" ≡ false
unfolding is_self_url normalize_peer_url resolve_public_url is_link_local js_length
not_self = refl

friend-found : lookup "friend" one_peer.peers ≡ some friend
unfolding lookup
friend-found = refl

friend-is_eligible : is_eligible 2000 "me.example" one_peer friend ≡ true
unfolding is_eligible lookup
friend-is_eligible = refl

register_peer-is_eligible_example :
    Has parse_url "me" "me.example" "friend"
      (register_peer parse_url "me" "me.example" 2000 none "friend" "stranger.example" []
        http_gossip true none one_peer)
      (λ (q : PeerInfo).
        (q.url ≡ "stranger.example")
        × (is_eligible 2000 "me.example"
              (register_peer parse_url "me" "me.example" 2000 none "friend" "stranger.example" []
                http_gossip true none one_peer)
              q
            ≡ true))
register_peer-is_eligible_example =
    register_peer-is_eligible parse_url "me" "me.example" 2000 none "friend" "stranger.example" []
      http_gossip none one_peer friend friend-found refl (omega arith) friend-is_eligible not_self
      refl

receive_heartbeat-register_peer_example :
    Has parse_url "me" "me.example" "friend"
      (register_peer parse_url "me" "me.example" 2000 none "friend" "stranger.example" [] p2p_mesh
        false
        (some "key")
        one_peer)
      (λ (p : PeerInfo). p.pubkey_hex ≡ some "key")
    × Has parse_url "me" "me.example" "friend"
        (receive_heartbeat parse_url "me" "me.example" 3000 none stranger 0 (
          register_peer parse_url "me" "me.example" 2000 none "friend" "stranger.example" []
            p2p_mesh false
            (some "key")
            one_peer))
        (λ (p : PeerInfo). p.pubkey_hex ≡ none)
receive_heartbeat-register_peer_example =
    receive_heartbeat-register_peer parse_url "me" "me.example" 2000 3000 none "friend"
      "stranger.example" [] p2p_mesh false "key" stranger 0 one_peer refl not_self not_self
