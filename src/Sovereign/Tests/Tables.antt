-- ===== src/Sovereign/Tests/Tables.antt =====
-- src/sovereign/node.ts: the theorems on the tables and the files of a node, applied to concrete ones.
use gstdbot.Common.{
  none, List, true, lookup, filter_map, sort, insert_by, str_lt, String, Option, some, [], ◌∷◌,
  arith, ◌≡◌, refl, false, read, append_json, whole,
}
use gstdbot.Sovereign.Envelope.{Json}
use gstdbot.Sovereign.Json.{
  is_hex, is_amount, amount, is_package, js_length, canonicalize, decimal, quote,
}
use gstdbot.Sovereign.Schema.{schema_of, parse_manifest}
use gstdbot.Sovereign.Crypto.{unsigned_body, check_form, verify_envelope, member}
use gstdbot.Sovereign.Board.{has, get}
use gstdbot.Sovereign.Ingest.{ingest, added, check_content}
use gstdbot.Sovereign.Ingest.Deliver.{empty}
use gstdbot.Sovereign.Node.Peers.{
  Url, gossip, bootstrap, PeerConfig, no_table, add_peer, restore_peers, peer_origin,
  is_private_host,
}
use gstdbot.Sovereign.Node.Peers.Bounded.{
  Event, offered, sync_fails, listens, restarts, run, IsSound, run-IsSound,
}
use gstdbot.Sovereign.Node.Limiter.Served.{served, served-min}
use gstdbot.Sovereign.Node.Objects.{
  restore, store, store_all, no_objects, crashed, Objects, restarted,
}
use gstdbot.Sovereign.Node.Objects.Restored.{restore-store_all, restore-store-crashed}
use gstdbot.Sovereign.Tests.Bundles.{prim, publisher, signed, published}

abbrev parse_url : String → Option Url
parse_url raw =
    some
      (record { protocol = "https:"; username = ""; password = ""; hostname = raw; origin = raw })

abbrev config : PeerConfig
config = record { public_url = none; host = "h"; allow_private = false; bootstrap = "boot" ∷ [] }

-- The node listens, is told two addresses, fails to reach one, and starts again.
abbrev happenings : List Event
happenings =
    listens 8080 ∷ offered "a" gossip ∷ offered "127.0.0.1" gossip ∷ sync_fails "a" ∷ restarts ∷ []

run-IsSound_example :
    IsSound parse_url config
      (run parse_url config happenings (restore_peers parse_url config no_table)).peers
run-IsSound_example = run-IsSound parse_url config happenings

-- Before it listens, the node takes its own address for another's.
own_url-added : (add_peer parse_url config "http://h:8080" bootstrap no_table).0 ≡ true
unfolding add_peer peer_origin decimal is_private_host
own_url-added = refl

served-min_example : served "ip" ((5, "ip") ∷ (6, "ip") ∷ (7, "other") ∷ []) [] ≡ 2
unfolding lookup
served-min_example =
    served-min "ip" 5 ((6, "ip") ∷ (7, "other") ∷ []) [] tt (omega arith, (omega arith, tt))

abbrev message : Json
message = signed "task.publish" published publisher "1"

abbrev next_message : Json
next_message = signed "task.publish" published publisher "2"

abbrev last_message : Json
last_message = signed "task.publish" published publisher "3"

restore-store_all_example :
    restore prim 20 (read (store_all prim ((10, message) ∷ []) no_objects).file) empty
    ≡ (store_all prim ((10, message) ∷ []) no_objects).board
restore-store_all_example = restore-store_all prim 20 ((10, message) ∷ []) (omega arith, tt)

abbrev stored : Objects
stored = store_all prim ((10, message) ∷ []) no_objects

-- The crash left all of an envelope but its newline; the node that starts again has it.
message-added :
    (ingest prim (restarted prim 20 (crashed (whole last_message) stored)).board next_message 20).1
    ≡ added
unfolding ingest store_all store restore read append_json has get verify_envelope check_form
    unsigned_body member canonicalize is_hex is_amount amount is_package js_length decimal quote
    schema_of parse_manifest check_content sort insert_by str_lt filter_map
message-added = refl

restore-store-crashed_example :
    (restarted prim 30
      (store prim 20 next_message (restarted prim 20 (crashed (whole last_message) stored)))).board
    ≡ stored.board
restore-store-crashed_example =
    restore-store-crashed prim 20 20 30 ((10, message) ∷ []) (whole last_message) next_message
      (omega arith, tt) message-added
