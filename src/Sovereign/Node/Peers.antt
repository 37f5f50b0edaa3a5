-- ===== src/Sovereign/Node/Peers.antt =====
-- src/sovereign/node.ts: the peer table. The WHATWG `URL` is node's: `parse_url` is a parameter that
-- gives its parts, or `none` where the constructor throws. A host name that it gives is in lower case.
mod Kept
pub mod Bounded
use Prim.Native.Char.{code}
use Prim.Native.String
use text.Mathlib.Text.{starts_with}
use gstdbot.Sovereign.Json.{decimal}
use gstdbot.Common.{
  ℕ, suc, leb, eqb, length, take, String, ◌==◌, Bool, true, false, not, ◌&&◌, ◌||◌, if◌then◌else◌,
  Option, none, some, List, [], ◌∷◌, ◌++◌, map, any, select, ltb,
}

pub record Url : Type 0 where
  pub protocol : String
  pub username : String
  pub password : String
  pub hostname : String
  pub origin : String

pub data Source : Type 0 where
  bootstrap gossip inbound admin : Source

pub record PeerRecord : Type 0 where
  pub url : String
  pub source : Source
  pub failures : ℕ
  pub last_ok : Option ℕ

abbrev pub peer_failure_drop : ℕ
peer_failure_drop = 12

abbrev pub max_peers : ℕ
max_peers = 64

-- `replace(/^\[|\]$/g, '')`
abbrev strip_open : String → String
strip_open String.[] = String.[]
strip_open (String.◌∷◌ c s) = if eqb (code c) b'[' then s else String.◌∷◌ c s

strip_close : String → String
strip_close String.[] = String.[]
strip_close (String.◌∷◌ c String.[]) =
    if eqb (code c) b']' then String.[] else String.◌∷◌ c String.[]
strip_close (String.◌∷◌ c (String.◌∷◌ d s)) = String.◌∷◌ c (strip_close (String.◌∷◌ d s))

abbrev pub private_names : List String
private_names = "localhost" ∷ "0.0.0.0" ∷ "::1" ∷ []

abbrev pub private_prefixes : List String
private_prefixes =
    "127." ∷ "10." ∷ "192.168." ∷ "169.254." ∷ "172.16." ∷ "172.17." ∷ "172.18." ∷ "172.19."
    ∷ "172.20." ∷ "172.21." ∷ "172.22." ∷ "172.23." ∷ "172.24." ∷ "172.25." ∷ "172.26." ∷ "172.27."
    ∷ "172.28." ∷ "172.29." ∷ "172.30." ∷ "172.31." ∷ "fc" ∷ "fd" ∷ "fe80" ∷ []

unfoldable pub is_private_host : String → Bool
unfolding strip_close
is_private_host host =
    let h = strip_close (strip_open host) in
    any (λ n. h == n) private_names || any (λ p. starts_with h p) private_prefixes

-- The peers are the Map in insertion order, by `url`.
abbrev pub has_peer : List PeerRecord → String → Bool
has_peer ps url = any (λ (p : PeerRecord). p.url == url) ps

abbrev is_trusted : Source → Bool
is_trusted s = elim s [ bootstrap ↦ true | admin ↦ true | gossip ↦ false | inbound ↦ false ]

abbrev pub is_bootstrap : Source → Bool
is_bootstrap s = elim s [ bootstrap ↦ true | admin ↦ false | gossip ↦ false | inbound ↦ false ]

abbrev pub is_http : Url → Bool
is_http u = u.protocol == "http:" || u.protocol == "https:"

-- The origin of an address that may be a peer.
unfoldable pub peer_origin : Bool → Source → Url → Option String
peer_origin allow_private source u =
    if not (is_http u) || not (u.username == "") || not (u.password == "")
    then none
    else if not allow_private && not (is_trusted source) && is_private_host u.hostname
    then none
    else some u.origin

abbrev pub new_peer : String → Source → PeerRecord
new_peer origin source = record { url = origin; source = source; failures = 0; last_ok = none }

-- What the configuration says of peers.
pub record PeerConfig : Type 0 where
  pub public_url : Option String
  pub host : String
  pub allow_private : Bool
  pub bootstrap : List String

-- The peers, the file of peers (nothing, where there is none), and the port, which is 0 until the
-- server listens.
pub record PeerTable : Type 0 where
  pub peers : List PeerRecord
  pub file : List PeerRecord
  pub port : ℕ

abbrev pub no_table : PeerTable
no_table = record { peers = []; file = []; port = 0 }

abbrev pub own_url : PeerConfig → PeerTable → String
own_url cfg t = elim cfg.public_url [
  | some url ↦ url
  | none ↦
      Prim.Native.String.◌++◌ "http://"
        (Prim.Native.String.◌++◌ cfg.host (Prim.Native.String.◌++◌ ":" (decimal t.port)))
]

abbrev pub save_peers : PeerTable → PeerTable
save_peers t = record t { file = t.peers }

-- `this.peers.set(p.url, p)`
unfoldable pub set_peer : PeerRecord → List PeerRecord → List PeerRecord
set_peer p [] = p ∷ []
set_peer p (x ∷ ps) = if x.url == p.url then p ∷ ps else x ∷ set_peer p ps

abbrev pub set_peers : List PeerRecord → List PeerRecord → List PeerRecord
set_peers [] ps = ps
set_peers (p ∷ l) ps = set_peers l (set_peer p ps)

module _ (parse_url : String → Option Url) (cfg : PeerConfig) where
  abbrev pub origin_of : String → Source → Option String
  origin_of raw source = elim (parse_url raw) [
    | none ↦ none
    | some u ↦ peer_origin cfg.allow_private source u
  ]

  -- Whether the peer was added, and the table.
  unfoldable pub add_peer : String → Source → PeerTable → Bool × PeerTable
  add_peer raw source t = elim (origin_of raw source) [
    | none ↦ (false, t)
    | some origin ↦
        if origin == own_url cfg t
        then (false, t)
        else if has_peer t.peers origin
        then (false, t)
        else if leb max_peers (length t.peers) && not (is_bootstrap source)
        then (false, t)
        else (true, save_peers (record t { peers = t.peers ++ new_peer origin source ∷ [] }))
  ]

  abbrev pub add_peers : Source → List String → PeerTable → PeerTable
  add_peers source [] t = t
  add_peers source (raw ∷ raws) t = add_peers source raws (add_peer raw source t).1

  -- A node that starts with the file that is there, before it listens.
  abbrev pub restore_peers : PeerTable → PeerTable
  restore_peers t =
      add_peers Source.bootstrap cfg.bootstrap (record t { peers = set_peers t.file []; port = 0 })

-- The change of one peer.
unfoldable pub on_peer : String → (PeerRecord → PeerRecord) → List PeerRecord → List PeerRecord
on_peer url f [] = []
on_peer url f (p ∷ ps) = if p.url == url then f p ∷ ps else p ∷ on_peer url f ps

-- A call of the peer succeeded, or a push to it failed.
abbrev pub call_succeeded : ℕ → PeerRecord → PeerRecord
call_succeeded now p = record p { failures = 0; last_ok = some now }

abbrev pub call_failed : PeerRecord → PeerRecord
call_failed p = record p { failures = suc p.failures }

-- The `catch` of `syncPeer`.
abbrev is_dropped : String → PeerRecord → Bool
is_dropped url p = p.url == url && leb peer_failure_drop p.failures && not (is_bootstrap p.source)

unfoldable pub sync_failed : String → List PeerRecord → List PeerRecord
sync_failed url ps =
    select (λ (p : PeerRecord). not (is_dropped url p)) (on_peer url call_failed ps)

-- The addresses that `/sov/sync` gives.
abbrev pub shared_peers : String → List PeerRecord → List String
shared_peers self ps =
    take 50
      (self ∷ map (λ (p : PeerRecord). p.url) (select (λ (p : PeerRecord). ltb p.failures 3) ps))
