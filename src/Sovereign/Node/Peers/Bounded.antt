-- ===== src/Sovereign/Node/Peers/Bounded.antt =====
-- src/sovereign/node.ts: what the peer table can hold, whatever addresses a node is told.
use gstdbot.Common.{
  ◌++◌, ℕ, ◌≤◌, leb, length, String, ◌==◌, eq_iff, Bool, true, false, not, ◌&&◌, Option, some, List,
  [], ◌∷◌, map, select, arith, ◌≡◌, refl, sym, subst, inl, inr, ◌⊎◌, Option-cases, Memᴰ,
  Memᴰ-append, Memᴰ-select, Memᴰ-singleton, Distinct, Distinct-concat, Distinct-map-select,
  if_cases,
}
use gstdbot.Sovereign.Node.Peers.{
  Url, Source, bootstrap, gossip, inbound, admin, PeerRecord, max_peers, is_private_host, has_peer,
  is_bootstrap, is_http, peer_origin, new_peer, origin_of, add_peer, on_peer, call_succeeded,
  call_failed, sync_failed, PeerConfig, PeerTable, no_table, own_url, save_peers, add_peers,
  restore_peers,
}
use gstdbot.Sovereign.Node.Peers.Kept.{
  others, KeepsPeer, urls-on_peer, Memᴰ-on_peer, others-on_peer, others-select, others-le,
  others-append_one, urls-append_one, has_peer_complete, set_peers-nil,
}

-- What may happen to a node: an address is offered, a call or a push succeeds or fails, a
-- synchronisation fails, the peers are saved, the server listens at a port, or the node starts again.
pub data Event : Type 0 where
  offered : String → Source → Event
  succeeded : String → ℕ → Event
  push_failed sync_fails : String → Event
  saves restarts : Event
  listens : ℕ → Event

module _ (parse_url : String → Option Url) (cfg : PeerConfig) where
  abbrev pub step : Event → PeerTable → PeerTable
  step (offered raw source) t = (add_peer parse_url cfg raw source t).1
  step (succeeded url now) t = record t { peers = on_peer url (call_succeeded now) t.peers }
  step (push_failed url) t = record t { peers = on_peer url call_failed t.peers }
  step (sync_fails url) t = record t { peers = sync_failed url t.peers }
  step saves t = save_peers t
  step restarts t = restore_peers parse_url cfg t
  step (listens port) t = record t { port = port }

  unfoldable pub run : List Event → PeerTable → PeerTable
  run [] t = t
  run (e ∷ es) t = run es (step e t)

  -- An address that parsed to it: http or https without credentials, and no private host unless those
  -- are allowed or the address is the operator's.
  abbrev pub IsAdmissible : String → Source → Type 0
  IsAdmissible url source =
      (raw : String) × (u : Url) × (parse_url raw ≡ some u)
      × (u.origin ≡ url)
      × (is_http u ≡ true)
      × (u.username ≡ "")
      × (u.password ≡ "")
      × ((cfg.allow_private ≡ true)
          ⊎ (source ≡ bootstrap)
          ⊎ (source ≡ admin)
          ⊎ (is_private_host u.hostname ≡ false))

  abbrev pub urls : List PeerRecord → List String
  urls ps = map (λ (p : PeerRecord). p.url) ps

  pub record IsSound (ps : List PeerRecord) : Type 0 where
    pub distinct : Distinct (urls ps)
    pub admissible : (p : PeerRecord) → Memᴰ p ps → IsAdmissible p.url p.source
    pub bounded : others ps ≤ 64

peer_origin_sound :
    (allow : Bool) (source : Source) (u : Url) {o : String}
    → peer_origin allow source u ≡ some o
    → (u.origin ≡ o)
      × (is_http u ≡ true)
      × (u.username ≡ "")
      × (u.password ≡ "")
      × ((allow ≡ true)
          ⊎ (source ≡ bootstrap)
          ⊎ (source ≡ admin)
          ⊎ (is_private_host u.hostname ≡ false))
unfolding peer_origin
peer_origin_sound true source u h = (
  ground arith,
  ground arith,
  ground (arith, eq_iff u.username ""),
  ground (arith, eq_iff u.password ""),
  inl refl,
)
peer_origin_sound false bootstrap u h = (
  ground arith,
  ground arith,
  ground (arith, eq_iff u.username ""),
  ground (arith, eq_iff u.password ""),
  inr (inl refl),
)
peer_origin_sound false admin u h = (
  ground arith,
  ground arith,
  ground (arith, eq_iff u.username ""),
  ground (arith, eq_iff u.password ""),
  inr (inr (inl refl)),
)
peer_origin_sound false gossip u h = (
  ground arith,
  ground arith,
  ground (arith, eq_iff u.username ""),
  ground (arith, eq_iff u.password ""),
  inr (inr (inr (ground arith))),
)
peer_origin_sound false inbound u h = (
  ground arith,
  ground arith,
  ground (arith, eq_iff u.username ""),
  ground (arith, eq_iff u.password ""),
  inr (inr (inr (ground arith))),
)

module _ (parse_url : String → Option Url) (cfg : PeerConfig) where
  on_peer-IsSound :
      (url : String) (f : PeerRecord → PeerRecord) (ps : List PeerRecord)
      → KeepsPeer f
      → IsSound parse_url cfg ps
      → IsSound parse_url cfg (on_peer url f ps)
  on_peer-IsSound url f ps keeps s = record {
    distinct = subst Distinct (sym (urls-on_peer url f keeps ps)) s.distinct;
    admissible = λ q m.
        let (p, n, a, b) = Memᴰ-on_peer url f keeps ps m in
        subst (λ x. IsAdmissible parse_url cfg x q.source) (sym a)
          (subst (λ x. IsAdmissible parse_url cfg p.url x) (sym b) (s.admissible p n));
    bounded = rw (others-on_peer url f keeps ps) s.bounded;
  }

  select-IsSound :
      (q : PeerRecord → Bool) (ps : List PeerRecord)
      → IsSound parse_url cfg ps
      → IsSound parse_url cfg (select q ps)
  select-IsSound q ps s = record {
    distinct = Distinct-map-select (λ (p : PeerRecord). p.url) q ps s.distinct;
    admissible = λ p m. s.admissible p (Memᴰ-select q ps m).0;
    bounded = omega (arith, others-select q ps, s.bounded);
  }

  origin_of-IsAdmissible :
      (raw : String) (source : Source) {o : String}
      → origin_of parse_url cfg raw source ≡ some o
      → IsAdmissible parse_url cfg o source
  origin_of-IsAdmissible raw source {o} h = elim (Option-cases (parse_url raw)) [
    | inl e ↦ absurd (ground arith)
    | inr (u, e) ↦
        let found : peer_origin cfg.allow_private source u ≡ some o = rw (origin_of, e) at h in
        let (same, http, name, word, public_host) =
          peer_origin_sound cfg.allow_private source u found in
        (raw, u, e, same, http, name, word, public_host)
  ]

  -- The table and the file are sound.
  record AreSound (t : PeerTable) : Type 0 where
    table : IsSound parse_url cfg t.peers
    saved : IsSound parse_url cfg t.file

  append-IsSound :
      (o : String) (source : Source) (ps : List PeerRecord)
      → IsAdmissible parse_url cfg o source
      → has_peer ps o ≡ false
      → (leb max_peers (length ps) && not (is_bootstrap source)) ≡ false
      → IsSound parse_url cfg ps
      → IsSound parse_url cfg (ps ++ new_peer o source ∷ [])
  append-IsSound o source ps fits fresh room s = record {
    distinct = subst Distinct (sym (urls-append_one ps (new_peer o source))) (
        Distinct-concat (map (λ (q : PeerRecord). q.url) ps) o s.distinct
          (λ m. absurd (cc (has_peer_complete ps o m, fresh))));
    admissible = λ p m. elim (Memᴰ-append ps m) [
      | inl k ↦ s.admissible p k
      | inr k ↦
          subst (λ (x : PeerRecord). IsAdmissible parse_url cfg x.url x.source)
            (sym (Memᴰ-singleton k)) fits
    ];
    bounded = ground (arith, others-append_one ps (new_peer o source), others-le ps, s.bounded);
  }

  add_peer-AreSound :
      (raw : String) (source : Source) (t : PeerTable)
      → AreSound t
      → AreSound (add_peer parse_url cfg raw source t).1
  unfolding add_peer
  add_peer-AreSound raw source t s = elim (Option-cases (origin_of parse_url cfg raw source)) [
    | inl e ↦ rw (add_peer, e) s
    | inr (o, e) ↦
        let P = λ (r : Bool × PeerTable). AreSound r.1 in
        rw (add_peer, e)
          (if_cases P (o == own_url cfg t) (λ _. s)
            (λ _.
              if_cases P (has_peer t.peers o) (λ _. s)
                (λ fresh.
                  if_cases P (leb max_peers (length t.peers) && not (is_bootstrap source)) (λ _. s)
                    (λ room.
                      let more =
                        append-IsSound o source t.peers (origin_of-IsAdmissible raw source e) fresh
                          room s.table in
                      record { table = more; saved = more }))))
  ]

  add_peers-AreSound :
      (source : Source) (raws : List String) (t : PeerTable)
      → AreSound t
      → AreSound (add_peers parse_url cfg source raws t)
  add_peers-AreSound source [] t s = s
  add_peers-AreSound source (raw ∷ raws) t s =
      add_peers-AreSound source raws _ (add_peer-AreSound raw source t s)

  restore_peers-AreSound : (t : PeerTable) → AreSound t → AreSound (restore_peers parse_url cfg t)
  restore_peers-AreSound t s =
      let loaded = set_peers-nil t.file s.saved.distinct in
      add_peers-AreSound bootstrap cfg.bootstrap _
        (record { table = subst (IsSound parse_url cfg) (sym loaded) s.saved; saved = s.saved })

  step-AreSound : (e : Event) (t : PeerTable) → AreSound t → AreSound (step parse_url cfg e t)
  unfolding sync_failed
  step-AreSound (offered raw source) t s = add_peer-AreSound raw source t s
  step-AreSound (succeeded url now) t s = record {
    table = on_peer-IsSound url (call_succeeded now) t.peers (λ p. (refl, refl)) s.table;
    saved = s.saved;
  }
  step-AreSound (push_failed url) t s = record {
    table = on_peer-IsSound url call_failed t.peers (λ p. (refl, refl)) s.table;
    saved = s.saved;
  }
  step-AreSound (sync_fails url) t s = record {
    table =
        select-IsSound _ (on_peer url call_failed t.peers)
          (on_peer-IsSound url call_failed t.peers (λ p. (refl, refl)) s.table);
    saved = s.saved;
  }
  step-AreSound saves t s = record { table = s.table; saved = s.table }
  step-AreSound restarts t s = restore_peers-AreSound t s
  step-AreSound (listens port) t s = record { table = s.table; saved = s.saved }

  run-AreSound : (es : List Event) (t : PeerTable) → AreSound t → AreSound (run parse_url cfg es t)
  unfolding run
  run-AreSound [] t s = s
  run-AreSound (e ∷ es) t s = run-AreSound es (step parse_url cfg e t) (step-AreSound e t s)

  no_table-AreSound : AreSound no_table
  no_table-AreSound =
      let empty : IsSound parse_url cfg [] = record {
        distinct = tt;
        admissible = λ p m. elim m [ ];
        bounded = omega arith;
      } in
      record { table = empty; saved = empty }

  -- From the first start of a node on, whatever addresses it is offered, whichever calls fail, and
  -- however often it starts again with the same configuration, its table holds each address once; at
  -- most 64 peers are not from its bootstrap addresses; each is the origin of an http or https address
  -- without credentials, and one that gossip or a stranger named is on no private host, unless those
  -- are allowed.
  pub run-IsSound :
      (es : List Event)
      → IsSound parse_url cfg (run parse_url cfg es (restore_peers parse_url cfg no_table)).peers
  run-IsSound es = (run-AreSound es _ (restore_peers-AreSound no_table no_table-AreSound)).table
