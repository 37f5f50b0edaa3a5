-- ===== src/Sovereign/Node/Peers/Kept.antt =====
-- src/sovereign/node.ts: what a change of one peer keeps of the peer table.
use gstdbot.Common.{
  Distinct, subst, append-nil, append_assoc, ℕ, suc, ◌+◌, ◌≤◌, length, String, ◌==◌, eq_iff, Bool,
  true, if◌then◌else◌, List, [], ◌∷◌, ◌++◌, map, filter_map, any_complete, select, arith, ◌≡◌, refl,
  sym, ap, ◌∙◌, inl, inr, Bool-cases, Memᴰ, Memᴰ-cons, Memᴰ-map, select-cons_true,
  select-cons_false,
}
use gstdbot.Sovereign.Node.Peers.{PeerRecord, has_peer, is_bootstrap, on_peer, set_peer, set_peers}

-- How many peers do not come from the configuration.
abbrev pub others : List PeerRecord → ℕ
others [] = 0
others (p ∷ ps) = if is_bootstrap p.source then others ps else suc (others ps)

-- A change of a peer that keeps its address and its source.
abbrev pub KeepsPeer : (PeerRecord → PeerRecord) → Type 0
KeepsPeer f = (p : PeerRecord) → ((f p).url ≡ p.url) × ((f p).source ≡ p.source)

module _ (url : String) (f : PeerRecord → PeerRecord) (keeps : KeepsPeer f) where
  pub urls-on_peer :
      (ps : List PeerRecord)
      → map (λ (p : PeerRecord). p.url) (on_peer url f ps) ≡ map (λ (p : PeerRecord). p.url) ps
  unfolding on_peer
  urls-on_peer [] = refl
  urls-on_peer (p ∷ ps) = elim (Bool-cases (p.url == url)) [
    | inl e ↦ rw e (λ i. (keeps p).0 i ∷ map (λ (q : PeerRecord). q.url) ps)
    | inr e ↦ rw e (ap (λ z. p.url ∷ z) (urls-on_peer ps))
  ]

  pub Memᴰ-on_peer :
      (ps : List PeerRecord) {q : PeerRecord}
      → Memᴰ q (on_peer url f ps)
      → (p : PeerRecord) × Memᴰ p ps × (q.url ≡ p.url) × (q.source ≡ p.source)
  unfolding on_peer
  Memᴰ-on_peer [] m = elim m [ ]
  Memᴰ-on_peer (p ∷ ps) {q} m = elim (Bool-cases (p.url == url)) [
    | inl e ↦ elim (Memᴰ-cons (rw e at m)) [
      | inl h ↦
          (p, Memᴰ.head refl, ap (λ z. z.url) h ∙ (keeps p).0, ap (λ z. z.source) h ∙ (keeps p).1)
      | inr k ↦ (q, Memᴰ.tail k, refl, refl)
    ]
    | inr e ↦ elim (Memᴰ-cons (rw e at m)) [
      | inl h ↦ (p, Memᴰ.head refl, ap (λ z. z.url) h, ap (λ z. z.source) h)
      | inr k ↦ let (x, n, a, b) = Memᴰ-on_peer ps k in (x, Memᴰ.tail n, a, b)
    ]
  ]

  pub others-on_peer : (ps : List PeerRecord) → others (on_peer url f ps) ≡ others ps
  unfolding on_peer
  others-on_peer [] = refl
  others-on_peer (p ∷ ps) = elim (Bool-cases (p.url == url)) [
    | inl e ↦ rw e (λ i. if is_bootstrap ((keeps p).1 i) then others ps else suc (others ps))
    | inr e ↦ rw e (ground (arith, others-on_peer ps))
  ]

pub others-select :
    (q : PeerRecord → Bool) (ps : List PeerRecord) → others (select q ps) ≤ others ps
unfolding filter_map
others-select q [] = omega arith
others-select q (p ∷ ps) = elim (Bool-cases (q p)) [
  | inl e ↦ rw (select-cons_true q p ps e) (ground (arith, others-select q ps))
  | inr e ↦ rw (select-cons_false q p ps e) (ground (arith, others-select q ps))
]

pub others-le : (ps : List PeerRecord) → others ps ≤ length ps
others-le [] = omega arith
others-le (p ∷ ps) = ground (arith, others-le ps)

pub others-append_one :
    (ps : List PeerRecord) (p : PeerRecord)
    → others (ps ++ p ∷ []) ≡ others ps + (if is_bootstrap p.source then 0 else 1)
others-append_one [] p = ground arith
others-append_one (x ∷ ps) p = ground (arith, others-append_one ps p)

pub urls-append_one :
    (ps : List PeerRecord) (p : PeerRecord)
    → map (λ (q : PeerRecord). q.url) (ps ++ p ∷ [])
      ≡ map (λ (q : PeerRecord). q.url) ps ++ p.url ∷ []
urls-append_one [] p = refl
urls-append_one (x ∷ ps) p = ap (λ z. x.url ∷ z) (urls-append_one ps p)

pub has_peer_complete :
    (ps : List PeerRecord) (url : String)
    → Memᴰ url (map (λ (q : PeerRecord). q.url) ps)
    → has_peer ps url ≡ true
has_peer_complete ps url m =
    let (p, n, e) = Memᴰ-map (λ (q : PeerRecord). q.url) ps m in
    any_complete (λ (q : PeerRecord). q.url == url) n ((eq_iff p.url url).1 (sym e))

-- Where no address is there twice, the peers of a file are the table.
mem_middle :
    (ps l : List PeerRecord) (p : PeerRecord)
    → Memᴰ p.url (map (λ (q : PeerRecord). q.url) (ps ++ p ∷ l))
mem_middle [] l p = Memᴰ.head refl
mem_middle (x ∷ ps) l p = Memᴰ.tail (mem_middle ps l p)

fresh_middle :
    (ps l : List PeerRecord) (p : PeerRecord)
    → Distinct (map (λ (q : PeerRecord). q.url) (ps ++ p ∷ l))
    → Memᴰ p.url (map (λ (q : PeerRecord). q.url) ps)
    → ⊥
fresh_middle [] l p d m = elim m [ ]
fresh_middle (x ∷ ps) l p d m = elim (Memᴰ-cons m) [
  | inl e ↦
      d.0
        (subst (λ s. Memᴰ s (map (λ (q : PeerRecord). q.url) (ps ++ p ∷ l))) e (mem_middle ps l p))
  | inr k ↦ fresh_middle ps l p d.1 k
]

set_peer_fresh :
    (p : PeerRecord) (ps : List PeerRecord)
    → (Memᴰ p.url (map (λ (q : PeerRecord). q.url) ps) → ⊥)
    → set_peer p ps ≡ ps ++ p ∷ []
unfolding set_peer
set_peer_fresh p [] fresh = refl
set_peer_fresh p (x ∷ ps) fresh = elim (Bool-cases (x.url == p.url)) [
  | inl e ↦ absurd (fresh (Memᴰ.head (sym ((eq_iff x.url p.url).0 e))))
  | inr e ↦ rw e (ap (λ z. x ∷ z) (set_peer_fresh p ps (λ m. fresh (Memᴰ.tail m))))
]

set_peers_lem :
    (l ps : List PeerRecord)
    → Distinct (map (λ (q : PeerRecord). q.url) (ps ++ l))
    → set_peers l ps ≡ ps ++ l
set_peers_lem [] ps d = sym (append-nil ps)
set_peers_lem (p ∷ l) ps d =
    let one = set_peer_fresh p ps (fresh_middle ps l p d) in
    let moved : (ps ++ p ∷ []) ++ l ≡ ps ++ p ∷ l = append_assoc ps (p ∷ []) l in
    ap (set_peers l) one
    ∙ set_peers_lem l (ps ++ p ∷ [])
        (subst (λ k. Distinct (map (λ (q : PeerRecord). q.url) k)) (sym moved) d)
    ∙ moved

pub set_peers-nil :
    (l : List PeerRecord) → Distinct (map (λ (q : PeerRecord). q.url) l) → set_peers l [] ≡ l
set_peers-nil l d = set_peers_lem l [] d
