-- ===== src/P2p/Peers/Best.antt =====
-- src/p2p/peers.ts: the peer that `getBestPeer` chooses.
use gstdbot.Common.{
  ℕ, ◌≤◌, ◌<◌, ◌+◌, ◌-◌, ◌*◌, ◌==◌, ◌≢◌, eq_iff, Bool-cases, map, lookup, String, Bool, true, false,
  Option, none, some, List, [], ◌∷◌, head?, sort, select, IsStrictOrder, IsSorted, sort-IsSorted,
  arith, ◌≡◌, refl, ◌∙◌, subst, inl, inr, ◌⊎◌, eq_of_some, Memᴰ, Memᴰ-cons, Memᴰ-head, Memᴰ-sort,
  Memᴰ-sort_of, Memᴰ-select, Memᴰ-select_of,
}
use gstdbot.P2p.Peers.{PeerInfo, PeerManager, PeerQuality, quality_or_new}
use gstdbot.P2p.Peers.Scores.{has_model, is_poor, score, before, values, is_eligible, get_best_peer}

before-IsStrictOrder : (m : PeerManager) (model : String) → IsStrictOrder (before m model)
before-IsStrictOrder m model = record {
  asym = λ x y h. ground arith;
  trans = λ x y z h k. ground arith;
  weak = λ x y z h k. ground arith;
}

head?-IsSorted {ℓ} :
    {A : Type ℓ} (lt : A → A → Bool) (l : List A) {x y : A}
    → IsSorted lt l
    → head? l ≡ some x
    → Memᴰ y l
    → (y ≡ x) ⊎ (lt y x ≡ false)
head?-IsSorted lt [] s h m = absurd (cc)
head?-IsSorted lt (z ∷ l) {x} {y} (none_before, s) h m =
    let same : z ≡ x = eq_of_some h in
    elim (Memᴰ-cons m) [
      | inl e ↦ inl (e ∙ same)
      | inr k ↦ inr (subst (λ w. lt y w ≡ false) same (none_before y k))
    ]

head?-none {ℓ} : {A : Type ℓ} (l : List A) {x : A} → head? l ≡ none → Memᴰ x l → ⊥
head?-none [] h m = elim m [ ]
head?-none (y ∷ l) h m = cc

abbrev pub quality_of : PeerManager → PeerInfo → PeerQuality
quality_of m p = quality_or_new (lookup p.node_id m.quality)

-- A peer of the table that was seen in the last five minutes, is not this node, has a latency below
-- that of a peer that was never measured, and has not failed three times in a row.
pub record IsCandidate (now : ℕ) (self_url : String) (m : PeerManager) (p : PeerInfo) : Type 0 where
  pub held : Memᴰ p (map (λ (e : String × PeerInfo). e.1) m.peers)
  pub seen : now - p.last_seen < 300000
  pub other : p.url ≢ self_url
  pub measured : p.latency_ms < 9999
  pub answers : (quality_of m p).consecutive_fails < 3

-- At least five calls, of which more than 30% failed.
abbrev pub IsFailing : PeerManager → PeerInfo → Type 0
IsFailing m p =
    (5 ≤ (quality_of m p).successes + (quality_of m p).failures)
    × (3 * ((quality_of m p).successes + (quality_of m p).failures)
        < 10 * (quality_of m p).failures)

-- A peer that is no worse than another in anything, and is faster.
pub record IsBetter (model : String) (m : PeerManager) (q p : PeerInfo) : Type 0 where
  pub faster : q.latency_ms < p.latency_ms
  pub counted : q.latency_ms < 2000
  pub has : has_model model p ≡ true → has_model model q ≡ true
  pub works : IsFailing m q → IsFailing m p
  pub lasts : p.uptime ≤ q.uptime

-- What a choice is: nobody, where there is no candidate, or a candidate than which none is better.
abbrev pub IsBest : ℕ → String → String → PeerManager → Option PeerInfo → Type 0
IsBest now self_url model m none = (q : PeerInfo) → IsCandidate now self_url m q → ⊥
IsBest now self_url model m (some p) =
    IsCandidate now self_url m p
    × ((q : PeerInfo) → IsCandidate now self_url m q → IsBetter model m q p → ⊥)

module _ (now : ℕ) (self_url model : String) (m : PeerManager) where
  is_eligible_sound :
      (p : PeerInfo)
      → Memᴰ p (values m.peers)
      → is_eligible now self_url m p ≡ true
      → IsCandidate now self_url m p
  unfolding is_eligible
  is_eligible_sound p there ok = record {
    held = there;
    seen = ground (arith, ok);
    other = λ s. absurd (ground (arith, ok, (eq_iff p.url self_url).1 s));
    measured = ground (arith, ok);
    answers = ground (arith, ok);
  }

  is_eligible_complete :
      (p : PeerInfo) → IsCandidate now self_url m p → is_eligible now self_url m p ≡ true
  unfolding is_eligible
  is_eligible_complete p c =
      let away : (p.url == self_url) ≡ false = elim (Bool-cases (p.url == self_url)) [
        | inl e ↦ absurd (c.other ((eq_iff p.url self_url).0 e))
        | inr e ↦ e
      ] in
      ground (arith, away, c.seen, c.measured, c.answers)

  score-IsBetter : (q p : PeerInfo) → IsBetter model m q p → score m model p < score m model q
  unfolding score
  score-IsBetter q p b =
      let works : is_poor (quality_of m q) ≡ true → is_poor (quality_of m p) ≡ true = λ h.
        let (many, bad) = b.works (ground (arith, h), ground (arith, h)) in
        ground (arith, many, bad) in
      elim (Bool-cases (has_model model p)) [
        | inl e ↦
            let g = b.has e in
            elim (Bool-cases (is_poor (quality_of m q))) [
              | inl h ↦
                  let k = works h in rw (e, g, h, k) (ground (arith, b.faster, b.counted, b.lasts))
              | inr h ↦ rw (e, g, h) (ground (arith, b.faster, b.counted, b.lasts))
            ]
        | inr e ↦ elim (Bool-cases (is_poor (quality_of m q))) [
          | inl h ↦ let k = works h in rw (e, h, k) (ground (arith, b.faster, b.counted, b.lasts))
          | inr h ↦ rw (e, h) (ground (arith, b.faster, b.counted, b.lasts))
        ]
      ]

  chosen-IsBest :
      (o : Option PeerInfo) → get_best_peer now self_url model m ≡ o → IsBest now self_url model m o
  unfolding get_best_peer
  chosen-IsBest none h = λ q c. head?-none _ h (
      Memᴰ-sort_of (before m model) _
        (Memᴰ-select_of (is_eligible now self_url m) c.held (is_eligible_complete q c)))
  chosen-IsBest (some p) h =
      let passing = select (is_eligible now self_url m) (values m.peers) in
      let (there, ok) =
        Memᴰ-select (is_eligible now self_url m) (values m.peers)
          (Memᴰ-sort (before m model) passing (Memᴰ-head (sort (before m model) passing) h)) in
      (
        is_eligible_sound p there ok,
        λ q c better.
            let more = score-IsBetter q p better in
            elim (head?-IsSorted (before m model) (sort (before m model) passing)
              (sort-IsSorted (before m model) (before-IsStrictOrder m model) passing) h
              (Memᴰ-sort_of (before m model) passing
                (Memᴰ-select_of (is_eligible now self_url m) c.held (is_eligible_complete q c)))) [
                  | inl same ↦
                      let less : score m model p < score m model p =
                        subst (λ x. score m model p < score m model x) same more in
                      absurd (omega arith)
                  | inr not_before ↦ absurd (ground (arith, not_before, more))
                ],
      )

  -- A request goes to nobody only where there is no candidate; else it goes to a candidate. A candidate
  -- is a peer of the table that was seen less than 300 seconds ago, has another url than this node, a
  -- latency below 9999 ms, and fewer than three failures in a row. No candidate is faster than the
  -- chosen one, with a latency below 2000 ms, and no worse in the rest: it has the model where the
  -- chosen one has it, does not fail more than 30% of five calls or more where the chosen one does not,
  -- and is up for as long.
  pub get_best_peer-IsBest : IsBest now self_url model m (get_best_peer now self_url model m)
  get_best_peer-IsBest = chosen-IsBest _ refl
