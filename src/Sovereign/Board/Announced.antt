-- ===== src/Sovereign/Board/Announced.antt =====
-- src/sovereign/board.ts: `announces` has one announcement for each signer, and it is on the board.
use gstdbot.Common.{
  ltb, eqb, String, ◌==◌, eq_iff, ◌&&◌, ◌||◌, str_lt, List, [], ◌∷◌, map, arith, ◌≡◌, subst, ◌⊎◌,
  inl, inr, Bool-cases, Memᴰ, Memᴰ-cons, Memᴰ-filter_map, Distinct, some,
}
use gstdbot.Sovereign.Envelope.{Envelope, Payload, Announce, as_announce}
use gstdbot.Sovereign.Board.Store.{Board, of_type}
use gstdbot.Sovereign.Board.Entities.{announces, put_announce, put_announces}

abbrev announcers : List (Envelope Announce) → List String
announcers l = map (λ (a : Envelope Announce). a.signer) l

Memᴰ-put_announce :
    (e : Envelope Announce) (l : List (Envelope Announce)) {a : Envelope Announce}
    → Memᴰ a (put_announce e l)
    → (a ≡ e) ⊎ Memᴰ a l
unfolding put_announce
Memᴰ-put_announce e [] m = Memᴰ-cons m
Memᴰ-put_announce e (cur ∷ l) {a} m = elim (Bool-cases (cur.signer == e.signer)) [
  | inl s ↦ elim (Bool-cases (ltb cur.ts e.ts || eqb e.ts cur.ts && str_lt cur.id e.id)) [
    | inl c ↦ elim (Memᴰ-cons (rw (s, c) at m)) [ inl h ↦ inl h | inr k ↦ inr (Memᴰ.tail k) ]
    | inr c ↦ inr (rw (s, c) at m)
  ]
  | inr s ↦ elim (Memᴰ-cons (rw s at m)) [
    | inl h ↦ inr (Memᴰ.head h)
    | inr k ↦ elim (Memᴰ-put_announce e l k) [ inl h ↦ inl h | inr n ↦ inr (Memᴰ.tail n) ]
  ]
]

Memᴰ-put_announces :
    (latest es : List (Envelope Announce)) {a : Envelope Announce}
    → Memᴰ a (put_announces latest es)
    → Memᴰ a latest ⊎ Memᴰ a es
unfolding put_announces
Memᴰ-put_announces latest [] m = inl m
Memᴰ-put_announces latest (e ∷ es) m = elim (Memᴰ-put_announces (put_announce e latest) es m) [
  | inr k ↦ inr (Memᴰ.tail k)
  | inl k ↦ elim (Memᴰ-put_announce e latest k) [ inl h ↦ inr (Memᴰ.head h) | inr n ↦ inl n ]
]

pub announces_sound :
    (b : Board) {a : Envelope Announce}
    → Memᴰ a (announces b)
    → (e : Envelope Payload) × Memᴰ e b.objects × (as_announce e ≡ some a)
announces_sound b m = elim (Memᴰ-put_announces [] (of_type as_announce b) m) [
  | inl k ↦ elim k [ ]
  | inr k ↦ Memᴰ-filter_map as_announce b.objects k
]

Memᴰ-announcers :
    (e : Envelope Announce) (l : List (Envelope Announce)) {s : String}
    → Memᴰ s (announcers (put_announce e l))
    → (s ≡ e.signer) ⊎ Memᴰ s (announcers l)
unfolding put_announce
Memᴰ-announcers e [] m = Memᴰ-cons m
Memᴰ-announcers e (cur ∷ l) {s} m = elim (Bool-cases (cur.signer == e.signer)) [
  | inl same ↦ elim (Bool-cases (ltb cur.ts e.ts || eqb e.ts cur.ts && str_lt cur.id e.id)) [
    | inl c ↦ elim (Memᴰ-cons (rw (same, c) at m)) [ inl h ↦ inl h | inr k ↦ inr (Memᴰ.tail k) ]
    | inr c ↦ inr (rw (same, c) at m)
  ]
  | inr other ↦ elim (Memᴰ-cons (rw other at m)) [
    | inl h ↦ inr (Memᴰ.head h)
    | inr k ↦ elim (Memᴰ-announcers e l k) [ inl h ↦ inl h | inr n ↦ inr (Memᴰ.tail n) ]
  ]
]

Distinct-put_announce :
    (e : Envelope Announce) (l : List (Envelope Announce))
    → Distinct (announcers l)
    → Distinct (announcers (put_announce e l))
unfolding put_announce
Distinct-put_announce e [] d = (λ m. elim m [ ], tt)
Distinct-put_announce e (cur ∷ l) d = elim (Bool-cases (cur.signer == e.signer)) [
  | inl s ↦
      let same : cur.signer ≡ e.signer = (eq_iff cur.signer e.signer).0 s in
      elim (Bool-cases (ltb cur.ts e.ts || eqb e.ts cur.ts && str_lt cur.id e.id)) [
        | inl c ↦ rw (s, c) (subst (λ x. Memᴰ x (announcers l) → ⊥) same d.0, d.1)
        | inr c ↦ rw (s, c) d
      ]
  | inr s ↦ rw s (
    λ m. elim (Memᴰ-announcers e l m) [
      | inl h ↦ absurd (ground (arith, (eq_iff cur.signer e.signer).1 h))
      | inr k ↦ d.0 k
    ],
    Distinct-put_announce e l d.1,
  )
]

Distinct-put_announces :
    (latest es : List (Envelope Announce))
    → Distinct (announcers latest)
    → Distinct (announcers (put_announces latest es))
unfolding put_announces
Distinct-put_announces latest [] d = d
Distinct-put_announces latest (e ∷ es) d =
    Distinct-put_announces (put_announce e latest) es (Distinct-put_announce e latest d)

pub announces-Distinct :
    (b : Board) → Distinct (map (λ (a : Envelope Announce). a.signer) (announces b))
announces-Distinct b = Distinct-put_announces [] (of_type as_announce b) tt
