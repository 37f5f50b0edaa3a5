-- ===== src/Core/EventBus/Subscriptions.antt =====
-- src/core/event-bus.ts: the subscriptions of a client.
use gstdbot.Common.{
  String, ◌==◌, eq_iff, not, Option, List, [], ◌∷◌, arith, ◌≡◌, refl, sym, ◌∙◌, ◌⊎◌, inl, inr, ◌↔◌,
  Memᴰ, Memᴰ-cons, Memᴰ-select, Memᴰ-select_of, Bool-cases,
}
use gstdbot.Core.EventBus.{
  Client, add, add_all, delete, delete_all, subscribe, unsubscribe, topics_of, heard,
}

Memᴰ-add : (t : String) (l : List String) {s : String} → Memᴰ s (add t l) ↔ (s ≡ t) ⊎ Memᴰ s l
unfolding add
Memᴰ-add t [] = (
  λ m. elim (Memᴰ-cons m) [ inl e ↦ inl e | inr k ↦ inr k ],
  λ d. elim d [ inl e ↦ Memᴰ.head e | inr k ↦ Memᴰ.tail k ],
)
Memᴰ-add t (x ∷ l) {s} = elim (Bool-cases (x == t)) [
  | inl e ↦
      let same : x ≡ t = (eq_iff x t).0 e in
      rw e (λ m. inr m, λ d. elim d [ inl h ↦ Memᴰ.head (h ∙ sym same) | inr m ↦ m ])
  | inr e ↦ rw e (
    λ m. elim (Memᴰ-cons m) [
      | inl h ↦ inr (Memᴰ.head h)
      | inr k ↦ elim ((Memᴰ-add t l {s = s}).0 k) [ inl h ↦ inl h | inr n ↦ inr (Memᴰ.tail n) ]
    ],
    λ d. elim d [
      | inl h ↦ Memᴰ.tail ((Memᴰ-add t l {s = s}).1 (inl h))
      | inr m ↦ elim (Memᴰ-cons m) [
        | inl h ↦ Memᴰ.head h
        | inr k ↦ Memᴰ.tail ((Memᴰ-add t l {s = s}).1 (inr k))
      ]
    ],
  )
]

Memᴰ-add_all : (ts l : List String) {s : String} → Memᴰ s (add_all ts l) ↔ Memᴰ s ts ⊎ Memᴰ s l
unfolding add_all
Memᴰ-add_all [] l = (λ m. inr m, λ d. elim d [ inl m ↦ elim m [ ] | inr m ↦ m ])
Memᴰ-add_all (t ∷ ts) l {s} = (
  λ m. elim ((Memᴰ-add_all ts (add t l) {s = s}).0 m) [
    | inl k ↦ inl (Memᴰ.tail k)
    | inr k ↦ elim ((Memᴰ-add t l {s = s}).0 k) [ inl e ↦ inl (Memᴰ.head e) | inr n ↦ inr n ]
  ],
  λ d. (Memᴰ-add_all ts (add t l) {s = s}).1 (elim d [
    | inl m ↦ elim (Memᴰ-cons m) [ inl e ↦ inr ((Memᴰ-add t l {s = s}).1 (inl e)) | inr k ↦ inl k ]
    | inr m ↦ inr ((Memᴰ-add t l {s = s}).1 (inr m))
  ]),
)

Memᴰ-delete :
    (t : String) (l : List String) {s : String} → Memᴰ s (delete t l) ↔ Memᴰ s l × (s ≡ t → ⊥)
Memᴰ-delete t l {s} = (
  λ m.
      let (k, e) = Memᴰ-select (λ x. not (x == t)) l m in
      (k, λ h. absurd (ground (arith, (eq_iff s t).1 h))),
  λ (k, h).
      Memᴰ-select_of (λ x. not (x == t)) k
        (elim (Bool-cases (s == t)) [ inl e ↦ absurd (h ((eq_iff s t).0 e)) | inr e ↦ rw e refl ]),
)

Memᴰ-delete_all :
    (ts l : List String) {s : String} → Memᴰ s (delete_all ts l) ↔ Memᴰ s l × (Memᴰ s ts → ⊥)
unfolding delete_all
Memᴰ-delete_all [] l = (λ m. (m, λ k. elim k [ ]), λ (m, h). m)
Memᴰ-delete_all (t ∷ ts) l {s} = (
  λ m.
      let (k, h) = (Memᴰ-delete_all ts (delete t l) {s = s}).0 m in
      let (n, g) = (Memᴰ-delete t l {s = s}).0 k in
      (n, λ d. elim (Memᴰ-cons d) [ inl e ↦ g e | inr j ↦ h j ]),
  λ (m, h).
      (Memᴰ-delete_all ts (delete t l) {s = s}).1
        ((Memᴰ-delete t l {s = s}).1 (m, λ e. h (Memᴰ.head e)), λ k. h (Memᴰ.tail k)),
)

-- After a client's `subscribe` its subscriptions are those it had and the topics of the message; after
-- its `unsubscribe` they are those it had that are not among the topics. A message without topics
-- changes nothing.
pub heard-subscriptions :
    (topics : Option (List String)) (c : Client) (s : String)
    → (Memᴰ s (heard (subscribe topics) c).subscriptions
        ↔ Memᴰ s (topics_of topics) ⊎ Memᴰ s c.subscriptions)
      × (Memᴰ s (heard (unsubscribe topics) c).subscriptions
          ↔ Memᴰ s c.subscriptions × (Memᴰ s (topics_of topics) → ⊥))
heard-subscriptions topics c s = (
  Memᴰ-add_all (topics_of topics) c.subscriptions,
  Memᴰ-delete_all (topics_of topics) c.subscriptions,
)
