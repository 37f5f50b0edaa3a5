-- ===== src/Sovereign/Ingest/Puts.antt =====
-- src/sovereign/board.ts: the Map of envelopes as a list in insertion order, one for each id.
use gstdbot.Common.{
  ◌==◌, eq_iff, true, false, if◌then◌else◌, ◌≡◌, refl, sym, ap, ◌∙◌, List, [], ◌∷◌, ◌++◌, any,
  any_sound, any_complete, Memᴰ, Memᴰ-append, Memᴰ-append_left, Memᴰ-append_right, Distinct,
  Distinct-concat, eq_refl, Memᴰ-cons, ◌⊎◌, inl, inr, Bool-cases,
}
use gstdbot.Sovereign.Envelope.{Envelope, Payload}
use gstdbot.Sovereign.Board.Order.{IdsAgree}

-- What `ingest` does to the Map.
unfoldable pub put : List (Envelope Payload) → Envelope Payload → List (Envelope Payload)
put os x = if any (λ y. y.id == x.id) os then os else os ++ x ∷ []

module _ (os : List (Envelope Payload)) (x : Envelope Payload) where
  put_cases :
      ((any (λ y. y.id == x.id) os ≡ true) × (put os x ≡ os))
      ⊎ ((any (λ y. y.id == x.id) os ≡ false) × (put os x ≡ os ++ x ∷ []))
  unfolding put
  put_cases = elim (Bool-cases (any (λ y. y.id == x.id) os)) [
    | inl e ↦ inl (e, rw e)
    | inr e ↦ inr (e, rw e)
  ]

  Memᴰ-put : {y : Envelope Payload} → Memᴰ y (put os x) → Memᴰ y os ⊎ (y ≡ x)
  Memᴰ-put {y} m = elim put_cases [
    | inl (_, e) ↦ inl (rw e at m)
    | inr (_, e) ↦ elim (Memᴰ-append os (rw e at m)) [
      | inl k ↦ inl k
      | inr k ↦ elim (Memᴰ-cons k) [ inl h ↦ inr h | inr z ↦ elim z [ ] ]
    ]
  ]

  Memᴰ-put_old : {y : Envelope Payload} → Memᴰ y os → Memᴰ y (put os x)
  Memᴰ-put_old m = elim put_cases [
    | inl (_, e) ↦ rw e m
    | inr (_, e) ↦ rw e (Memᴰ-append_left (x ∷ []) m)
  ]

  Memᴰ-put_new : ((y : Envelope Payload) → Memᴰ y os → y.id ≡ x.id → y ≡ x) → Memᴰ x (put os x)
  Memᴰ-put_new agree = elim put_cases [
    | inl (held, e) ↦
        let (y, m, same) = any_sound (λ y. y.id == x.id) os held in
        rw e (rw (agree y m ((eq_iff y.id x.id).0 same)) at m)
    | inr (_, e) ↦ rw e (Memᴰ-append_right os (Memᴰ.head refl))
  ]

  Distinct-put : Distinct os → Distinct (put os x)
  Distinct-put d = elim put_cases [
    | inl (_, e) ↦ rw e d
    | inr (new, e) ↦
        rw e (
          Distinct-concat os x d (λ m. cc (any_complete (λ y. y.id == x.id) m (eq_refl x.id), new)))
  ]

-- The envelopes of a list, put one after the other.
unfoldable pub put_all : List (Envelope Payload) → List (Envelope Payload) → List (Envelope Payload)
put_all os [] = os
put_all os (x ∷ xs) = put_all (put os x) xs

pub Distinct-put_all : (os xs : List (Envelope Payload)) → Distinct os → Distinct (put_all os xs)
unfolding put_all
Distinct-put_all os [] d = d
Distinct-put_all os (x ∷ xs) d = Distinct-put_all (put os x) xs (Distinct-put os x d)

pub Memᴰ-put_all :
    (os xs : List (Envelope Payload)) {y : Envelope Payload}
    → Memᴰ y (put_all os xs)
    → Memᴰ y os ⊎ Memᴰ y xs
unfolding put_all
Memᴰ-put_all os [] m = inl m
Memᴰ-put_all os (x ∷ xs) m = elim (Memᴰ-put_all (put os x) xs m) [
  | inr k ↦ inr (Memᴰ.tail k)
  | inl k ↦ elim (Memᴰ-put os x k) [ inl h ↦ inl h | inr e ↦ inr (Memᴰ.head e) ]
]

Memᴰ-put_all_old :
    (os xs : List (Envelope Payload)) {y : Envelope Payload} → Memᴰ y os → Memᴰ y (put_all os xs)
unfolding put_all
Memᴰ-put_all_old os [] m = m
Memᴰ-put_all_old os (x ∷ xs) m = Memᴰ-put_all_old (put os x) xs (Memᴰ-put_old os x m)

-- Ids name one envelope among those held and those to come.
abbrev pub AllAgree : List (Envelope Payload) → List (Envelope Payload) → Type 0
AllAgree os xs =
    (x y : Envelope Payload) → Memᴰ x os ⊎ Memᴰ x xs → Memᴰ y os ⊎ Memᴰ y xs → x.id ≡ y.id → x ≡ y

AllAgree-put :
    (os xs : List (Envelope Payload)) (x : Envelope Payload)
    → AllAgree os (x ∷ xs)
    → AllAgree (put os x) xs
AllAgree-put os xs x agree u v mu mv = agree u v (back mu) (back mv)
  where
    back : {z : Envelope Payload} → Memᴰ z (put os x) ⊎ Memᴰ z xs → Memᴰ z os ⊎ Memᴰ z (x ∷ xs)
    back (inr k) = inr (Memᴰ.tail k)
    back (inl k) = elim (Memᴰ-put os x k) [ inl h ↦ inl h | inr e ↦ inr (Memᴰ.head e) ]

pub Memᴰ-put_all_new :
    (os xs : List (Envelope Payload)) {y : Envelope Payload}
    → AllAgree os xs
    → Memᴰ y xs
    → Memᴰ y (put_all os xs)
unfolding put_all
Memᴰ-put_all_new os [] agree m = elim m [ ]
Memᴰ-put_all_new os (x ∷ xs) {y} agree m = elim (Memᴰ-cons m) [
  | inl e ↦ rw e (
      Memᴰ-put_all_old (put os x) xs
        (Memᴰ-put_new os x (λ z n same. agree z x (inl n) (inr (Memᴰ.head refl)) same)))
  | inr k ↦ Memᴰ-put_all_new (put os x) xs (AllAgree-put os xs x agree) k
]

IdsAgree-put :
    (os : List (Envelope Payload)) (x : Envelope Payload) → IdsAgree os → IdsAgree (put os x)
IdsAgree-put os x agree u v mu mv same = elim (put_cases os x) [
  | inl (_, e) ↦ agree u v (rw e at mu) (rw e at mv) same
  | inr (new, e) ↦ elim (Memᴰ-put os x mu) [
    | inl ku ↦ elim (Memᴰ-put os x mv) [
      | inl kv ↦ agree u v ku kv same
      | inr ev ↦ absurd (fresh new ku (same ∙ ap (λ z. z.id) ev))
    ]
    | inr eu ↦ elim (Memᴰ-put os x mv) [
      | inl kv ↦ absurd (fresh new kv (sym same ∙ ap (λ z. z.id) eu))
      | inr ev ↦ eu ∙ sym ev
    ]
  ]
]
  where
    fresh :
        any (λ y. y.id == x.id) os ≡ false → {y : Envelope Payload} → Memᴰ y os → y.id ≡ x.id → ⊥
    fresh new {y} m h = cc (any_complete (λ y. y.id == x.id) m ((eq_iff y.id x.id).1 h), new)

pub IdsAgree-put_all : (os xs : List (Envelope Payload)) → IdsAgree os → IdsAgree (put_all os xs)
unfolding put_all
IdsAgree-put_all os [] agree = agree
IdsAgree-put_all os (x ∷ xs) agree = IdsAgree-put_all (put os x) xs (IdsAgree-put os x agree)
