-- ===== src/Core/Failover/Orders.antt =====
-- src/core/model-failover.ts: the order in which models are tried.
use gstdbot.Common.{
  ℕ, String, ◌==◌, eq_iff, eq_refl, true, false, Option, none, some, List, [], ◌∷◌, ◌++◌, any_sound,
  any_complete, find_sound, find-none, arith, ◌≡◌, ap, subst, inl, inr, Memᴰ, Memᴰ-cons,
  Memᴰ-append_left, Memᴰ-append_right, Distinct, Distinct-concat, Option-cases, Bool-cases,
}
use gstdbot.Core.Failover.{
  ModelRecord, Failover, get_or_create, is_available, known_available, preference,
  available_in_chain, get_best_model, listed, add_available, add_rest, order_start, or_first,
  get_failover_order,
}

listed-Memᴰ : (l : List String) (id : String) → listed l id ≡ true → Memᴰ id l
listed-Memᴰ l id h =
    let (x, m, same) = any_sound (λ x. x == id) l h in
    subst (λ s. Memᴰ s l) ((eq_iff x id).0 same) m

not_listed : (l : List String) (id : String) → listed l id ≡ false → Memᴰ id l → ⊥
not_listed l id h m = cc (any_complete (λ x. x == id) m (eq_refl id), h)

add_rest-keeps :
    (ids order : List String) (id : String) → Memᴰ id order → Memᴰ id (add_rest ids order)
unfolding add_rest
add_rest-keeps [] order id m = m
add_rest-keeps (x ∷ ids) order id m = elim (Bool-cases (listed order x)) [
  | inl e ↦ rw e (add_rest-keeps ids order id m)
  | inr e ↦ rw e (add_rest-keeps ids (order ++ x ∷ []) id (Memᴰ-append_left (x ∷ []) m))
]

add_rest-complete :
    (ids order : List String) (id : String) → Memᴰ id ids → Memᴰ id (add_rest ids order)
unfolding add_rest
add_rest-complete [] order id m = elim m [ ]
add_rest-complete (x ∷ ids) order id m = elim (Bool-cases (listed order x)) [
  | inl e ↦ rw e (elim (Memᴰ-cons m) [
    | inl same ↦ add_rest-keeps ids order id (rw same (listed-Memᴰ order x e))
    | inr k ↦ add_rest-complete ids order id k
  ])
  | inr e ↦ rw e (elim (Memᴰ-cons m) [
    | inl same ↦ add_rest-keeps ids (order ++ x ∷ []) id (Memᴰ-append_right order (Memᴰ.head same))
    | inr k ↦ add_rest-complete ids (order ++ x ∷ []) id k
  ])
]

add_rest-Distinct : (ids order : List String) → Distinct order → Distinct (add_rest ids order)
unfolding add_rest
add_rest-Distinct [] order d = d
add_rest-Distinct (x ∷ ids) order d = elim (Bool-cases (listed order x)) [
  | inl e ↦ rw e (add_rest-Distinct ids order d)
  | inr e ↦
      rw e
        (add_rest-Distinct ids (order ++ x ∷ []) (Distinct-concat order x d (not_listed order x e)))
]

module _ (now : ℕ) where
  add_available-Distinct :
      (ids : List String) (ms : List ModelRecord) (order : List String)
      → Distinct order
      → Distinct (add_available now ids ms order).0
  unfolding add_available
  add_available-Distinct [] ms order d = d
  add_available-Distinct (x ∷ ids) ms order d = elim (Bool-cases (listed order x)) [
    | inl e ↦ rw e (add_available-Distinct ids ms order d)
    | inr e ↦ elim (Bool-cases (is_available now (get_or_create ms x).0)) [
      | inl f ↦
          rw (e, f)
            (add_available-Distinct ids (get_or_create ms x).1 (order ++ x ∷ [])
              (Distinct-concat order x d (not_listed order x e)))
      | inr f ↦ rw (e, f) (add_available-Distinct ids (get_or_create ms x).1 order d)
    ]
  ]

  start-Distinct :
      (ms : List ModelRecord) (preferred : Option String)
      → Distinct (order_start now ms preferred).0
  start-Distinct ms none = tt
  start-Distinct ms (some id) = elim (Bool-cases (is_available now (get_or_create ms id).0)) [
    | inl g ↦ rw g (λ m. elim m [ ], tt)
    | inr g ↦ rw g tt
  ]

  -- Every model of the chain is in the failover order, and no model is in it twice.
  pub get_failover_order_complete :
      (f : Failover) (preferred : Option String) (id : String)
      → Memᴰ id f.chain
      → Distinct (get_failover_order now f preferred).0
        × Memᴰ id (get_failover_order now f preferred).0
  unfolding get_failover_order
  get_failover_order_complete f preferred id m =
      let (start, ms) = order_start now f.models (preference preferred) in
      (
        add_rest-Distinct f.chain (add_available now f.chain ms start).0 (
            add_available-Distinct f.chain ms start
              (start-Distinct f.models (preference preferred))),
        add_rest-complete f.chain (add_available now f.chain ms start).0 id m,
      )

  -- Where some model of the chain is available, the best model is one that is known and available.
  pub get_best_model-available :
      (f : Failover) (preferred : Option String) (id : String)
      → Memᴰ id f.chain
      → known_available now f.models id ≡ true
      → (best : String) × (get_best_model now f preferred ≡ some best)
        × (known_available now f.models best ≡ true)
  unfolding get_best_model
  get_best_model-available f preferred id m ok = elim (Option-cases (available_in_chain now f)) [
    | inl e ↦ absurd (cc (find-none (known_available now f.models) e m, ok))
    | inr (x, e) ↦ chosen preferred x e (find_sound (known_available now f.models) f.chain e).1
  ]
    where
      chosen :
          (preferred : Option String) (x : String)
          → available_in_chain now f ≡ some x
          → known_available now f.models x ≡ true
          → (best : String) × (get_best_model now f preferred ≡ some best)
            × (known_available now f.models best ≡ true)
      chosen none x e good = (x, ap (or_first f) e, good)
      chosen (some p) x e good = elim (Bool-cases (p == "")) [
        | inl g ↦ (x, ground (arith, g, e), good)
        | inr g ↦ elim (Bool-cases (known_available now f.models p)) [
          | inl k ↦ (p, ground (arith, g, k), k)
          | inr k ↦ (x, ground (arith, g, k, e), good)
        ]
      ]
