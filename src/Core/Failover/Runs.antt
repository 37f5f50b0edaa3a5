-- ===== src/Core/Failover/Runs.antt =====
-- src/core/model-failover.ts: what `executeWithFailover` returns, and when it fails.
use gstdbot.Common.{
  ℕ, ◌-◌, String, ◌==◌, eq_iff, true, Option, none, some, List, [], ◌∷◌, ◌++◌, arith, ◌≡◌, refl,
  sym, ap, subst, ◌⊎◌, inl, inr, eq_of_some, Memᴰ, Memᴰ-cons, Bool-cases,
}
use gstdbot.Core.Failover.{
  Failover, Attempt, returns, throws, Success, listed, try_all, record_failure, get_failover_order,
  execute_with_failover,
}
use gstdbot.Core.Failover.Orders.{get_failover_order_complete}

pub Attempt-cases {ℓ} :
    {A : Type ℓ} (a : Attempt A)
    → ((x : A) × (end : ℕ) × (a ≡ returns x end)) ⊎ ((e : String) × (end : ℕ) × (a ≡ throws e end))
Attempt-cases (returns x end) = inl (x, end, refl)
Attempt-cases (throws e end) = inr (e, end, refl)

module _ {A : Type 0} (fn : String → ℕ → Attempt A) where
  -- The model was called, and threw.
  abbrev pub Threw : String → Type 0
  Threw id = (start : ℕ) × (error : String) × (end : ℕ) × (fn id start ≡ throws error end)

  -- The first model of a list that did not throw, and what it returned.
  pub record IsFirst (ids : List String) (s : Success A) : Type 0 where
    pub before : List String
    pub after : List String
    pub places : ids ≡ before ++ s.model ∷ after
    pub failed_before : (id : String) → Memᴰ id before → Threw id
    pub start : ℕ
    pub end : ℕ
    pub returned : fn s.model start ≡ returns s.result end
    pub latency : s.latency_ms ≡ end - start

  AllThrew : List String → Type 0
  AllThrew tried = (id : String) → listed tried id ≡ true → Threw id

  IsFirst-cons :
      (id : String) (ids : List String) (s : Success A)
      → Threw id
      → IsFirst ids s
      → IsFirst (id ∷ ids) s
  IsFirst-cons id ids s threw w = record {
    before = id ∷ w.before;
    after = w.after;
    places = ap (λ l. id ∷ l) w.places;
    failed_before = λ x m. elim (Memᴰ-cons m) [
      | inl e ↦ subst Threw (sym e) threw
      | inr k ↦ w.failed_before x k
    ];
    start = w.start;
    end = w.end;
    returned = w.returned;
    latency = w.latency;
  }

  AllThrew-cons :
      (id : String) (tried : List String) → Threw id → AllThrew tried → AllThrew (id ∷ tried)
  unfolding AllThrew
  AllThrew-cons id tried threw all_threw x h = elim (Bool-cases (id == x)) [
    | inl e ↦ subst Threw ((eq_iff id x).0 e) threw
    | inr e ↦ all_threw x (ground arith)
  ]

  try_all-IsFirst :
      (ids tried : List String) (now : ℕ) (f : Failover) {s : Success A}
      → AllThrew tried
      → (try_all fn ids tried now f).0 ≡ some s
      → IsFirst ids s
  unfolding try_all AllThrew
  try_all-IsFirst [] tried now f {s} all_threw h = absurd (ground arith)
  try_all-IsFirst (id ∷ ids) tried now f {s} all_threw h = elim (Bool-cases (listed tried id)) [
    | inl e ↦
        IsFirst-cons id ids s (all_threw id e)
          (try_all-IsFirst ids tried now f all_threw (rw e at h))
    | inr e ↦ elim (Attempt-cases (fn id now)) [
      | inl (x, end, g) ↦
          let made : record { result = x; model = id; latency_ms = end - now } ≡ s =
            eq_of_some (rw (e, g) at h) in
          subst (IsFirst (id ∷ ids)) made (record {
            before = [];
            after = ids;
            places = refl;
            failed_before = λ y m. elim m [ ];
            start = now;
            end = end;
            returned = g;
            latency = refl;
          })
      | inr (error, end, g) ↦
          let threw : Threw id = (now, error, end, g) in
          IsFirst-cons id ids s threw (
            try_all-IsFirst ids (id ∷ tried) end (record_failure end f id error)
              (AllThrew-cons id tried threw all_threw) (rw (e, g) at h))
    ]
  ]

  try_all-none :
      (ids tried : List String) (now : ℕ) (f : Failover)
      → AllThrew tried
      → (try_all fn ids tried now f).0 ≡ none
      → (id : String) → Memᴰ id ids
      → Threw id
  unfolding try_all AllThrew
  try_all-none [] tried now f all_threw h x m = elim m [ ]
  try_all-none (id ∷ ids) tried now f all_threw h x m = elim (Bool-cases (listed tried id)) [
    | inl e ↦ elim (Memᴰ-cons m) [
      | inl same ↦ subst Threw (sym same) (all_threw id e)
      | inr k ↦ try_all-none ids tried now f all_threw (rw e at h) x k
    ]
    | inr e ↦ elim (Attempt-cases (fn id now)) [
      | inl (y, end, g) ↦ absurd (ground arith)
      | inr (error, end, g) ↦
          let threw : Threw id = (now, error, end, g) in
          elim (Memᴰ-cons m) [
            | inl same ↦ subst Threw (sym same) threw
            | inr k ↦
                try_all-none ids (id ∷ tried) end (record_failure end f id error)
                  (AllThrew-cons id tried threw all_threw) (rw (e, g) at h) x k
          ]
    ]
  ]

  nothing_tried : AllThrew []
  unfolding AllThrew
  nothing_tried id h = absurd (ground arith)

  -- What a run returns is what the first model of the failover order that did not throw returned,
  -- with the time it took; every model before it in the order threw.
  pub execute_with_failover-IsFirst :
      (now : ℕ) (f : Failover) (preferred : Option String) (s : Success A)
      → (execute_with_failover fn now f preferred).0 ≡ some s
      → IsFirst (get_failover_order now f preferred).0 s
  unfolding execute_with_failover
  execute_with_failover-IsFirst now f preferred s h =
      try_all-IsFirst (get_failover_order now f preferred).0 [] now
        (get_failover_order now f preferred).1 nothing_tried h

  -- A run fails only where every model of the chain was called and threw.
  pub execute_with_failover-none :
      (now : ℕ) (f : Failover) (preferred : Option String) (id : String)
      → (execute_with_failover fn now f preferred).0 ≡ none
      → Memᴰ id f.chain
      → Threw id
  unfolding execute_with_failover
  execute_with_failover-none now f preferred id h m =
      try_all-none (get_failover_order now f preferred).0 [] now
        (get_failover_order now f preferred).1 nothing_tried h id
        (get_failover_order_complete now f preferred id m).1
