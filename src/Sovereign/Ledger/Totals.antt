-- ===== src/Sovereign/Ledger/Totals.antt =====
-- src/sovereign/rewards.ts: the payout simulator agrees with the ledger's totals.
use gstdbot.Common.{
  ℕ, ◌+◌, String, ◌==◌, eq_iff, eq_refl, Bool, false, if◌then◌else◌, List, filter_map, [], ◌∷◌,
  select, select-cons_true, select-cons_false, str_lt, arith, ◌≡◌, refl, sym, ap, ◌∙◌, inl, inr,
  Memᴰ, Memᴰ-sort, Bool-cases,
}
use gstdbot.Sovereign.Rewards.{Accrual, accrued}
use gstdbot.Sovereign.Ledger.{
  Ledger, list_entries, sum_of, total_for, add_to, pay_all, simulate_payout,
}

-- The amount under a node of the simulator's answer, 0 where it has none.
pub paid : String → List (String × ℕ) → ℕ
paid node [] = 0
paid node (p ∷ l) = if p.0 == node then p.1 else paid node l

paid-add_to :
    (n m : String) (amount : ℕ) (l : List (String × ℕ))
    → paid n (add_to m amount l) ≡ paid n l + (if m == n then amount else 0)
unfolding paid add_to
paid-add_to n m amount [] = ground arith
paid-add_to n m amount (p ∷ l) = elim (Bool-cases (p.0 == m)) [
  | inl e ↦ rw ((eq_iff p.0 m).0 e, eq_refl m) (ground arith)
  | inr e ↦ elim (Bool-cases (p.0 == n)) [
    | inl f ↦
        let other : (m == n) ≡ false = elim (Bool-cases (m == n)) [
          | inl g ↦ absurd (cc ((eq_iff p.0 m).1 ((eq_iff p.0 n).0 f ∙ sym ((eq_iff m n).0 g)), e))
          | inr g ↦ g
        ] in
        rw (e, f, other) (omega arith)
    | inr f ↦ rw (e, f, paid-add_to n m amount l) refl
  ]
]

sum_of-select :
    (p : Accrual → Bool) (a : Accrual) (l : List Accrual)
    → sum_of (select p (a ∷ l)) ≡ (if p a then a.amount_nano else 0) + sum_of (select p l)
unfolding sum_of
sum_of-select p a l = elim (Bool-cases (p a)) [
  | inl e ↦ rw (select-cons_true p a l e, e) refl
  | inr e ↦ rw (select-cons_false p a l e, e) (omega arith)
]

pay_all-accrued :
    (a : Accrual) (l : List Accrual) (acc : List (String × ℕ))
    → a.state ≡ accrued
    → pay_all (a ∷ l) acc ≡ pay_all l (add_to a.node a.amount_nano acc)
unfolding pay_all
pay_all-accrued a l acc h = rw h refl

paid-pay_all :
    (n : String) (l : List Accrual) (acc : List (String × ℕ))
    → ((a : Accrual) → Memᴰ a l → a.state ≡ accrued)
    → paid n (pay_all l acc) ≡ paid n acc + sum_of (select (λ (a : Accrual). a.node == n) l)
unfolding pay_all sum_of filter_map
paid-pay_all n [] acc all_accrued = omega arith
paid-pay_all n (a ∷ l) acc all_accrued =
    let rest =
      paid-pay_all n l (add_to a.node a.amount_nano acc) (λ x m. all_accrued x (Memᴰ.tail m)) in
    ap (paid n) (pay_all-accrued a l acc (all_accrued a (Memᴰ.head refl)))
    ∙ omega (
      arith,
      rest,
      paid-add_to n a.node a.amount_nano acc,
      sum_of-select (λ (x : Accrual). x.node == n) a l,
    )

-- The payout simulator gives each node the total of its entries, where all are accrued.
pub simulate_payout-total_for :
    (l : Ledger) (node : String)
    → ((a : Accrual) → Memᴰ a l.books.entries → a.state ≡ accrued)
    → paid node (simulate_payout l).per_node ≡ total_for l node
unfolding paid
simulate_payout-total_for l node all_accrued = omega (
  arith,
  paid-pay_all node (list_entries l) [] (λ a m.
      all_accrued a
        (Memᴰ-sort (λ (x y : Accrual). str_lt x.accrual_id y.accrual_id) l.books.entries m)),
)
