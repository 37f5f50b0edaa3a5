-- ===== src/Sovereign/Ledger/Again.antt =====
-- src/sovereign/rewards.ts: accruals that are applied again change nothing.
use gstdbot.Common.{
  ℕ, ◌+◌, ◌<◌, ltb, ◌==◌, eq_iff, eq_refl, Bool, true, false, not, ◌&&◌, ◌||◌, some, List, [], ◌∷◌,
  ◌++◌, any, arith, ◌≡◌, refl, sym, subst, ◌∙◌, inl, inr, Memᴰ, Memᴰ-cons, Option-cases, Bool-cases,
  and-true,
}
use gstdbot.Sovereign.Rewards.{RewardParams, Accrual}
use gstdbot.Sovereign.Ledger.{
  Books, Ledger, load, SkipReason, holds, settled, holds_result, is_subsidized, refusal, book,
  apply,
}
use gstdbot.Sovereign.Ledger.Sound.{
  IsAdmitted, refusal-none, set_entry-new, apply-skips, apply-admits,
}

any-concat :
    {A : Type 0} (p : A → Bool) (l : List A) (x : A) → any p (l ++ x ∷ []) ≡ (any p l || p x)
any-concat p [] x = ground arith
any-concat p (y ∷ l) x = ground (arith, any-concat p l x)

-- The three reasons to skip an accrual, as conditions on the books.
data IsSkipped (budget : ℕ) (b : Books) (a : Accrual) : Type 0 where
  held : holds b.entries a.accrual_id ≡ true → IsSkipped budget b a
  other : settled b a.task_id ≡ true → holds_result b.entries a ≡ false → IsSkipped budget b a
  poor : is_subsidized a ≡ true → budget < b.subsidy_spent + a.amount_nano → IsSkipped budget b a

refusal-IsSkipped :
    (budget : ℕ) (b : Books) (a : Accrual) {r : SkipReason}
    → refusal budget b a ≡ some r
    → IsSkipped budget b a
unfolding refusal
refusal-IsSkipped budget b a h = elim (Bool-cases (holds b.entries a.accrual_id)) [
  | inl e ↦ held e
  | inr e ↦ elim (Bool-cases (settled b a.task_id && not (holds_result b.entries a))) [
    | inl f ↦ other (ground arith) (ground arith)
    | inr f ↦ elim (Bool-cases (is_subsidized a && ltb budget (b.subsidy_spent + a.amount_nano))) [
      | inl g ↦ poor (ground arith) (ground arith)
      | inr g ↦ absurd (ground arith)
    ]
  ]
]

IsSkipped-refusal :
    (budget : ℕ) (b : Books) (a : Accrual)
    → IsSkipped budget b a
    → (r : SkipReason) × (refusal budget b a ≡ some r)
IsSkipped-refusal budget b a skipped = elim (Option-cases (refusal budget b a)) [
  | inr w ↦ w
  | inl e ↦
      let ok = refusal-none budget b a e in
      elim skipped [
        | held h ↦ absurd (cc (h, ok.fresh))
        | other h k ↦ elim ok.same_result [
          | inl j ↦ absurd (cc (h, j))
          | inr j ↦ absurd (cc (k, j))
        ]
        | poor h k ↦ elim ok.affordable [
          | inl j ↦ absurd (cc (h, j))
          | inr j ↦ absurd (omega (arith, k, j))
        ]
      ]
]

-- An accrual of a settled task's other result is not of the result of an admitted one.
admitted_elsewhere :
    (budget : ℕ) (b : Books) (x a : Accrual)
    → IsAdmitted budget b x
    → settled b a.task_id ≡ true
    → holds_result b.entries a ≡ false
    → ((x.task_id == a.task_id) && (x.result_id == a.result_id)) ≡ false
admitted_elsewhere budget b x a ok h k =
    elim (Bool-cases ((x.task_id == a.task_id) && (x.result_id == a.result_id))) [
      | inr e ↦ e
      | inl e ↦
          let (task, result) = and-true e in
          let same_task = (eq_iff x.task_id a.task_id).0 task in
          let same_result = (eq_iff x.result_id a.result_id).0 result in
          elim ok.same_result [
            | inl j ↦ absurd (cc (subst (λ t. settled b t ≡ false) same_task j, h))
            | inr j ↦ absurd (
                cc (
                  subst
                      (λ t.
                        any (λ (e : Accrual). (e.task_id == t) && (e.result_id == a.result_id))
                          b.entries
                        ≡ true)
                      same_task
                      (subst
                        (λ r.
                          any (λ (e : Accrual). (e.task_id == x.task_id) && (e.result_id == r))
                            b.entries
                          ≡ true)
                        same_result j),
                  k,
                ))
          ]
    ]

-- Entries that admitted accruals add make no skipped accrual admissible.
load-IsSkipped :
    (budget : ℕ) (b : Books) (x a : Accrual)
    → IsAdmitted budget b x
    → IsSkipped budget b a
    → IsSkipped budget (load x b) a
unfolding load
load-IsSkipped budget b x a ok (held h) = held (
    rw
      (
        set_entry-new x b.entries ok.fresh,
        any-concat (λ (e : Accrual). e.accrual_id == a.accrual_id) b.entries x,
        h,
      )
      refl)
load-IsSkipped budget b x a ok (other h k) =
    other (rw (any-concat (λ t. t == a.task_id) b.task_settled x.task_id, h) refl) (
      rw
        (
          set_entry-new x b.entries ok.fresh,
          any-concat (λ (e : Accrual). (e.task_id == a.task_id) && (e.result_id == a.result_id))
              b.entries x,
          k,
        )
        (admitted_elsewhere budget b x a ok h k))
load-IsSkipped budget b x a ok (poor h k) = poor h (omega (arith, k))

load-IsSkipped_self :
    (budget : ℕ) (b : Books) (a : Accrual) → IsAdmitted budget b a → IsSkipped budget (load a b) a
unfolding load
load-IsSkipped_self budget b a ok = held (
    rw
      (
        set_entry-new a b.entries ok.fresh,
        any-concat (λ (e : Accrual). e.accrual_id == a.accrual_id) b.entries a,
        eq_refl a.accrual_id,
      )
      (ground arith))

apply-params : (l : Ledger) (accruals : List Accrual) → (apply l accruals).0.params ≡ l.params
unfolding apply
apply-params l [] = refl
apply-params l (a ∷ rest) = elim (Option-cases (refusal l.params.subsidy_budget_nano l.books a)) [
  | inl e ↦ rw ((apply-admits l a rest e).0) (apply-params (book a l) rest)
  | inr (r, e) ↦ rw ((apply-skips l a rest e).0) (apply-params l rest)
]

apply-IsSkipped :
    (l : Ledger) (accruals : List Accrual) (a : Accrual)
    → IsSkipped l.params.subsidy_budget_nano l.books a
    → IsSkipped l.params.subsidy_budget_nano (apply l accruals).0.books a
unfolding apply
apply-IsSkipped l [] a skipped = skipped
apply-IsSkipped l (x ∷ rest) a skipped =
    elim (Option-cases (refusal l.params.subsidy_budget_nano l.books x)) [
      | inl e ↦ rw ((apply-admits l x rest e).0) (
          apply-IsSkipped (book x l) rest a (
            load-IsSkipped l.params.subsidy_budget_nano l.books x a
              (refusal-none l.params.subsidy_budget_nano l.books x e) skipped))
      | inr (r, e) ↦ rw ((apply-skips l x rest e).0) (apply-IsSkipped l rest a skipped)
    ]

apply-IsSkipped_all :
    (l : Ledger) (accruals : List Accrual) (a : Accrual)
    → Memᴰ a accruals
    → IsSkipped l.params.subsidy_budget_nano (apply l accruals).0.books a
apply-IsSkipped_all l [] a m = elim m [ ]
apply-IsSkipped_all l (x ∷ rest) a m =
    let budget = l.params.subsidy_budget_nano in
    elim (Option-cases (refusal budget l.books x)) [
      | inl e ↦ rw ((apply-admits l x rest e).0) (elim (Memᴰ-cons m) [
        | inl same ↦ apply-IsSkipped (book x l) rest a (
            subst (IsSkipped budget (load x l.books)) (sym same)
              (load-IsSkipped_self budget l.books x (refusal-none budget l.books x e)))
        | inr k ↦ apply-IsSkipped_all (book x l) rest a k
      ])
      | inr (r, e) ↦ rw ((apply-skips l x rest e).0) (elim (Memᴰ-cons m) [
        | inl same ↦
            apply-IsSkipped l rest a
              (subst (IsSkipped budget l.books) (sym same) (refusal-IsSkipped budget l.books x e))
        | inr k ↦ apply-IsSkipped_all l rest a k
      ])
    ]

apply-skipped :
    (l : Ledger) (again : List Accrual)
    → ((a : Accrual) → Memᴰ a again → IsSkipped l.params.subsidy_budget_nano l.books a)
    → ((apply l again).0 ≡ l) × ((apply l again).1.applied ≡ [])
unfolding apply
apply-skipped l [] all_skipped = (refl, refl)
apply-skipped l (x ∷ rest) all_skipped =
    let (r, e) =
      IsSkipped-refusal l.params.subsidy_budget_nano l.books x (all_skipped x (Memᴰ.head refl)) in
    let (same, none_applied) = apply-skipped l rest (λ a m. all_skipped a (Memᴰ.tail m)) in
    let (first, first_applied) = apply-skips l x rest e in
    (first ∙ same, first_applied ∙ none_applied)

-- Accruals that a ledger was given are applied at most once: given any of them again, in any order
-- and number, it applies none and does not change, its file included.
pub apply-again :
    (l : Ledger) (accruals again : List Accrual)
    → ((a : Accrual) → Memᴰ a again → Memᴰ a accruals)
    → ((apply (apply l accruals).0 again).0 ≡ (apply l accruals).0)
      × ((apply (apply l accruals).0 again).1.applied ≡ [])
apply-again l accruals again given =
    let l' = (apply l accruals).0 in
    apply-skipped l' again (λ a m.
      subst (λ (p : RewardParams). IsSkipped p.subsidy_budget_nano l'.books a)
        (sym (apply-params l accruals)) (apply-IsSkipped_all l accruals a (given a m)))
