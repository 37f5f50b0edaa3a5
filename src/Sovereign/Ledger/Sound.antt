-- ===== src/Sovereign/Ledger/Sound.antt =====
-- src/sovereign/rewards.ts: what the ledger keeps true of its entries.
use gstdbot.Common.{
  ℕ, ◌+◌, ◌≤◌, ltb, ◌==◌, eq_iff, true, false, not, ◌&&◌, none, some, List, [], ◌∷◌, ◌++◌, map, any,
  any_sound, any_complete, arith, ◌≡◌, refl, sym, ap, subst, ◌∙◌, ◌⊎◌, inl, inr, Memᴰ,
  Memᴰ-singleton, Memᴰ-append, Memᴰ-append_left, Memᴰ-append_right, Memᴰ-map, Distinct,
  Distinct-concat, Option-cases, Bool-cases, and-true,
}
use gstdbot.Sovereign.Rewards.{Accrual}
use gstdbot.Sovereign.Ledger.{
  Books, Ledger, set_entry, subsidy_of, load, SkipReason, holds, settled, holds_result,
  is_subsidized, refusal, book, apply,
}

-- The subsidised amounts of a list of entries together.
unfoldable pub subsidies : List Accrual → ℕ
subsidies [] = 0
subsidies (a ∷ l) = subsidy_of a + subsidies l

pub subsidies-append : (l k : List Accrual) → subsidies (l ++ k) ≡ subsidies l + subsidies k
unfolding subsidies
subsidies-append [] k = omega arith
subsidies-append (a ∷ l) k = omega (arith, subsidies-append l k)

pub set_entry-new :
    (a : Accrual) (l : List Accrual) → holds l a.accrual_id ≡ false → set_entry a l ≡ l ++ a ∷ []
unfolding set_entry
set_entry-new a [] h = refl
set_entry-new a (e ∷ l) h =
    let differs : (e.accrual_id == a.accrual_id) ≡ false = ground arith in
    rw (differs, set_entry-new a l (ground arith)) refl

subsidy_of-commercial : (a : Accrual) → is_subsidized a ≡ false → subsidy_of a ≡ 0
subsidy_of-commercial a h = ground arith

subsidy_of-le : (a : Accrual) → subsidy_of a ≤ a.amount_nano
subsidy_of-le a = ground arith

-- The ledger after a list that begins with an accrual that is skipped, or is not.
pub apply-skips :
    (l : Ledger) (a : Accrual) (rest : List Accrual) {r : SkipReason}
    → refusal l.params.subsidy_budget_nano l.books a ≡ some r
    → ((apply l (a ∷ rest)).0 ≡ (apply l rest).0)
      × ((apply l (a ∷ rest)).1.applied ≡ (apply l rest).1.applied)
unfolding apply
apply-skips l a rest h = rw (apply, h) (refl, refl)

pub apply-admits :
    (l : Ledger) (a : Accrual) (rest : List Accrual)
    → refusal l.params.subsidy_budget_nano l.books a ≡ none
    → ((apply l (a ∷ rest)).0 ≡ (apply (book a l) rest).0)
      × ((apply l (a ∷ rest)).1.applied ≡ a ∷ (apply (book a l) rest).1.applied)
unfolding apply
apply-admits l a rest h = rw (apply, h) (refl, refl)

-- What an accrual that `apply` does not skip has passed.
pub record IsAdmitted (budget : ℕ) (b : Books) (a : Accrual) : Type 0 where
  pub fresh : holds b.entries a.accrual_id ≡ false
  pub same_result : (settled b a.task_id ≡ false) ⊎ (holds_result b.entries a ≡ true)
  pub affordable : (is_subsidized a ≡ false) ⊎ (b.subsidy_spent + a.amount_nano ≤ budget)

pub refusal-none :
    (budget : ℕ) (b : Books) (a : Accrual) → refusal budget b a ≡ none → IsAdmitted budget b a
unfolding refusal
refusal-none budget b a h = elim (Bool-cases (holds b.entries a.accrual_id)) [
  | inl e ↦ absurd (ground arith)
  | inr e ↦ elim (Bool-cases (settled b a.task_id && not (holds_result b.entries a))) [
    | inl f ↦ absurd (ground arith)
    | inr f ↦ elim (Bool-cases (is_subsidized a && ltb budget (b.subsidy_spent + a.amount_nano))) [
      | inl g ↦ absurd (ground arith)
      | inr g ↦ record {
        fresh = e;
        same_result = elim (Bool-cases (settled b a.task_id)) [
          | inl k ↦ inr (ground arith)
          | inr k ↦ inl k
        ];
        affordable = elim (Bool-cases (is_subsidized a)) [
          | inl k ↦ inr (ground arith)
          | inr k ↦ inl k
        ];
      }
    ]
  ]
]

-- The entries of one task are for one result.
abbrev pub OneResult : List Accrual → Type 0
OneResult l =
    (x y : Accrual) → Memᴰ x l → Memᴰ y l → x.task_id ≡ y.task_id → x.result_id ≡ y.result_id

pub record IsSound (budget : ℕ) (b : Books) : Type 0 where
  pub distinct : Distinct (map (λ (a : Accrual). a.accrual_id) b.entries)
  pub one_result : OneResult b.entries
  pub settles : (a : Accrual) → Memᴰ a b.entries → settled b a.task_id ≡ true
  pub spent : b.subsidy_spent ≡ subsidies b.entries
  pub within : b.subsidy_spent ≤ budget

Memᴰ-concat : {A : Type 0} {x y : A} (l : List A) → Memᴰ x (l ++ y ∷ []) → Memᴰ x l ⊎ (x ≡ y)
Memᴰ-concat l m = elim (Memᴰ-append l m) [ inl k ↦ inl k | inr k ↦ inr (Memᴰ-singleton k) ]

map-concat :
    {A B : Type 0} (f : A → B) (l : List A) (x : A) → map f (l ++ x ∷ []) ≡ map f l ++ f x ∷ []
map-concat f [] x = refl
map-concat f (y ∷ l) x = ap (λ k. f y ∷ k) (map-concat f l x)

module _ (budget : ℕ) (b : Books) (a : Accrual) (sound : IsSound budget b)
    (ok : IsAdmitted budget b a) where
  -- An entry of the task of an admitted accrual is for its result.
  result_agrees :
      (x : Accrual) → Memᴰ x b.entries → x.task_id ≡ a.task_id → x.result_id ≡ a.result_id
  result_agrees x m same = elim ok.same_result [
    | inl k ↦ absurd (cc (subst (λ t. settled b t ≡ true) same (sound.settles x m), k))
    | inr k ↦
        let (y, there, both) =
          any_sound (λ (e : Accrual). (e.task_id == a.task_id) && (e.result_id == a.result_id))
            b.entries k in
        let (task, result) = and-true both in
        sound.one_result x y m there (same ∙ sym ((eq_iff y.task_id a.task_id).0 task))
        ∙ (eq_iff y.result_id a.result_id).0 result
  ]

  OneResult-concat : OneResult (b.entries ++ a ∷ [])
  OneResult-concat x y m n same = elim (Memᴰ-concat b.entries m) [
    | inl k ↦ elim (Memᴰ-concat b.entries n) [
      | inl j ↦ sound.one_result x y k j same
      | inr j ↦ result_agrees x k (same ∙ ap (λ z. z.task_id) j) ∙ sym (ap (λ z. z.result_id) j)
    ]
    | inr k ↦ elim (Memᴰ-concat b.entries n) [
      | inl j ↦ ap (λ z. z.result_id) k ∙ sym (result_agrees y j (sym same ∙ ap (λ z. z.task_id) k))
      | inr j ↦ ap (λ z. z.result_id) (k ∙ sym j)
    ]
  ]

  new_id : Memᴰ a.accrual_id (map (λ (e : Accrual). e.accrual_id) b.entries) → ⊥
  new_id m =
      let (e, there, same) = Memᴰ-map (λ (e : Accrual). e.accrual_id) b.entries m in
      cc (
        any_complete (λ (x : Accrual). x.accrual_id == a.accrual_id) there
            ((eq_iff e.accrual_id a.accrual_id).1 (sym same)),
        ok.fresh,
      )

  Distinct-map-concat : Distinct (map (λ (e : Accrual). e.accrual_id) (b.entries ++ a ∷ []))
  Distinct-map-concat = rw (map-concat (λ (e : Accrual). e.accrual_id) b.entries a) (
      Distinct-concat (map (λ (e : Accrual). e.accrual_id) b.entries) a.accrual_id sound.distinct
        new_id)

  settles-concat :
      (x : Accrual)
      → Memᴰ x (b.entries ++ a ∷ [])
      → any (λ t. t == x.task_id) (b.task_settled ++ a.task_id ∷ []) ≡ true
  settles-concat x m = elim (Memᴰ-concat b.entries m) [
    | inl k ↦
        let (t, there, same) = any_sound (λ t. t == x.task_id) b.task_settled (sound.settles x k) in
        any_complete (λ t. t == x.task_id) (Memᴰ-append_left (a.task_id ∷ []) there) same
    | inr k ↦
        any_complete (λ t. t == x.task_id) (Memᴰ-append_right b.task_settled (Memᴰ.head refl))
          ((eq_iff a.task_id x.task_id).1 (ap (λ z. z.task_id) (sym k)))
  ]

  load-IsSound : IsSound budget (load a b)
  unfolding load subsidies
  load-IsSound =
      let placed = set_entry-new a b.entries ok.fresh in
      record {
        distinct =
            subst (λ l. Distinct (map (λ (e : Accrual). e.accrual_id) l)) (sym placed)
              Distinct-map-concat;
        one_result = subst OneResult (sym placed) OneResult-concat;
        settles = λ x m. settles-concat x (subst (λ l. Memᴰ x l) placed m);
        spent = rw (placed, subsidies-append b.entries (a ∷ []), sound.spent) (omega arith);
        within = elim ok.affordable [
          | inl k ↦ omega (arith, sound.within, subsidy_of-commercial a k)
          | inr k ↦ omega (arith, k, subsidy_of-le a)
        ];
      }

-- `apply` keeps a ledger sound: its ids are distinct, a task's entries are for one result, what it
-- counts as spent is what its subsidised entries add up to, and that is within the budget.
pub apply-IsSound :
    (l : Ledger) (accruals : List Accrual)
    → IsSound l.params.subsidy_budget_nano l.books
    → IsSound l.params.subsidy_budget_nano (apply l accruals).0.books
unfolding apply
apply-IsSound l [] sound = sound
apply-IsSound l (a ∷ rest) sound =
    elim (Option-cases (refusal l.params.subsidy_budget_nano l.books a)) [
      | inl e ↦ rw ((apply-admits l a rest e).0) (
          apply-IsSound (book a l) rest (
            load-IsSound l.params.subsidy_budget_nano l.books a sound
              (refusal-none l.params.subsidy_budget_nano l.books a e)))
      | inr (r, e) ↦ rw ((apply-skips l a rest e).0) (apply-IsSound l rest sound)
    ]
