-- ===== src/Sovereign/Rewards/Bounds.antt =====
-- src/sovereign/rewards.ts: what a task pays is bounded by its budget.
use gstdbot.Common.{
  ℕ, ◌+◌, ◌*◌, ◌/◌, ◌≤◌, ◌<◌, min, String, Bool, true, false, if◌then◌else◌, some, List, [], ◌∷◌,
  ◌++◌, map, length, sort, str_lt, arith, ◌≡◌, ◌≢◌, refl, ap, sym, ◌∙◌, subst, eq_of_some, ◌⊎◌, inl,
  inr, sort-perm_self, length-perm, Option-cases,
}
use gstdbot.Sovereign.Envelope.{Envelope, Manifest}
use gstdbot.Sovereign.Crypto.{Primitives}
use gstdbot.Sovereign.Board.{Board, TaskStatus, manifest, evaluate}
use gstdbot.Sovereign.Rewards.{
  RewardParams, Accrual, bps, share, pool_of, cap_of, payable, make, verify, execution_accruals,
  verification_accruals, accruals_for, compute_accruals,
}

-- The amounts of a list of accruals together.
pub total : List Accrual → ℕ
total [] = 0
total (a ∷ l) = a.amount_nano + total l

pub total-append : (l k : List Accrual) → total (l ++ k) ≡ total l + total k
unfolding total
total-append [] k = omega arith
total-append (a ∷ l) k = omega (arith, total-append l k)

share-le : (amount points : ℕ) → points ≤ bps → share amount points ≤ amount
share-le amount points h = grind arith

mul_mono_right : (k : ℕ) {m n : ℕ} → m ≤ n → k * m ≤ k * n
mul_mono_right k h = grind arith

shares-le : (amount a b : ℕ) → a + b ≤ bps → share amount a + share amount b ≤ amount
shares-le amount a b h =
    let grown : amount * (a + b) ≤ amount * bps = mul_mono_right amount h in omega arith

parts-le : (pool n : ℕ) → 0 < n → pool / n * n ≤ pool
parts-le pool n h = omega arith

total-map :
    (f : String → Accrual) (each : ℕ) (vs : List String)
    → ((v : String) → (f v).amount_nano ≤ each)
    → total (map f vs) ≤ each * length vs
unfolding total
total-map f each [] h = omega arith
total-map f each (v ∷ vs) h = omega (arith, h v, total-map f each vs h)

total-if :
    (c : Bool) (l : List Accrual) (most : ℕ)
    → (c ≡ true → total l ≤ most)
    → total (if c then l else []) ≤ most
unfolding total
total-if true l most h = h refl
total-if false l most h = omega arith

status_cases : (s : TaskStatus) → (s ≡ TaskStatus.accepted) ⊎ (s ≢ TaskStatus.accepted)
status_cases TaskStatus.accepted = inl refl
status_cases TaskStatus.unassigned = inr cc
status_cases TaskStatus.leased = inr cc
status_cases TaskStatus.awaiting_verification = inr cc
status_cases TaskStatus.rejected = inr cc
status_cases TaskStatus.expired = inr cc

-- An equal split of a pool over a list of nodes pays no more than the pool.
total-split :
    (f : String → Accrual) (pool : ℕ) (vs : List String)
    → 0 < length vs
    → ((v : String) → (f v).amount_nano ≤ pool / length vs)
    → total (map f (sort str_lt vs)) ≤ pool
total-split f pool vs some_node h = omega (
  arith,
  total-map f (pool / length vs) (sort str_lt vs) h,
  length-perm (sort-perm_self str_lt vs),
  parts-le pool (length vs) some_node,
  ap (λ n. pool / length vs * n) (length-perm (sort-perm_self str_lt vs)),
)

module _ (prim : Primitives) (task : String) (params : RewardParams) where
  abbrev exec_pool : Manifest → ℕ
  exec_pool m = share (pool_of m params) params.execution_share_bps

  abbrev verify_pool : Manifest → ℕ
  verify_pool m = share (pool_of m params) params.verification_share_bps

  total-execution :
      (m : Envelope Manifest) (rid worker : String)
      → total (execution_accruals prim task params m rid worker) ≤ exec_pool m.payload
  unfolding total execution_accruals
  total-execution m rid worker = ground arith

  total-verification :
      (m : Envelope Manifest) (rid : String) (vs : List String)
      → total (verification_accruals prim task params m rid vs) ≤ verify_pool m.payload
  unfolding verification_accruals
  total-verification m rid vs =
      let each = verify_pool m.payload / length vs in
      let f = make prim task params m rid in
      total-if _ _ (verify_pool m.payload) λ passed.
        total-split (λ v. f v verify (min each (cap_of m.payload params))) (verify_pool m.payload)
          vs (ground arith) (λ v. omega arith)

  total-accruals_for :
      (m : Envelope Manifest) (rid worker : String) (vs : List String)
      → params.execution_share_bps + params.verification_share_bps ≤ bps
      → total (accruals_for prim task params m rid worker vs) ≤ pool_of m.payload params
  unfolding accruals_for
  total-accruals_for m rid worker vs shares =
      let executed = execution_accruals prim task params m rid worker in
      let verified = verification_accruals prim task params m rid (payable m worker vs) in
      omega (
        arith,
        total-append executed verified,
        total-execution m rid worker,
        total-verification m rid (payable m worker vs),
        shares-le (pool_of m.payload params) params.execution_share_bps
            params.verification_share_bps shares,
      )

  -- The accruals of an accepted task: those for its manifest, result and worker.
  pub record IsEarned (b : Board) (now : ℕ) : Type 0 where
    pub manifest_env : Envelope Manifest
    pub result_id : String
    pub worker : String
    pub known : manifest b task ≡ some manifest_env
    pub accepted : (evaluate b task now).status ≡ TaskStatus.accepted
    pub of_result : (evaluate b task now).result_id ≡ some result_id
    pub of_worker : (evaluate b task now).worker ≡ some worker
    pub made :
        compute_accruals prim task params b now
        ≡ accruals_for prim task params manifest_env result_id worker
            (evaluate b task now).match_verifiers

  pub compute_accruals_cases :
      (b : Board) (now : ℕ) → (compute_accruals prim task params b now ≡ []) ⊎ IsEarned b now
  unfolding compute_accruals
  compute_accruals_cases b now = elim (Option-cases (manifest b task)) [
    | inl e ↦ inl (ground arith)
    | inr (m, e) ↦ elim (Option-cases (evaluate b task now).result_id) [
      | inl f ↦ inl (ground arith)
      | inr (rid, f) ↦ elim (Option-cases (evaluate b task now).worker) [
        | inl g ↦ inl (ground arith)
        | inr (worker, g) ↦ elim (status_cases (evaluate b task now).status) [
          | inl h ↦ inr (record {
            manifest_env = m;
            result_id = rid;
            worker = worker;
            known = e;
            accepted = h;
            of_result = f;
            of_worker = g;
            made = ground arith;
          })
          | inr h ↦ inl (ground arith)
        ]
      ]
    ]
  ]

  -- All that a task pays lies within the operators' share of its budget, and that within the
  -- budget, where the two roles' shares are at most the whole pool and the pool's at most the budget.
  pub total-compute_accruals :
      (b : Board) (now : ℕ) (m : Envelope Manifest)
      → manifest b task ≡ some m
      → params.execution_share_bps + params.verification_share_bps ≤ bps
      → params.operator_share_bps ≤ bps
      → (total (compute_accruals prim task params b now) ≤ pool_of m.payload params)
        × (total (compute_accruals prim task params b now) ≤ m.payload.budget_nano)
  unfolding total
  total-compute_accruals b now m known shares operators =
      let within = share-le m.payload.budget_nano params.operator_share_bps operators in
      elim (compute_accruals_cases b now) [
        | inl e ↦ rw e (omega arith)
        | inr w ↦
            let same : w.manifest_env ≡ m = eq_of_some (sym w.known ∙ known) in
            let vs = (evaluate b task now).match_verifiers in
            let paid = total-accruals_for w.manifest_env w.result_id w.worker vs shares in
            let bounded : total (compute_accruals prim task params b now)
                ≤ pool_of m.payload params =
              rw w.made (
                subst
                  (λ (n : Envelope Manifest).
                    total (accruals_for prim task params w.manifest_env w.result_id w.worker vs)
                    ≤ pool_of n.payload params)
                  same paid) in
            (bounded, omega arith)
      ]
