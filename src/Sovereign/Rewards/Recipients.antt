-- ===== src/Sovereign/Rewards/Recipients.antt =====
-- src/sovereign/rewards.ts: who is paid for a task, and how much at most.
use mathlib.Core.List.Permᴰ
use gstdbot.Common.{
  ℕ, ◌/◌, ◌≤◌, min, ltb, String, ◌==◌, eq_iff, eq_refl, false, not, ◌&&◌, some, List, [], ◌∷◌, map,
  length, sort, str_lt, arith, ◌≡◌, ◌≢◌, refl, sym, ap, subst, ◌∙◌, ◌⊎◌, inl, inr, eq_of_some,
  any_complete, Memᴰ, Memᴰ-singleton, Memᴰ-append, Memᴰ-map, Memᴰ-sort, Memᴰ-select,
  Distinct-select, Distinct, Distinct-perm, sort-perm_self, Bool-cases,
}
use gstdbot.Sovereign.Envelope.{Envelope, Manifest}
use gstdbot.Sovereign.Crypto.{Primitives}
use gstdbot.Sovereign.Board.{Board, Evaluation, manifest, evaluate, includes, backups_of}
use gstdbot.Sovereign.Board.Order.{IdsAgree}
use gstdbot.Sovereign.Board.Accepted.{evaluate-IsProven}
use gstdbot.Sovereign.Rewards.{
  RewardParams, Accrual, execute, share, pool_of, cap_of, payable, make, verify, execution_accruals,
  verification_accruals, accruals_for, compute_accruals, coordinators_of,
}
use gstdbot.Sovereign.Rewards.Bounds.{compute_accruals_cases}

not-Memᴰ_of_includes : (l : List String) (s : String) → includes l s ≡ false → Memᴰ s l → ⊥
not-Memᴰ_of_includes l s h m = cc (any_complete (λ x. x == s) m (eq_refl s), h)

-- What an accrual was paid for: the accepted result, or a matching vote on it by another node.
abbrev pub PaidFor : Evaluation → Accrual → Type 0
PaidFor ev a =
    ((a.role ≡ execute) × (ev.worker ≡ some a.node))
    ⊎ ((a.role ≡ verify) × Memᴰ a.node ev.match_verifiers × (ev.worker ≢ some a.node))

pub record IsEntitled (params : RewardParams) (m : Envelope Manifest) (ev : Evaluation)
    (a : Accrual) : Type 0 where
  pub capped : a.amount_nano ≤ cap_of m.payload params
  pub not_publisher : a.node ≢ m.signer
  pub not_backup : ¬ Memᴰ a.node (backups_of m.payload)
  pub earned : PaidFor ev a

module _ (prim : Primitives) (task : String) (params : RewardParams) where
  execution_sound :
      (m : Envelope Manifest) (rid worker : String) {a : Accrual}
      → Memᴰ a (execution_accruals prim task params m rid worker)
      → (a.role ≡ execute)
        × (a.node ≡ worker)
        × (includes (coordinators_of m) worker ≡ false)
        × (a.amount_nano ≤ cap_of m.payload params)
  unfolding execution_accruals
  execution_sound m rid worker {a} mem =
      let exec_pool = share (pool_of m.payload params) params.execution_share_bps in
      elim (Bool-cases (not (includes (coordinators_of m) worker) && ltb 0 exec_pool)) [
        | inl e ↦
            let made : a
                ≡ make prim task params m rid worker execute
                    (min exec_pool (cap_of m.payload params)) =
              Memᴰ-singleton (rw e at mem) in
            (
              ap (λ x. x.role) made,
              ap (λ x. x.node) made,
              ground arith,
              subst (λ (x : Accrual). x.amount_nano ≤ cap_of m.payload params) (sym made)
                  (omega arith),
            )
        | inr e ↦ elim (rw e at mem) [ ]
      ]

  verification_sound :
      (m : Envelope Manifest) (rid : String) (vs : List String) {a : Accrual}
      → Memᴰ a (verification_accruals prim task params m rid vs)
      → (a.role ≡ verify) × Memᴰ a.node vs × (a.amount_nano ≤ cap_of m.payload params)
  unfolding verification_accruals
  verification_sound m rid vs {a} mem =
      let verify_pool = share (pool_of m.payload params) params.verification_share_bps in
      let each = verify_pool / length vs in
      let paid =
        λ (v : String). make prim task params m rid v verify (min each (cap_of m.payload params)) in
      elim (Bool-cases (ltb 0 (length vs) && ltb 0 verify_pool && ltb 0 each)) [
        | inl e ↦
            let (v, there, made) = Memᴰ-map paid (sort str_lt vs) (rw e at mem) in
            (
              ap (λ x. x.role) made,
              subst (λ n. Memᴰ n vs) (sym (ap (λ x. x.node) made)) (Memᴰ-sort str_lt vs there),
              subst (λ (x : Accrual). x.amount_nano ≤ cap_of m.payload params) (sym made)
                  (omega arith),
            )
        | inr e ↦ elim (rw e at mem) [ ]
      ]

  payable_sound :
      (m : Envelope Manifest) (worker : String) (vs : List String) {v : String}
      → Memᴰ v (payable m worker vs)
      → Memᴰ v vs × (includes (coordinators_of m) v ≡ false) × (v ≢ worker)
  payable_sound m worker vs {v} mem =
      let (there, ok) =
        Memᴰ-select (λ v. not (includes (coordinators_of m) v) && not (v == worker)) vs mem in
      let different : (v == worker) ≡ false = ground arith in
      (there, ground arith, λ same. cc ((eq_iff v worker).1 same, different))

  outside_lem :
      (m : Envelope Manifest) (n : String)
      → includes (coordinators_of m) n ≡ false
      → (n ≢ m.signer) × ¬ Memᴰ n (backups_of m.payload)
  outside_lem m n out =
      let outside = not-Memᴰ_of_includes (coordinators_of m) n out in
      (λ s. outside (Memᴰ.head s), λ k. outside (Memᴰ.tail k))

  accruals_for-IsEntitled :
      (m : Envelope Manifest) (ev : Evaluation) (rid worker : String) {a : Accrual}
      → ev.worker ≡ some worker
      → Memᴰ a (accruals_for prim task params m rid worker ev.match_verifiers)
      → IsEntitled params m ev a
  unfolding accruals_for
  accruals_for-IsEntitled m ev rid worker {a} by mem =
      let vs = payable m worker ev.match_verifiers in
      elim (Memᴰ-append (execution_accruals prim task params m rid worker) mem) [
        | inl k ↦
            let (role, node, out, cap) = execution_sound m rid worker k in
            let out_of =
              outside_lem m a.node
                (subst (λ n. includes (coordinators_of m) n ≡ false) (sym node) out) in
            record {
              capped = cap;
              not_publisher = out_of.0;
              not_backup = out_of.1;
              earned = inl (role, rw node by);
            }
        | inr k ↦
            let (role, there, cap) = verification_sound m rid vs k in
            let (voted, out, other) = payable_sound m worker ev.match_verifiers there in
            record {
              capped = cap;
              not_publisher = (outside_lem m a.node out).0;
              not_backup = (outside_lem m a.node out).1;
              earned = inr (role, voted, λ h. other (eq_of_some (sym h ∙ by)));
            }
      ]

  -- Every accrual of a task is for the worker of the accepted result or for a verifier, another
  -- node, whose vote counted for it; none is for the publisher or a backup coordinator, and none
  -- is above the per-node cap.
  pub compute_accruals-IsEntitled :
      (b : Board) (now : ℕ) (m : Envelope Manifest) (a : Accrual)
      → manifest b task ≡ some m
      → Memᴰ a (compute_accruals prim task params b now)
      → IsEntitled params m (evaluate b task now) a
  compute_accruals-IsEntitled b now m a known mem =
      elim (compute_accruals_cases prim task params b now) [
        | inl e ↦ elim (rw e at mem) [ ]
        | inr w ↦
            let same : w.manifest_env ≡ m = eq_of_some (sym w.known ∙ known) in
            subst (λ n. IsEntitled params n (evaluate b task now) a) same
              (accruals_for-IsEntitled w.manifest_env (evaluate b task now) w.result_id w.worker
                w.of_worker (rw w.made at mem))
      ]

  map-node-verify :
      (m : Envelope Manifest) (rid : String) (amount : ℕ) (vs : List String)
      → map (λ (a : Accrual). a.node) (map (λ v. make prim task params m rid v verify amount) vs)
        ≡ vs
  map-node-verify m rid amount [] = refl
  map-node-verify m rid amount (v ∷ vs) = ap (λ l. v ∷ l) (map-node-verify m rid amount vs)

  verification-Distinct :
      (m : Envelope Manifest) (rid : String) (vs : List String)
      → Distinct vs
      → Distinct (map (λ (a : Accrual). a.node) (verification_accruals prim task params m rid vs))
  unfolding verification_accruals
  verification-Distinct m rid vs d =
      let verify_pool = share (pool_of m.payload params) params.verification_share_bps in
      let each = verify_pool / length vs in
      elim (Bool-cases (ltb 0 (length vs) && ltb 0 verify_pool && ltb 0 each)) [
        | inl e ↦
            rw (e, map-node-verify m rid (min each (cap_of m.payload params)) (sort str_lt vs))
              (Distinct-perm (Permᴰ.symm (sort-perm_self str_lt vs)) d)
        | inr e ↦ rw e tt
      ]

  accruals_for-Distinct :
      (m : Envelope Manifest) (rid worker : String) (vs : List String)
      → Distinct vs
      → Distinct (map (λ (a : Accrual). a.node) (accruals_for prim task params m rid worker vs))
  unfolding accruals_for execution_accruals
  accruals_for-Distinct m rid worker vs d =
      let exec_pool = share (pool_of m.payload params) params.execution_share_bps in
      let others =
        verification-Distinct m rid (payable m worker vs)
          (Distinct-select (λ v. not (includes (coordinators_of m) v) && not (v == worker)) vs d) in
      elim (Bool-cases (not (includes (coordinators_of m) worker) && ltb 0 exec_pool)) [
        | inl e ↦ rw e (
          λ mem.
              let (a, there, same) = Memᴰ-map (λ (a : Accrual). a.node) _ mem in
              let (_, listed, _) = verification_sound m rid (payable m worker vs) there in
              let (_, _, other) = payable_sound m worker vs listed in other (sym same),
          others,
        )
        | inr e ↦ rw e others
      ]

  -- No node is paid twice for a task, where an id names one envelope of the board.
  pub compute_accruals-Distinct :
      (b : Board) (now : ℕ)
      → IdsAgree b.objects
      → Distinct (map (λ (a : Accrual). a.node) (compute_accruals prim task params b now))
  compute_accruals-Distinct b now agree = elim (compute_accruals_cases prim task params b now) [
    | inl e ↦ rw e tt
    | inr w ↦ rw w.made (
        accruals_for-Distinct w.manifest_env w.result_id w.worker
          (evaluate b task now).match_verifiers
          (evaluate-IsProven b task now agree w.accepted).one_vote_each)
  ]
