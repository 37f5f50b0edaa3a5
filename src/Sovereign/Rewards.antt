-- ===== src/Sovereign/Rewards.antt =====
-- src/sovereign/rewards.ts: the accruals that an accepted task earns.
pub mod Bounds
pub mod Recipients
use gstdbot.Common.{
  ℕ, ◌+◌, ◌*◌, ◌/◌, min, ltb, String, ◌==◌, Bool, true, false, not, ◌&&◌, if◌then◌else◌, Option,
  none, some, List, [], ◌∷◌, ◌++◌, map, length, select, sort, str_lt,
}
use gstdbot.Sovereign.Envelope.{Envelope, Manifest, Funding, text, object, Fields, end, field}
use gstdbot.Sovereign.Json.{canonicalize}
use gstdbot.Sovereign.Crypto.{Primitives}
use gstdbot.Sovereign.Board.{
  Board, Evaluation, TaskStatus, manifest, evaluate, includes, backups_of,
}

pub record RewardParams : Type 0 where
  pub operator_share_bps : ℕ
  pub execution_share_bps : ℕ
  pub verification_share_bps : ℕ
  pub per_node_cap_bps : ℕ
  pub subsidy_budget_nano : ℕ

abbrev pub default_params : RewardParams
default_params = record {
  operator_share_bps = 8500;
  execution_share_bps = 7000;
  verification_share_bps = 3000;
  per_node_cap_bps = 7000;
  subsidy_budget_nano = 0;
}

pub data AccrualRole : Type 0 where
  execute verify : AccrualRole

pub data PayoutState : Type 0 where
  accrued simulated_settled : PayoutState

-- The two texts that an accrual gives as its reason are those of its role.
pub record Accrual : Type 0 where
  pub accrual_id : String
  pub task_id : String
  pub result_id : String
  pub node : String
  pub role : AccrualRole
  pub funding : Funding
  pub declared_budget_nano : ℕ
  pub amount_nano : ℕ
  pub state : PayoutState

abbrev pub bps : ℕ
bps = 10000

-- A share of an amount, in basis points.
abbrev pub share : ℕ → ℕ → ℕ
share amount points = amount * points / bps

abbrev role_name : AccrualRole → String
role_name execute = "execute"
role_name verify = "verify"

-- `canonicalize` does not throw on an object of texts.
unfoldable pub accrual_id : Primitives → String → String → String → AccrualRole → String
accrual_id prim task result_id node role =
    elim (canonicalize (
      object (
        field "taskId" (text task) (
          field "resultId" (text result_id)
            (field "node" (text node) (field "role" (text (role_name role)) end)))))) [
              | none ↦ ""
              | some s ↦ prim.sha256_hex s
            ]

abbrev pub pool_of : Manifest → RewardParams → ℕ
pool_of m params = share m.budget_nano params.operator_share_bps

abbrev pub cap_of : Manifest → RewardParams → ℕ
cap_of m params = share (pool_of m params) params.per_node_cap_bps

abbrev pub coordinators_of : Envelope Manifest → List String
coordinators_of m = m.signer ∷ backups_of m.payload

-- The verifiers that can be paid: no coordinator, and not the worker.
abbrev pub payable : Envelope Manifest → String → List String → List String
payable m worker vs = select (λ v. not (includes (coordinators_of m) v) && not (v == worker)) vs

module _ (prim : Primitives) (task : String) (params : RewardParams) where
  abbrev pub make : Envelope Manifest → String → String → AccrualRole → ℕ → Accrual
  make m result_id node role amount = record {
    accrual_id = accrual_id prim task result_id node role;
    task_id = task;
    result_id = result_id;
    node = node;
    role = role;
    funding = m.payload.funding;
    declared_budget_nano = m.payload.budget_nano;
    amount_nano = amount;
    state = accrued;
  }

  unfoldable pub execution_accruals : Envelope Manifest → String → String → List Accrual
  execution_accruals m result_id worker =
      let exec_pool = share (pool_of m.payload params) params.execution_share_bps in
      if not (includes (coordinators_of m) worker) && ltb 0 exec_pool
      then make m result_id worker execute (min exec_pool (cap_of m.payload params)) ∷ []
      else []

  unfoldable pub verification_accruals : Envelope Manifest → String → List String → List Accrual
  verification_accruals m result_id verifiers =
      let verify_pool = share (pool_of m.payload params) params.verification_share_bps in
      let each = verify_pool / length verifiers in
      if ltb 0 (length verifiers) && ltb 0 verify_pool && ltb 0 each
      then map (λ v. make m result_id v verify (min each (cap_of m.payload params)))
          (sort str_lt verifiers)
      else []

  unfoldable pub accruals_for : Envelope Manifest → String → String → List String → List Accrual
  accruals_for m result_id worker match_verifiers =
      execution_accruals m result_id worker
      ++ verification_accruals m result_id (payable m worker match_verifiers)

  abbrev accepted_accruals : Envelope Manifest → Evaluation → List Accrual
  accepted_accruals m ev = elim ev.result_id [
    | none ↦ []
    | some result_id ↦ elim ev.worker [
      | none ↦ []
      | some worker ↦ accruals_for m result_id worker ev.match_verifiers
    ]
  ]

  unfoldable pub compute_accruals : Board → ℕ → List Accrual
  compute_accruals b now = elim (manifest b task) [
    | none ↦ []
    | some m ↦
        let ev = evaluate b task now in
        elim ev.status [ TaskStatus.accepted ↦ accepted_accruals m ev | _ ↦ [] ]
  ]
