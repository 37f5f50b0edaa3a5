-- ===== src/P2p/Quorum.antt =====
-- src/p2p/quorum-coordinator.ts: `awaitQuorum`, as a state that the received attestations and the
-- timeout change. Addresses, cell hashes and Ed25519 are @ton's, and are taken as parameters.
pub mod Counted
pub mod Sound
pub mod Endorsed
pub mod Rejected
mod Tests
use Prim.Native.String.{◌++◌}
use gstdbot.Common.{
  ℕ, leb, eqb, String, ◌==◌, Bool, true, false, not, ◌&&◌, ◌||◌, if◌then◌else◌, Option, none, some,
  List, [], ◌∷◌, map, length, any, select,
}
use gstdbot.Sovereign.Json.{decimal}

pub record P2pAttestation : Type 0 where
  pub task_id : String
  pub node_id : String
  pub worker_addr : String
  pub result_hash : String
  pub gstd_bonus_amount : String
  pub compute_units : ℕ
  pub pubkey_hex : String
  pub signature_hex : String

pub record Attestation : Type 0 where
  pub pubkey_hex : String
  pub signature_hex : String

-- What `computeMsgHash` hashes, besides the settlement address.
pub record Message : Type 0 where
  pub task_id : String
  pub worker : String
  pub result_hash : String
  pub gstd_bonus_amount : ℕ
  pub compute_units : ℕ

pub record Primitives : Type 0 where
  -- `Address.parse`, `none` where it throws
  pub parse_address : String → Option String
  -- the hash of the cell that `beginCell()` builds from a message
  pub cell_hash : Message → String
  -- `signVerify`, on a hash, a signature and a key; `none` where it throws
  pub sign_verify : String → String → String → Option Bool
  -- this node's signature of a hash, and its key
  pub sign : String → String
  pub pubkey_hex : String

pub record Context : Type 0 where
  pub task_id : String
  pub worker_addr : String
  pub worker : String
  pub own_result_hash : String
  pub gstd_bonus_amount : ℕ
  pub compute_units : ℕ
  pub own_attestation : P2pAttestation
  pub co_executor_peer_ids : List String
  pub quorum_threshold : ℕ

pub record QuorumResult : Type 0 where
  pub accepted : Bool
  pub result_hash : String
  pub attestations : List Attestation

-- `collected` is the Map by key, in insertion order; `sent` are the endorsements that were
-- broadcast. Once the promise has a result, the listener is off. `rejected` is an error of the first
-- evaluation: the promise is rejected, the listener stays, and the timer is never set.
pub record Quorum : Type 0 where
  pub collected : List P2pAttestation
  pub already_endorsed : List String
  pub sent : List P2pAttestation
  pub settled : Option QuorumResult
  pub rejected : Bool

pub data Event : Type 0 where
  received : P2pAttestation → Event
  timeout : Event

-- `collected.set(att.pubkeyHex, att)`
unfoldable pub collect : P2pAttestation → List P2pAttestation → List P2pAttestation
collect a [] = a ∷ []
collect a (x ∷ l) = if x.pubkey_hex == a.pubkey_hex then a ∷ l else x ∷ collect a l

abbrev pub same_work : Context → P2pAttestation → Bool
same_work ctx a =
    a.result_hash == ctx.own_result_hash
    && a.gstd_bonus_amount == decimal ctx.gstd_bonus_amount
    && eqb a.compute_units ctx.compute_units

abbrev pub is_candidate : Context → P2pAttestation → Bool
is_candidate ctx a = a.task_id == ctx.task_id && a.worker_addr == ctx.worker_addr && same_work ctx a

abbrev pub message_for : Context → String → Message
message_for ctx worker = record {
  task_id = ctx.task_id;
  worker = worker;
  result_hash = ctx.own_result_hash;
  gstd_bonus_amount = ctx.gstd_bonus_amount;
  compute_units = ctx.compute_units;
}

abbrev pub proof_of : P2pAttestation → Attestation
proof_of a = record { pubkey_hex = a.pubkey_hex; signature_hex = a.signature_hex }

abbrev pub is_settled : Quorum → Bool
is_settled q = elim q.settled [ some _ ↦ true | none ↦ false ]

-- Without the timer, `clearTimeout(timer)` throws, and the promise stays as it is.
abbrev pub finish : QuorumResult → Quorum → Quorum
finish r q = if is_settled q || q.rejected then q else record q { settled = some r }

abbrev pub endorsement_key : P2pAttestation → String
endorsement_key a = a.worker_addr ++ ":" ++ a.result_hash

module _ (prim : Primitives) (ctx : Context) where
  -- `verifyAttestationLocally`, for this node's own payout.
  abbrev pub verify_attestation_locally : P2pAttestation → Option Bool
  verify_attestation_locally a =
      prim.sign_verify (prim.cell_hash (message_for ctx ctx.worker)) a.signature_hex a.pubkey_hex

  -- `candidates.filter(verify)`; `none` where a check throws.
  unfoldable pub verify_all : List P2pAttestation → Option (List P2pAttestation)
  verify_all [] = some []
  verify_all (a ∷ l) = elim (verify_attestation_locally a) [
    | none ↦ none
    | some ok ↦ elim (verify_all l) [
      | none ↦ none
      | some rest ↦ some (if ok then a ∷ rest else rest)
    ]
  ]

  abbrev pub accepted_by : List P2pAttestation → QuorumResult
  accepted_by verified = record {
    accepted = true;
    result_hash = ctx.own_result_hash;
    attestations = map proof_of verified;
  }

  abbrev pub settle_if : Quorum → Option (List P2pAttestation) → Option Quorum
  settle_if q none = none
  settle_if q (some verified) =
      some
        (if leb ctx.quorum_threshold (length verified) then finish (accepted_by verified) q else q)

  -- `none` where it throws.
  unfoldable pub evaluate : Quorum → Option Quorum
  evaluate q = settle_if q (verify_all (select (is_candidate ctx) q.collected))

  -- What a listener that throws leaves is what it had changed.
  abbrev pub or_same : Quorum → Option Quorum → Quorum
  or_same q none = q
  or_same q (some q') = q'

  abbrev pub endorsement : P2pAttestation → String → P2pAttestation
  endorsement a peer = record {
    task_id = ctx.task_id;
    node_id = ctx.own_attestation.node_id;
    worker_addr = a.worker_addr;
    result_hash = ctx.own_result_hash;
    gstd_bonus_amount = decimal ctx.gstd_bonus_amount;
    compute_units = ctx.compute_units;
    pubkey_hex = prim.pubkey_hex;
    signature_hex = prim.sign (prim.cell_hash (message_for ctx peer));
  }

  abbrev pub endorsed : P2pAttestation → Quorum → Option String → Quorum
  endorsed a q none = q
  endorsed a q (some peer) = record q { sent = endorsement a peer ∷ q.sent }

  abbrev pub noted : P2pAttestation → Quorum → Quorum
  noted a q = record q { already_endorsed = endorsement_key a ∷ q.already_endorsed }

  abbrev pub endorse : P2pAttestation → Quorum → Quorum
  endorse a q =
      if any (λ k. k == endorsement_key a) q.already_endorsed
      then q
      else endorsed a (noted a q) (prim.parse_address a.worker_addr)

  abbrev pub held : P2pAttestation → Quorum → Quorum
  held a q = record q { collected = collect a q.collected }

  unfoldable pub on_attestation : P2pAttestation → Quorum → Quorum
  on_attestation a q =
      if not (a.task_id == ctx.task_id)
      then q
      else if eqb (length ctx.co_executor_peer_ids) 0
      then q
      else if a.worker_addr == ctx.worker_addr
      then or_same (held a q) (evaluate (held a q))
      else if same_work ctx a
      then endorse a q
      else q

  abbrev pub timed_out : QuorumResult
  timed_out = record { accepted = false; result_hash = ctx.own_result_hash; attestations = [] }

  abbrev pub open_step : Event → Quorum → Quorum
  open_step (received a) q = on_attestation a q
  open_step timeout q = finish timed_out q

  -- One event; a promise with a result has no listener and no timer.
  abbrev pub step : Event → Quorum → Quorum
  step e q = if is_settled q then q else open_step e q

  unfoldable pub run : List Event → Quorum → Quorum
  run [] q = q
  run (e ∷ es) q = run es (step e q)

  abbrev pub initial : Quorum
  initial = record {
    collected = ctx.own_attestation ∷ [];
    already_endorsed = [];
    sent = [];
    settled = none;
    rejected = false;
  }

  -- The first evaluation stands before the declaration of `timer`: where it throws, or where it comes
  -- to `finish`, which reads `timer`, the promise is rejected.
  abbrev pub first_evaluated : Option Quorum → Quorum
  first_evaluated none = record initial { rejected = true }
  first_evaluated (some q) = if is_settled q then record initial { rejected = true } else q

  -- `awaitQuorum` up to its return.
  abbrev pub await_quorum : Quorum
  await_quorum = first_evaluated (evaluate initial)
