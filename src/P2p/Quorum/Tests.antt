-- ===== src/P2p/Quorum/Tests.antt =====
-- src/p2p/quorum-coordinator.ts: the theorems applied to a node `me` that waits for two signers.
use gstdbot.Common.{
  String, ◌==◌, true, if◌then◌else◌, none, some, List, [], ◌∷◌, map, filter_map, arith, ◌≡◌, ◌≢◌,
  refl, Memᴰ, Distinct,
}
use gstdbot.Sovereign.Json.{decimal}
use gstdbot.P2p.Quorum.{
  P2pAttestation, Primitives, Context, QuorumResult, Quorum, Event, received, proof_of, evaluate,
  verify_all, collect, on_attestation, run, initial, await_quorum, is_candidate,
  verify_attestation_locally,
}
use gstdbot.P2p.Quorum.Sound.{IsQuorum, run-IsQuorum, on_attestation-evicts}
use gstdbot.P2p.Quorum.Rejected.{await_quorum-rejects}
use gstdbot.P2p.Quorum.Endorsed.{IsVouched, run-IsVouched}

abbrev prim : Primitives
prim = record {
  parse_address = λ s. if s == "" then none else some s;
  cell_hash = λ m. m.worker;
  sign_verify = λ hash sig key. some (sig == "good");
  sign = λ hash. "good";
  pubkey_hex = "k-me";
}

abbrev from : String → String → String → P2pAttestation
from worker key sig = record {
  task_id = "t";
  node_id = "n";
  worker_addr = worker;
  result_hash = "h";
  gstd_bonus_amount = "5";
  compute_units = 1;
  pubkey_hex = key;
  signature_hex = sig;
}

abbrev ctx : Context
ctx = record {
  task_id = "t";
  worker_addr = "me";
  worker = "me";
  own_result_hash = "h";
  gstd_bonus_amount = 5;
  compute_units = 1;
  own_attestation = from "me" "k-me" "good";
  co_executor_peer_ids = "p" ∷ [];
  quorum_threshold = 2;
}

-- A peer reveals its own result, a forged vote comes, and then the peer's vote.
abbrev events : List Event
events =
    received (from "peer" "k-p" "good")
    ∷ received (from "me" "k-x" "bad")
    ∷ received (from "me" "k-p" "good")
    ∷ []

start : await_quorum prim ctx ≡ initial prim ctx
unfolding evaluate verify_all decimal filter_map
start = refl

abbrev reached : QuorumResult
reached = record {
  accepted = true;
  result_hash = "h";
  attestations = proof_of (from "me" "k-me" "good") ∷ proof_of (from "me" "k-p" "good") ∷ [];
}

events-reach : (run prim ctx events (await_quorum prim ctx)).settled ≡ some reached
unfolding run on_attestation evaluate verify_all collect decimal filter_map
events-reach = refl

run-IsQuorum_example : IsQuorum prim ctx reached
run-IsQuorum_example = run-IsQuorum prim ctx events reached events-reach refl

abbrev done : Quorum
done = record (initial prim ctx) { settled = some reached }

abbrev vouched : P2pAttestation
vouched = record (from "peer" "k-me" "good") { node_id = "n" }

vouched-sent : Memᴰ vouched (run prim ctx events (await_quorum prim ctx)).sent
unfolding run on_attestation evaluate verify_all collect decimal filter_map
vouched-sent = Memᴰ.head refl

run-IsVouched_example :
    IsVouched prim ctx vouched
    × Distinct (
        map
          (λ (m : P2pAttestation). m.worker_addr)
          (run prim ctx events (await_quorum prim ctx)).sent)
run-IsVouched_example = run-IsVouched prim ctx events vouched vouched-sent

abbrev own_forged : P2pAttestation
own_forged = from "me" "k-me" "bad"

forged_held : Memᴰ own_forged (on_attestation prim ctx own_forged (initial prim ctx)).collected
unfolding on_attestation evaluate verify_all collect decimal filter_map
forged_held = Memᴰ.head refl

on_attestation-evicts_example : verify_attestation_locally prim ctx own_forged ≢ some true
on_attestation-evicts_example =
    on_attestation-evicts prim ctx (initial prim ctx) own_forged own_forged refl refl refl refl
      (λ m. elim m [ ], tt) forged_held refl

abbrev alone : Context
alone = record ctx { quorum_threshold = 1 }

own_work : is_candidate alone (from "me" "k-me" "good") ≡ true
unfolding decimal
own_work = refl

await_quorum-rejects_example :
    ((await_quorum prim alone).rejected ≡ true)
    × ((run prim alone events (await_quorum prim alone)).settled ≡ none)
await_quorum-rejects_example = await_quorum-rejects prim alone events (omega arith) own_work refl
