-- ===== src/Sovereign/Bundle.antt =====
-- src/sovereign/board.ts: proof bundles, and their verification without trust in the node.
pub mod Proof
pub mod Replay
pub mod Verdicts
pub mod RoundTrip
use gstdbot.Common.{
  ℕ, String, Bool, true, false, if◌then◌else◌, Option, none, some, List, [], ◌∷◌, ◌++◌, map,
}
use gstdbot.Sovereign.Envelope.{
  Json, Envelope, Payload, Manifest, Lease, Result, Attest, Finalize, publish, lease, result,
  attest, finalize, retype,
}
use gstdbot.Sovereign.Crypto.{Primitives}
use gstdbot.Sovereign.Board.{
  Board, get, manifest, leases, attests, finalizes, evaluate, Evaluation, TaskStatus,
}
use gstdbot.Sovereign.Ingest.{ingest, Outcome, added, throws, not_added, Rejection, duplicate}

abbrev pub of_manifest : Envelope Manifest → Envelope Payload
of_manifest e = retype e (publish e.payload)

abbrev pub of_lease : Envelope Lease → Envelope Payload
of_lease e = retype e (lease e.payload)

abbrev pub of_result : Envelope Result → Envelope Payload
of_result e = retype e (result e.payload)

abbrev pub of_attest : Envelope Attest → Envelope Payload
of_attest e = retype e (attest e.payload)

abbrev pub of_finalize : Envelope Finalize → Envelope Payload
of_finalize e = retype e (finalize e.payload)

pub record ProofBundle : Type 0 where
  pub entity : String
  pub task_id : String
  pub envelopes : List (Envelope Payload)

-- The envelopes of a bundle, for the manifest and the accepted result.
abbrev pub bundle_envelopes :
    Board → String → Envelope Manifest → String → Envelope Payload → List (Envelope Payload)
bundle_envelopes b task m result_id r =
    of_manifest m
    ∷ (map of_lease (leases b task)
        ++ (r ∷ (map of_attest (attests b task result_id) ++ map of_finalize (finalizes b task))))

abbrev pub is_accepted : Evaluation → Bool
is_accepted ev = elim ev.status [ TaskStatus.accepted ↦ true | _ ↦ false ]

-- The object of an accepted result is on the board, so `none` stands for no envelope here.
unfoldable pub proof_bundle : Board → String → ℕ → Option ProofBundle
proof_bundle b task now = elim (manifest b task) [
  | none ↦ none
  | some m ↦ elim (is_accepted (evaluate b task now)) [
    | false ↦ none
    | true ↦ elim (evaluate b task now).result_id [
      | none ↦ none
      | some id ↦ elim (get b id) [
        | none ↦ none
        | some r ↦ some (record {
          entity = m.payload.entity;
          task_id = task;
          envelopes = bundle_envelopes b task m id r;
        })
      ]
    ]
  ]
]

pub data BundleCheck : Type 0 where
  invalid : Rejection → BundleCheck
  broken : BundleCheck
  unproven proven : Evaluation → BundleCheck

-- The loop of `verifyProofBundle`: an envelope that is a duplicate is passed over.
abbrev pub after_ingest : Board × Outcome → (Board → BundleCheck) → BundleCheck
after_ingest (b, added) go = go b
after_ingest (b, throws) go = broken
after_ingest (b, not_added duplicate) go = go b
after_ingest (b, not_added r) go = invalid r

abbrev pub judge : String → ℕ → Board → BundleCheck
judge task now b = let ev = evaluate b task now in if is_accepted ev then proven ev else unproven ev

module _ (prim : Primitives) (task : String) (now : ℕ) where
  unfoldable pub verify_from : Board → List Json → BundleCheck
  verify_from b [] = judge task now b
  verify_from b (e ∷ es) = after_ingest (ingest prim b e now) (λ b'. verify_from b' es)

  abbrev pub verify_proof_bundle : List Json → BundleCheck
  verify_proof_bundle es = verify_from (record { objects = [] }) es
