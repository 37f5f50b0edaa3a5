-- ===== src/Sovereign/Tests/Bundles.antt =====
-- src/sovereign/board.ts: the theorems on proof bundles, applied to a concrete task.
use Prim.Native.String.{◌++◌, slice}
use gstdbot.Common.{
  String, true, some, List, [], ◌∷◌, filter_map, sort, insert_by, str_lt, by_rank, ◌≡◌, refl,
}
use gstdbot.Sovereign.Envelope.{
  Json, number, text, object, end, field, as_manifest, as_lease, as_result, as_attest, as_finalize,
}
use gstdbot.Sovereign.Json.{
  is_hex, is_amount, amount, is_package, js_length, canonicalize, decimal, quote,
}
use gstdbot.Sovereign.Schema.{
  schema_of, parse_manifest, parse_lease, parse_version, parse_result, parse_attest,
}
use gstdbot.Sovereign.Crypto.{Primitives, unsigned_body, check_form, verify_envelope, member}
use gstdbot.Sovereign.Ingest.{ingest, check_content}
use gstdbot.Sovereign.Ingest.Deliver.{deliver, empty}
use gstdbot.Sovereign.Board.{
  Evaluation, TaskStatus, reproduced_by, evaluate, manifest, get, has, leases, results, attests,
  finalizes, tally, accepts, accepted_as, decided, content_hash_of, collect, is_coordinator,
  failover_ms, epoch_of,
}
use gstdbot.Sovereign.Board.Accepted.{IsProven}
use gstdbot.Sovereign.Bundle.{ProofBundle, proof_bundle, proven, verify_from, verify_proof_bundle}
use gstdbot.Sovereign.Bundle.Proof.{timed, verify_proof_bundle-IsProven}
use gstdbot.Sovereign.Bundle.RoundTrip.{proof_bundle-evaluate}
use gstdbot.Sovereign.Tests.Demo.{demo, demo-IdsAgree}
use gstdbot.Sovereign.Tests.Boards.{demo-accepted}

abbrev pub zeros : String
zeros = "000000000000000000000000000000000000000000000000000000000000000"

-- A digest that tells texts apart by their 26th character, which is the last of an envelope's nonce.
abbrev pub prim : Primitives
prim = record { sha256_hex = λ s. zeros ++ slice s 25 26; ed_verify = λ id signer sig. some true }

abbrev pub publisher : String
publisher = "aaaaaaaaaaaaaaaaaaaaaaaaaaaaaaaaaaaaaaaaaaaaaaaaaaaaaaaaaaaaaaaa"

abbrev pub worker : String
worker = "bbbbbbbbbbbbbbbbbbbbbbbbbbbbbbbbbbbbbbbbbbbbbbbbbbbbbbbbbbbbbbbb"

abbrev pub voter : String
voter = "cccccccccccccccccccccccccccccccccccccccccccccccccccccccccccccccc"

abbrev pub id_of : String → String
id_of n = zeros ++ n

abbrev pub signed : String → Json → String → String → Json
signed kind payload signer n = object (
    field "v" (number 1) (
      field "type" (text kind) (
        field "payload" payload (
          field "signer" (text signer) (
            field "ts" (number 5) (
              field "nonce" (text ("000000000000000" ++ n)) (
                field "id" (text (id_of n)) (field "sig" (text (zeros ++ zeros ++ "00")) end))))))))

abbrev pub published : Json
published = object (
    field "kind" (text "data.fetch") (
      field "adapter" (text "npm-registry") (
        field "params" (object (field "package" (text "left-pad") end)) (
          field "entity" (text "npm:left-pad") (
            field "funding" (text "commercial") (
              field "budgetNano" (text "1000") (
                field "minVerifiers" (number 1) (
                  field "leaseMs" (number 1000) (
                    field "deadline" (number 100000) (
                      field "maxAttempts" (number 1)
                        (field "acceptance" (text "verifier-hash-match") end)))))))))))

abbrev leased : String → String → Json
leased role to = object (
    field "taskId" (text (id_of "1")) (
      field "role" (text role)
        (field "worker" (text to) (field "epoch" (number 1) (field "expiresAt" (number 900) end)))))

abbrev delivered : Json
delivered = object (
    field "taskId" (text (id_of "1")) (
      field "leaseId" (text (id_of "2")) (
        field "version"
          (object (
            field "entity" (text "npm:left-pad") (
              field "adapter" (text "npm-registry") (
                field "source" (text "registry") (
                  field "fetchedAt" (number 4) (
                    field "contentHash" (text (id_of "f"))
                      (field "content" (text "000000000000000000000000f") end)))))))
          end)))

abbrev vouched : Json
vouched = object (
    field "taskId" (text (id_of "1")) (
      field "resultId" (text (id_of "4")) (
        field "verdict" (text "match")
          (field "observedHash" (text (id_of "f")) (field "reason" (text "same") end)))))

abbrev messages : List Json
messages =
    signed "task.publish" published publisher "1"
    ∷ signed "task.lease" (leased "data" worker) publisher "2"
    ∷ signed "task.lease" (leased "verify" voter) publisher "3"
    ∷ signed "task.result" delivered worker "4"
    ∷ signed "task.attest" vouched voter "5"
    ∷ []

abbrev verdict : Evaluation
verdict = record {
  status = TaskStatus.accepted;
  reason = reproduced_by 1;
  result_id = some (id_of "4");
  worker = some worker;
  match_verifiers = voter ∷ [];
  mismatch_verifiers = [];
  inconclusive_verifiers = [];
}

messages-proven : verify_proof_bundle prim (id_of "1") 10 messages ≡ proven verdict
unfolding verify_from ingest has verify_envelope check_form unsigned_body member canonicalize is_hex
    is_amount amount is_package js_length decimal quote schema_of parse_manifest parse_lease
    parse_version parse_result parse_attest check_content evaluate decided manifest get sort
    insert_by str_lt leases results attests finalizes tally accepts accepted_as content_hash_of
    collect is_coordinator failover_ms epoch_of as_manifest as_lease as_result as_attest as_finalize
    by_rank filter_map
messages-proven = refl

verify_proof_bundle-IsProven_example :
    IsProven (deliver prim empty (timed prim (id_of "1") 10 messages)) (id_of "1") verdict
verify_proof_bundle-IsProven_example =
    verify_proof_bundle-IsProven prim (id_of "1") 10 messages verdict messages-proven

proof_bundle-evaluate_example :
    (p : ProofBundle) × (proof_bundle demo "t" 20 ≡ some p)
    × (evaluate (record { objects = p.envelopes }) "t" 999999 ≡ evaluate demo "t" 20)
proof_bundle-evaluate_example = proof_bundle-evaluate demo "t" 20 999999 demo-IdsAgree demo-accepted
