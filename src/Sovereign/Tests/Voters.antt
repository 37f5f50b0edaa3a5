-- ===== src/Sovereign/Tests/Voters.antt =====
-- src/sovereign/node.ts: the theorem on the vote that a verification sends, applied to a concrete board.
use gstdbot.Common.{
  true, some, List, [], ◌∷◌, sort, insert_by, str_lt, by_rank, filter_map, arith, ◌≡◌, refl, subst,
  eq_of_some, Memᴰ,
}
use gstdbot.Sovereign.Envelope.{
  text, Envelope, Payload, verifier, Result, DataVersion, Attest, publish, lease, result,
  as_manifest, as_lease, as_result,
}
use gstdbot.Sovereign.Json.{is_hex, js_length, canonicalize, decimal, quote}
use gstdbot.Sovereign.Crypto.{unsigned_body}
use gstdbot.Sovereign.Signing.{base_header}
use gstdbot.Sovereign.Board.{
  Board, manifest, get, has, leases, results, attests, is_coordinator, failover_ms, epoch_of,
}
use gstdbot.Sovereign.Board.Order.{IdsAgree}
use gstdbot.Sovereign.Node.Duties.Starts.{fetched, vote_of}
use gstdbot.Sovereign.Node.Duties.Due.{IsVerifyDue}
use gstdbot.Sovereign.Node.Sends.{emit, attest_json}
use gstdbot.Sovereign.Node.Sends.Parsed.{IsAttestForm}
use gstdbot.Sovereign.Node.Sends.Emitted.{IsSendable}
use gstdbot.Sovereign.Node.Sends.Votes.{emit-attests}
use gstdbot.Sovereign.Tests.Demo.{of, typed, ids_distinct, IdsAgree-distinct}
use gstdbot.Sovereign.Tests.Bundles.{prim, publisher, worker, voter, id_of}
use gstdbot.Sovereign.Tests.Signed.{
  key_of, hex_manifest, manifest_env, sending, nonces, first_lease, text_or_empty, voter-IsSigner,
}

-- A board with a result that waits for the vote of `voter`.
abbrev hex_version : DataVersion
hex_version = record {
  entity = "npm:left-pad";
  adapter = "npm-registry";
  source = "registry";
  fetched_at = 4;
  content_hash = id_of "f";
  content = text "000000000000000000000000f";
}

abbrev waiting_envelopes : List (Envelope Payload)
waiting_envelopes =
    of (publish hex_manifest) publisher 5 (id_of "1")
    ∷ of (lease first_lease) publisher 6 (id_of "2")
    ∷ of
        (lease (record {
          task_id = id_of "1";
          role = verifier;
          worker = voter;
          epoch = 1;
          expires_at = 1010;
        }))
        publisher 7 (id_of "3")
    ∷ of (result (record { task_id = id_of "1"; lease_id = id_of "2"; version = hex_version }))
        worker 8 (id_of "4")
    ∷ []

abbrev pub waiting : Board
waiting = record { objects = waiting_envelopes }

abbrev waiting_result : Envelope Result
waiting_result =
    typed (record { task_id = id_of "1"; lease_id = id_of "2"; version = hex_version }) worker 8
      (id_of "4")

waiting-IsAgree : IdsAgree waiting_envelopes
unfolding ids_distinct
waiting-IsAgree = IdsAgree-distinct waiting_envelopes refl

waiting-manifest : manifest waiting (id_of "1") ≡ some manifest_env
unfolding manifest get as_manifest
waiting-manifest = refl

vote-IsSendable :
    IsSendable prim
      (key_of voter)
      "task.attest"
      (attest_json (vote_of (id_of "1") waiting_result (fetched hex_version)))
      20
      "0000000000000008"
      waiting
unfolding is_hex js_length unsigned_body canonicalize decimal quote has get sort insert_by str_lt
    vote_of
vote-IsSendable = record {
  short = omega arith;
  hex = refl;
  positive = omega arith;
  body = text_or_empty (
      unsigned_body (base_header (key_of voter) "task.attest" 20 "0000000000000008" "")
        (attest_json (vote_of (id_of "1") waiting_result (fetched hex_version))));
  written = refl;
  small = omega arith;
  new = refl;
}

vote-IsAttestForm : IsAttestForm (vote_of (id_of "1") waiting_result (fetched hex_version))
unfolding is_hex js_length vote_of
vote-IsAttestForm = record {
  task = refl;
  result = refl;
  observed = λ s h. subst (λ x. is_hex 64 x ≡ true) (eq_of_some h) refl;
  reason = omega arith;
}

waiting-IsVerifyDue : IsVerifyDue voter waiting (id_of "1") waiting_result
unfolding leases results manifest get as_manifest as_lease as_result is_coordinator failover_ms
    epoch_of sort insert_by str_lt by_rank filter_map
waiting-IsVerifyDue = record {
  leased = refl;
  counted = Memᴰ.head refl;
  other = refl;
  unvoted = refl;
}

emit-attests_example :
    (a : Envelope Attest) × Memᴰ a (
      attests
        (emit prim
          (key_of voter)
          20
          nonces
          "task.attest"
          (attest_json (vote_of (id_of "1") waiting_result (fetched hex_version)))
          (sending waiting)).objects.board
        (id_of "1")
        (id_of "4"))
    × (a.payload ≡ vote_of (id_of "1") waiting_result (fetched hex_version))
    × (a.signer ≡ voter)
emit-attests_example =
    emit-attests prim (key_of voter) 20 nonces (sending waiting) (id_of "1") manifest_env
      waiting_result (fetched hex_version) voter-IsSigner vote-IsSendable refl vote-IsAttestForm
      waiting-IsAgree waiting-manifest waiting-IsVerifyDue
