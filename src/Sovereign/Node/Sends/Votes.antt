-- ===== src/Sovereign/Node/Sends/Votes.antt =====
-- src/sovereign/node.ts, crypto.ts and board.ts: the vote of a verification counts on the
-- board of the node.
use gstdbot.Common.{
  ℕ, String, ◌==◌, eq_iff, eq_refl, true, false, some, any, arith, ◌≡◌, any_sound, any_complete,
  and-true, refl, sym, ◌∙◌, subst, inl, inr, Bool-cases, Memᴰ, length,
}
use gstdbot.Sovereign.Envelope.{
  Envelope, Payload, Manifest, Attest, Result, attest, as_attest, retype,
}
use gstdbot.Sovereign.Crypto.{Primitives}
use gstdbot.Sovereign.Signing.{NodeIdentity}
use gstdbot.Sovereign.Signing.Verified.{IsSigner}
use gstdbot.Sovereign.Schema.{schema_of}
use gstdbot.Sovereign.Board.{Board, attests, is_verifier, manifest}
use gstdbot.Sovereign.Ingest.Adds.{attests-add, IsUnvoted}
use gstdbot.Sovereign.Ingest.{add, envelope_of, check_content}
use gstdbot.Sovereign.Node.Sends.{attest_json, Sending, emit}
use gstdbot.Sovereign.Node.Sends.Parsed.{IsAttestForm, parse_attest-attest_json}
use gstdbot.Sovereign.Node.Sends.Emitted.{IsSendable, emit-added}
use gstdbot.Sovereign.Board.Backed.{results_sound}
use gstdbot.Sovereign.Board.Accepted.{result_found}
use gstdbot.Sovereign.Board.Order.{IdsAgree}
use gstdbot.Sovereign.Node.Duties.Starts.{
  Fetched, fetched, failed, vote_of, is_vote_on, is_my_verify,
}
use gstdbot.Sovereign.Node.Duties.Due.{IsVerifyDue}

is_vote_on-as_attest :
    (me rid : String) (e : Envelope Payload) (c : Envelope Attest)
    → as_attest e ≡ some c
    → c.payload.result_id ≡ rid
    → c.signer ≡ me
    → is_vote_on me rid e ≡ true
unfolding as_attest
is_vote_on-as_attest me rid e c cast on mine = ground (arith, cast, eq_refl rid, eq_refl me)

vote_of-for :
    (task : String) (r : Envelope Result) (f : Fetched)
    → ((vote_of task r f).task_id ≡ task) × ((vote_of task r f).result_id ≡ r.id)
unfolding vote_of
vote_of-for task r (fetched v) = (refl, refl)
vote_of-for task r (failed text) = (refl, refl)

IsUnvoted-due :
    (me : String) (b : Board) (rid : String) (a : Envelope Attest)
    → a.signer ≡ me
    → a.payload.result_id ≡ rid
    → any (is_vote_on me rid) b.objects ≡ false
    → IsUnvoted b a
IsUnvoted-due me b rid a mine on h e c held cast same by = cc (
  any_complete (is_vote_on me rid) held
      (is_vote_on-as_attest me rid e c cast (same ∙ on) (by ∙ mine)),
  h,
)

apart : {a e r me : String} → a ≡ me → e ≡ r → (r == me) ≡ false → (a == e) ≡ false
apart {a} {e} {r} {me} mine by other = elim (Bool-cases (a == e)) [
  | inr h ↦ h
  | inl h ↦
      let same : r ≡ me = sym by ∙ sym ((eq_iff a e).0 h) ∙ mine in
      absurd (cc ((eq_iff r me).1 same, other))
]

-- A verification that is due where its vote is sent ends in a vote that counts: on the board that `emit`
-- leaves, the vote is among the attestations of the result that count, with the payload of `runVerify`
-- and the node as its signer. On the board an id names one envelope; no exception has ended the run; the
-- schema accepts the vote; and the envelope is small, has a nonce of 16 hexadecimal digits and is not on
-- the board yet.
pub emit-attests :
    (prim : Primitives) (identity : NodeIdentity) (at_ms : ℕ) (nonces : ℕ → String) (s : Sending)
    (task : String) (m : Envelope Manifest) (r : Envelope Result) (f : Fetched)
    → IsSigner prim identity
    → IsSendable prim identity "task.attest"
        (attest_json (vote_of task r f))
        at_ms
        (nonces (length s.sent))
        s.objects.board
    → s.thrown ≡ false
    → IsAttestForm (vote_of task r f)
    → IdsAgree s.objects.board.objects
    → manifest s.objects.board task ≡ some m
    → IsVerifyDue identity.node_id s.objects.board task r
    → (a : Envelope Attest) × Memᴰ a (
        attests
          (emit prim identity at_ms nonces "task.attest"
            (attest_json (vote_of task r f))
            s).objects.board
          task
          r.id)
      × (a.payload ≡ vote_of task r f)
      × (a.signer ≡ identity.node_id)
unfolding as_attest schema_of check_content
emit-attests prim identity at_ms nonces s task m r f signer w going form agree known due =
    let b = s.objects.board in
    let vote = vote_of task r f in
    let (of_task, of_result) = vote_of-for task r f in
    let made =
      emit-added prim identity at_ms nonces "task.attest" (attest_json vote) s _ (attest vote)
        signer w going refl (rw (parse_attest-attest_json vote form) refl) refl in
    let x : Envelope Payload = envelope_of made.header made.id (attest vote) in
    let a : Envelope Attest = retype x vote in
    let (e, found, by, _) =
      result_found b m task r agree (results_sound b task m known due.counted) in
    let (l, leased, fits) = any_sound (is_my_verify identity.node_id) _ due.leased in
    let (verifies, mine) = and-true {a = is_verifier l} fits in
    let there : Memᴰ a (attests (add b x) task vote.result_id) =
      attests-add b x task m e a l known (rw of_result found) refl of_task
        (apart made.signer by due.other) leased verifies
        (subst (λ n. (l.payload.worker == n) ≡ true) (sym made.signer) mine)
        (IsUnvoted-due identity.node_id b r.id a made.signer of_result due.unvoted) in
    (
      a,
      subst (λ y. Memᴰ a (attests y task r.id)) (sym made.board)
          (subst (λ i. Memᴰ a (attests (add b x) task i)) of_result there),
      refl,
      made.signer,
    )
