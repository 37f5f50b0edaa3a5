-- ===== src/Sovereign/Bundle/Proof.antt =====
-- src/sovereign/board.ts: what a bundle that verifies proves.
use gstdbot.Common.{
  ℕ, String, true, Option, none, some, List, [], ◌∷◌, map, ◌≡◌, ap, subst, inl, inr, arith,
  Bool-cases, eq_of_some,
}
use gstdbot.Sovereign.Envelope.{Json}
use gstdbot.Sovereign.Crypto.{Primitives}
use gstdbot.Sovereign.Board.{Board, evaluate, Evaluation, TaskStatus}
use gstdbot.Sovereign.Board.Accepted.{IsProven, evaluate-IsProven}
use gstdbot.Sovereign.Ingest.{
  ingest, Outcome, added, throws, not_added, bad_envelope, duplicate, unknown_type, invalid_payload,
  content_not_canonicalizable, content_hash_mismatch,
}
use gstdbot.Sovereign.Ingest.Deliver.{deliver, empty, deliver-IdsAgree}
use gstdbot.Sovereign.Bundle.{
  BundleCheck, invalid, broken, unproven, proven, is_accepted, after_ingest, judge, verify_from,
  verify_proof_bundle,
}

after_ingest_sound :
    (b : Board) (o : Outcome) (go : Board → BundleCheck) {ev : Evaluation}
    → after_ingest (b, o) go ≡ proven ev
    → go b ≡ proven ev
after_ingest_sound b added go h = h
after_ingest_sound b throws go h = absurd (ground arith)
after_ingest_sound b (not_added duplicate) go h = h
after_ingest_sound b (not_added (bad_envelope r)) go h = absurd (ground arith)
after_ingest_sound b (not_added unknown_type) go h = absurd (ground arith)
after_ingest_sound b (not_added invalid_payload) go h = absurd (ground arith)
after_ingest_sound b (not_added content_not_canonicalizable) go h = absurd (ground arith)
after_ingest_sound b (not_added content_hash_mismatch) go h = absurd (ground arith)

-- The evaluation that a judgement of `proven` gives.
verdict_of : BundleCheck → Option Evaluation
verdict_of (proven ev) = some ev
verdict_of (unproven ev) = none
verdict_of (invalid r) = none
verdict_of broken = none

accepted_status : (ev : Evaluation) → is_accepted ev ≡ true → ev.status ≡ TaskStatus.accepted
accepted_status ev h = ground arith

judge_sound :
    (task : String) (now : ℕ) (b : Board) {ev : Evaluation}
    → judge task now b ≡ proven ev
    → (evaluate b task now ≡ ev) × ((evaluate b task now).status ≡ TaskStatus.accepted)
unfolding verdict_of
judge_sound task now b {ev} h = elim (Bool-cases (is_accepted (evaluate b task now))) [
  | inl e ↦
      let same : some (evaluate b task now) ≡ some ev = ap verdict_of (rw e at h) in
      (eq_of_some same, accepted_status (evaluate b task now) e)
  | inr e ↦ let wrong : none ≡ some ev = ap verdict_of (rw e at h) in absurd (ground arith)
]

module _ (prim : Primitives) (task : String) (now : ℕ) where
  abbrev pub timed : List Json → List (ℕ × Json)
  timed es = map (λ e. (now, e)) es

  verify_from_sound :
      (b : Board) (es : List Json) {ev : Evaluation}
      → verify_from prim task now b es ≡ proven ev
      → judge task now (deliver prim b (timed es)) ≡ proven ev
  unfolding verify_from deliver
  verify_from_sound b [] h = h
  verify_from_sound b (e ∷ es) h = verify_from_sound (ingest prim b e now).0 es (
      after_ingest_sound (ingest prim b e now).0 (ingest prim b e now).1
        (λ b'. verify_from prim task now b' es) h)

  -- A bundle that verifies proves its task: on the board of the admissible envelopes among those of the
  -- bundle, the verdict is backed by a leased worker's result and by enough independent votes.
  pub verify_proof_bundle-IsProven :
      (es : List Json) (ev : Evaluation)
      → verify_proof_bundle prim task now es ≡ proven ev
      → IsProven (deliver prim empty (timed es)) task ev
  verify_proof_bundle-IsProven es ev h =
      let (same, accepted) =
        judge_sound task now (deliver prim empty (timed es)) (verify_from_sound empty es h) in
      subst (IsProven (deliver prim empty (timed es)) task) same (
        evaluate-IsProven (deliver prim empty (timed es)) task now
          (deliver-IdsAgree prim (timed es)) accepted)
