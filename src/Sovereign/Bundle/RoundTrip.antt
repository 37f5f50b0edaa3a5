-- ===== src/Sovereign/Bundle/RoundTrip.antt =====
-- src/sovereign/board.ts: the bundle of an accepted task gives a board of its own the same verdict.
use gstdbot.Common.{
  ℕ, String, true, some, [], ◌∷◌, find_map, find_map_sound, ◌≡◌, refl, sym, ap, subst, ◌∙◌, inl,
  inr, arith, Option-cases, Memᴰ, eq_iff, ◌==◌,
}
use gstdbot.Sovereign.Envelope.{Envelope, Manifest, Result, Finalize}
use gstdbot.Sovereign.Board.{
  Board, get, manifest, results, finalizes, tally, content_hash_of, is_accepting, accepts,
  accepted_as, pinned, accepted_pin, accepted_result, decided, evaluate, Evaluation, TaskStatus,
  Tally,
}
use gstdbot.Sovereign.Board.Order.{IdsAgree}
use gstdbot.Sovereign.Board.Accepted.{evaluate_sound}
use gstdbot.Sovereign.Bundle.{ProofBundle, bundle_envelopes, of_result, proof_bundle, is_accepted}
use gstdbot.Sovereign.Bundle.Replay.{bundled, result_found, bundled-manifest, bundled-result}
use gstdbot.Sovereign.Bundle.Verdicts.{results_same, attests_same}

module _ (c : Board) (task : String) (need : ℕ) (r : Envelope Result)
    (ok : is_accepting need (tally c task r.id) ≡ true) where
  only : Evaluation
  only = accepted_as c r.id (tally c task r.id)

  accepts-only : accepts c task need r.id ≡ some (tally c task r.id)
  unfolding accepts
  accepts-only = rw ok refl

  result-only : accepted_result c task need r ≡ some only
  unfolding only
  result-only = ground (arith, accepts-only)

  pin-only :
      (f : Envelope Finalize) {ev : Evaluation}
      → accepted_pin c task need (r ∷ []) f ≡ some ev
      → ev ≡ only
  unfolding only
  pin-only f {ev} h = elim (Option-cases (pinned (r ∷ []) f)) [
    | inl e ↦ absurd (ground arith)
    | inr (id, e) ↦
        let named : (r.id == id) ≡ true = ground arith in
        let same : r.id ≡ id = (eq_iff r.id id).0 named in
        let here : accepts c task need id ≡ some (tally c task id) =
          subst (λ i. accepts c task need i ≡ some (tally c task i)) same accepts-only in
        let made : accepted_as c id (tally c task id) ≡ ev = ground arith in
        sym made ∙ sym (ap (λ i. accepted_as c i (tally c task i)) same)
  ]

  -- Where a task has one result, and it is accepted, that is the decision, pinned or not.
  decided-only : decided c task need (r ∷ []) ≡ some only
  unfolding decided
  decided-only =
      elim (Option-cases (find_map (accepted_pin c task need (r ∷ [])) (finalizes c task))) [
        | inr (ev, e) ↦
            let (f, _, h) =
              find_map_sound (accepted_pin c task need (r ∷ [])) (finalizes c task) e in
            let same = pin-only f h in
            let pinned_so : decided c task need (r ∷ []) ≡ some ev = ground arith in
            pinned_so ∙ ap some same
        | inl e ↦ ground (arith, result-only)
      ]

evaluate-decided :
    (c : Board) (task : String) (later : ℕ) (m : Envelope Manifest) (r : Envelope Result)
    → manifest c task ≡ some m
    → results c task ≡ r ∷ []
    → is_accepting m.payload.min_verifiers (tally c task r.id) ≡ true
    → evaluate c task later ≡ accepted_as c r.id (tally c task r.id)
unfolding evaluate only
evaluate-decided c task later m r known one ok =
    let first = decided-only c task m.payload.min_verifiers r ok in
    let asked : decided c task m.payload.min_verifiers (results c task)
        ≡ some (only c task m.payload.min_verifiers r ok) =
      subst
        (λ l.
          decided c task m.payload.min_verifiers l
          ≡ some (only c task m.payload.min_verifiers r ok))
        (sym one) first in
    ground arith

module _ (b : Board) (agree : IdsAgree b.objects) (task : String) (m : Envelope Manifest)
    (known : manifest b task ≡ some m) (r : Envelope Result)
    (counted : Memᴰ r (results b task)) where
  abbrev c : Board
  c = bundled b agree task m known r counted

  get_same : get c r.id ≡ get b r.id
  get_same =
      bundled-result b agree task m known r counted
      ∙ sym (result_found b agree task m known r counted)

  hash_same : content_hash_of c r.id ≡ content_hash_of b r.id
  unfolding content_hash_of
  hash_same = rw (content_hash_of, get_same) refl

  tally_same : tally c task r.id ≡ tally b task r.id
  unfolding tally
  tally_same = rw (tally, attests_same b agree task m known r counted, hash_same) refl

  accepted_as_same : (t : Tally) → accepted_as c r.id t ≡ accepted_as b r.id t
  unfolding accepted_as
  accepted_as_same t = rw (accepted_as, get_same) refl

  evaluate_same :
      (later : ℕ)
      → is_accepting m.payload.min_verifiers (tally b task r.id) ≡ true
      → evaluate c task later ≡ accepted_as b r.id (tally b task r.id)
  evaluate_same later ok =
      evaluate-decided c task later m r (bundled-manifest b agree task m known r counted)
        (results_same b agree task m known r counted)
        (subst (λ t. is_accepting m.payload.min_verifiers t ≡ true) (sym tally_same) ok)
      ∙ ap (accepted_as c r.id) tally_same
      ∙ accepted_as_same (tally b task r.id)

accepted_is : (ev : Evaluation) → ev.status ≡ TaskStatus.accepted → is_accepted ev ≡ true
accepted_is ev h = rw h refl

-- An accepted task has a bundle, and a board that holds the bundle's envelopes and no others gives the
-- task the same verdict at any later time, where an id names one envelope.
pub proof_bundle-evaluate :
    (b : Board) (task : String) (now later : ℕ)
    → IdsAgree b.objects
    → (evaluate b task now).status ≡ TaskStatus.accepted
    → (p : ProofBundle) × (proof_bundle b task now ≡ some p)
      × (evaluate (record { objects = p.envelopes }) task later ≡ evaluate b task now)
unfolding proof_bundle accepted_as
proof_bundle-evaluate b task now later agree accepted =
    let (m, known, (r, counted, ok, made)) = evaluate_sound b task now accepted in
    let passed : is_accepted (evaluate b task now) ≡ true =
      accepted_is (evaluate b task now) accepted in
    let named : (evaluate b task now).result_id ≡ some r.id = ap (λ e. e.result_id) made in
    let found = result_found b agree task m known r counted in
    (
      record {
        entity = m.payload.entity;
        task_id = task;
        envelopes = bundle_envelopes b task m r.id (of_result r);
      },
      rw (proof_bundle, known, passed, named, found) refl,
      evaluate_same b agree task m known r counted later ok ∙ sym made,
    )
