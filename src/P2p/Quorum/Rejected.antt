-- ===== src/P2p/Quorum/Rejected.antt =====
-- src/p2p/quorum-coordinator.ts: a node whose own attestation is enough gets no result.
use gstdbot.Common.{
  ◌≤◌, leb, length, String, ◌==◌, true, not, ◌||◌, Option, none, some, List, [], ◌∷◌, select,
  select-cons_true, filter_map, arith, ◌≡◌, refl, ap, ◌∙◌, eqb, any,
}
use gstdbot.P2p.Quorum.{
  P2pAttestation, Primitives, Context, Quorum, Event, received, timeout, same_work, is_candidate,
  is_settled, verify_attestation_locally, verify_all, evaluate, settle_if, or_same, endorsed, noted,
  held, endorsement_key, on_attestation, step, run, await_quorum,
}
use gstdbot.P2p.Quorum.Sound.{either}

module _ (prim : Primitives) (ctx : Context) where
  abbrev IsRejected : Quorum → Type 0
  IsRejected q = (q.rejected ≡ true) × (q.settled ≡ none)

  off : (q : Quorum) → IsRejected q → (is_settled q || q.rejected) ≡ true
  off q (rejected, none_yet) = rw (rejected, none_yet) refl

  settle_if-IsRejected :
      (q : Quorum) (o : Option (List P2pAttestation))
      → IsRejected q
      → IsRejected (or_same prim ctx q (settle_if prim ctx q o))
  settle_if-IsRejected q none r = r
  settle_if-IsRejected q (some vs) r =
      either IsRejected (leb ctx.quorum_threshold (length vs)) (rw (off q r) r) r

  endorsed-IsRejected :
      (a : P2pAttestation) (q : Quorum) (o : Option String)
      → IsRejected q
      → IsRejected (endorsed prim ctx a q o)
  endorsed-IsRejected a q none r = r
  endorsed-IsRejected a q (some peer) r = r

  on_attestation-IsRejected :
      (a : P2pAttestation) (q : Quorum) → IsRejected q → IsRejected (on_attestation prim ctx a q)
  unfolding on_attestation evaluate
  on_attestation-IsRejected a q r = either IsRejected (not (a.task_id == ctx.task_id)) r (
      either IsRejected (eqb (length ctx.co_executor_peer_ids) 0) r (
        either IsRejected (a.worker_addr == ctx.worker_addr)
          (settle_if-IsRejected (held prim ctx a q) _ r)
          (either IsRejected (same_work ctx a)
            (either IsRejected (any (λ k. k == endorsement_key a) q.already_endorsed) r
              (endorsed-IsRejected a (noted prim ctx a q) (prim.parse_address a.worker_addr) r))
            r)))

  step-IsRejected : (e : Event) (q : Quorum) → IsRejected q → IsRejected (step prim ctx e q)
  step-IsRejected (received a) q r =
      either IsRejected (is_settled q) r (on_attestation-IsRejected a q r)
  step-IsRejected timeout q r = either IsRejected (is_settled q) r (rw (off q r) r)

  run-IsRejected : (es : List Event) (q : Quorum) → IsRejected q → IsRejected (run prim ctx es q)
  unfolding run
  run-IsRejected [] q r = r
  run-IsRejected (e ∷ es) q r = run-IsRejected es (step prim ctx e q) (step-IsRejected e q r)

  own_counts :
      is_candidate ctx ctx.own_attestation ≡ true
      → verify_attestation_locally prim ctx ctx.own_attestation ≡ some true
      → verify_all prim ctx (select (is_candidate ctx) (ctx.own_attestation ∷ []))
        ≡ some (ctx.own_attestation ∷ [])
  unfolding verify_all filter_map
  own_counts own good =
      ap (verify_all prim ctx) (select-cons_true (is_candidate ctx) ctx.own_attestation [] own)
      ∙ rw (verify_all, good) refl

  -- Where the node's own attestation is for its own work, and its signature verifies, a threshold of
  -- one signer is never reached: the promise is rejected at the start, and whatever attestations come,
  -- it never has a result.
  pub await_quorum-rejects :
      (es : List Event)
      → ctx.quorum_threshold ≤ 1
      → is_candidate ctx ctx.own_attestation ≡ true
      → verify_attestation_locally prim ctx ctx.own_attestation ≡ some true
      → ((await_quorum prim ctx).rejected ≡ true)
        × ((run prim ctx es (await_quorum prim ctx)).settled ≡ none)
  unfolding evaluate
  await_quorum-rejects es low own good =
      let enough : leb ctx.quorum_threshold 1 ≡ true = ground (arith, low) in
      let start : IsRejected (await_quorum prim ctx) =
        rw (own_counts own good, enough) (refl, refl) in
      (start.0, (run-IsRejected es (await_quorum prim ctx) start).1)
