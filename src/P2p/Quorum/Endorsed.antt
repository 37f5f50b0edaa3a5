-- ===== src/P2p/Quorum/Endorsed.antt =====
-- src/p2p/quorum-coordinator.ts: what this node signs for its peers.
use Prim.Native.String.{◌++◌}
use gstdbot.Common.{
  leb, length, String, ◌==◌, eq_iff, true, false, Option, none, some, List, [], ◌∷◌, map, select,
  arith, ◌≡◌, ◌≢◌, refl, sym, ap, subst, ◌∙◌, inl, inr, Memᴰ, Memᴰ-cons, Memᴰ-map, Distinct,
  Bool-cases, any, any_complete, not, eqb, ◌||◌,
}
use gstdbot.Sovereign.Json.{decimal}
use gstdbot.P2p.Quorum.{
  P2pAttestation, Primitives, Context, Quorum, Event, received, timeout, same_work, is_candidate,
  is_settled, message_for, verify_all, evaluate, settle_if, or_same, endorsed, noted, held, endorse,
  endorsement_key, on_attestation, timed_out, step, run, initial, await_quorum,
}
use gstdbot.P2p.Quorum.Sound.{either, await_quorum_lem}

abbrev worker_of : P2pAttestation → String
worker_of m = m.worker_addr

module _ (prim : Primitives) (ctx : Context) where
  -- An endorsement: this node's signature of the message that pays a peer for this node's own result.
  pub record IsVouched (m : P2pAttestation) : Type 0 where
    pub of_task : m.task_id ≡ ctx.task_id
    pub of_result : m.result_hash ≡ ctx.own_result_hash
    pub of_bonus : m.gstd_bonus_amount ≡ decimal ctx.gstd_bonus_amount
    pub of_units : m.compute_units ≡ ctx.compute_units
    pub by_me : m.pubkey_hex ≡ prim.pubkey_hex
    pub other : m.worker_addr ≢ ctx.worker_addr
    pub peer : String
    pub parsed : prim.parse_address m.worker_addr ≡ some peer
    pub signed : m.signature_hex ≡ prim.sign (prim.cell_hash (message_for ctx peer))

  abbrev noted_key : String → String
  noted_key worker = worker ++ ":" ++ ctx.own_result_hash

  record IsVouching (q : Quorum) : Type 0 where
    vouched : (m : P2pAttestation) → Memᴰ m q.sent → IsVouched m
    keyed :
        (m : P2pAttestation)
        → Memᴰ m q.sent
        → any (λ k. k == noted_key m.worker_addr) q.already_endorsed ≡ true
    once : Distinct (map worker_of q.sent)

  same_endorsements :
      (q p : Quorum)
      → p.sent ≡ q.sent
      → p.already_endorsed ≡ q.already_endorsed
      → IsVouching q
      → IsVouching p
  same_endorsements q p sent already v = record {
    vouched = λ m k. v.vouched m (subst (λ l. Memᴰ m l) sent k);
    keyed = λ m k.
        subst (λ l. any (λ k. k == noted_key m.worker_addr) l ≡ true) (sym already)
          (v.keyed m (subst (λ l. Memᴰ m l) sent k));
    once = subst (λ l. Distinct (map worker_of l)) (sym sent) v.once;
  }

  settle_if-same :
      (q : Quorum) (o : Option (List P2pAttestation))
      → ((or_same prim ctx q (settle_if prim ctx q o)).sent ≡ q.sent)
        × ((or_same prim ctx q (settle_if prim ctx q o)).already_endorsed ≡ q.already_endorsed)
  settle_if-same q none = (refl, refl)
  settle_if-same q (some vs) =
      let P = λ (p : Quorum). (p.sent ≡ q.sent) × (p.already_endorsed ≡ q.already_endorsed) in
      either P (leb ctx.quorum_threshold (length vs))
        (either P (is_settled q || q.rejected) (refl, refl) (refl, refl)) (refl, refl)

  noted-IsVouching :
      (a : P2pAttestation) (q : Quorum) → IsVouching q → IsVouching (noted prim ctx a q)
  noted-IsVouching a q v = record {
    vouched = v.vouched;
    keyed = λ m k. ground (arith, v.keyed m k);
    once = v.once;
  }

  endorsed-IsVouching :
      (a : P2pAttestation) (q : Quorum) (o : Option String)
      → IsVouching q
      → same_work ctx a ≡ true
      → (a.worker_addr == ctx.worker_addr) ≡ false
      → any (λ k. k == endorsement_key a) q.already_endorsed ≡ false
      → prim.parse_address a.worker_addr ≡ o
      → IsVouching (endorsed prim ctx a (noted prim ctx a q) o)
  endorsed-IsVouching a q none v same other new parsed = noted-IsVouching a q v
  endorsed-IsVouching a q (some peer) v same other new parsed =
      let tested : (a.result_hash == ctx.own_result_hash) ≡ true = ground arith in
      let hash : a.result_hash ≡ ctx.own_result_hash =
        (eq_iff a.result_hash ctx.own_result_hash).0 tested in
      let key : endorsement_key a ≡ noted_key a.worker_addr =
        ap (λ h. a.worker_addr ++ ":" ++ h) hash in
      let kept = noted-IsVouching a q v in
      record {
        vouched = λ m k. elim (Memᴰ-cons k) [
          | inl e ↦ subst IsVouched (sym e) (record {
            of_task = refl;
            of_result = refl;
            of_bonus = refl;
            of_units = refl;
            by_me = refl;
            other = λ s. cc ((eq_iff a.worker_addr ctx.worker_addr).1 s, other);
            peer = peer;
            parsed = parsed;
            signed = refl;
          })
          | inr j ↦ kept.vouched m j
        ];
        keyed = λ m k. elim (Memᴰ-cons k) [
          | inl e ↦
              any_complete (λ s. s == noted_key m.worker_addr) (Memᴰ.head refl)
                ((eq_iff (endorsement_key a) (noted_key m.worker_addr)).1
                  (key ∙ sym (ap (λ z. noted_key z.worker_addr) e)))
          | inr j ↦ kept.keyed m j
        ];
        once = (
          λ k.
              let (m, there, w) = Memᴰ-map worker_of q.sent k in
              cc (
                subst (λ s. any (λ k. k == s) q.already_endorsed ≡ true)
                    (ap noted_key (sym w) ∙ sym key) (v.keyed m there),
                new,
              ),
          v.once,
        );
      }

  endorse-IsVouching :
      (a : P2pAttestation) (q : Quorum)
      → IsVouching q
      → same_work ctx a ≡ true
      → (a.worker_addr == ctx.worker_addr) ≡ false
      → IsVouching (endorse prim ctx a q)
  endorse-IsVouching a q v same other =
      elim (Bool-cases (any (λ k. k == endorsement_key a) q.already_endorsed)) [
        | inl e ↦ rw e v
        | inr e ↦
            rw e (endorsed-IsVouching a q (prim.parse_address a.worker_addr) v same other e refl)
      ]

  on_attestation-IsVouching :
      (a : P2pAttestation) (q : Quorum) → IsVouching q → IsVouching (on_attestation prim ctx a q)
  unfolding on_attestation evaluate
  on_attestation-IsVouching a q v =
      let h = held prim ctx a q in
      let (sent, already) =
        settle_if-same h (verify_all prim ctx (select (is_candidate ctx) h.collected)) in
      either IsVouching (not (a.task_id == ctx.task_id)) v (
        either IsVouching (eqb (length ctx.co_executor_peer_ids) 0) v
          (elim (Bool-cases (a.worker_addr == ctx.worker_addr)) [
            | inl e ↦ rw e (same_endorsements q _ sent already v)
            | inr e ↦ rw e (elim (Bool-cases (same_work ctx a)) [
              | inl g ↦ rw g (endorse-IsVouching a q v g e)
              | inr g ↦ rw g v
            ])
          ]))

  step-IsVouching : (e : Event) (q : Quorum) → IsVouching q → IsVouching (step prim ctx e q)
  step-IsVouching (received a) q v =
      either IsVouching (is_settled q) v (on_attestation-IsVouching a q v)
  step-IsVouching timeout q v = either IsVouching (is_settled q) v (
      either IsVouching (is_settled q || q.rejected) v
        (same_endorsements q (record q { settled = some (timed_out prim ctx) }) refl refl v))

  run_lem : (es : List Event) (q : Quorum) → IsVouching q → IsVouching (run prim ctx es q)
  unfolding run
  run_lem [] q v = v
  run_lem (e ∷ es) q v = run_lem es (step prim ctx e q) (step-IsVouching e q v)

  await_quorum-IsVouching : IsVouching (await_quorum prim ctx)
  unfolding evaluate
  await_quorum-IsVouching =
      let none_sent : IsVouching (initial prim ctx) = record {
        vouched = λ m k. elim k [ ];
        keyed = λ m k. elim k [ ];
        once = tt;
      } in
      await_quorum_lem prim ctx IsVouching
        (same_endorsements (initial prim ctx) (record (initial prim ctx) { rejected = true }) refl
          refl none_sent)
        (λ q h.
          let (sent, already) =
            settle_if-same (initial prim ctx)
              (verify_all prim ctx (select (is_candidate ctx) (initial prim ctx).collected)) in
          same_endorsements (initial prim ctx) q
            (subst (λ o. (or_same prim ctx (initial prim ctx) o).sent ≡ []) h sent)
            (subst (λ o. (or_same prim ctx (initial prim ctx) o).already_endorsed ≡ []) h already)
            none_sent)

  -- However the events come, this node signs only messages that pay the address that a text other than
  -- its own address text parses to, for the result, the bonus and the units that it found itself, and
  -- it signs for no address text twice.
  pub run-IsVouched :
      (es : List Event) (m : P2pAttestation)
      → Memᴰ m (run prim ctx es (await_quorum prim ctx)).sent
      → IsVouched m
        × Distinct (
            map
              (λ (m : P2pAttestation). m.worker_addr)
              (run prim ctx es (await_quorum prim ctx)).sent)
  run-IsVouched es m there =
      let v = run_lem es (await_quorum prim ctx) await_quorum-IsVouching in
      (v.vouched m there, v.once)
