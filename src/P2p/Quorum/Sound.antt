-- ===== src/P2p/Quorum/Sound.antt =====
-- src/p2p/quorum-coordinator.ts: what an accepted quorum consists of.
use gstdbot.Common.{
  ◌≤◌, leb, length, String, ◌==◌, eq_iff, Bool, true, false, if◌then◌else◌, Option, none, some,
  List, [], ◌∷◌, map, select, Distinct-map-select, Memᴰ-select, arith, ◌≡◌, ◌≢◌, refl, sym, ap,
  subst, ◌∙◌, inl, inr, eq_of_some, Memᴰ, Distinct, Bool-cases, any, not, eqb, ◌||◌,
}
use gstdbot.P2p.Quorum.{
  P2pAttestation, Primitives, Context, QuorumResult, Quorum, Event, received, timeout, collect,
  same_work, is_candidate, proof_of, finish, is_settled, verify_attestation_locally, verify_all,
  accepted_by, evaluate, settle_if, or_same, endorsed, noted, held, endorsement_key, on_attestation,
  timed_out, step, run, initial, first_evaluated, await_quorum,
}
use gstdbot.P2p.Quorum.Counted.{
  key_of, Distinct-collect, collect_unique, verify_all_sound, verify_all-Distinct,
}

pub either : {A : Type 0} (P : A → Type 0) (c : Bool) {x y : A} → P x → P y → P (if c then x else y)
either P true px py = px
either P false px py = py

module _ (prim : Primitives) (ctx : Context) where
  -- What an accepted result carries: at least the threshold of attestations with different keys, each
  -- for this task, worker and result, with a signature that verifies.
  pub record IsQuorum (r : QuorumResult) : Type 0 where
    pub voters : List P2pAttestation
    pub carried : r.attestations ≡ map proof_of voters
    pub different : Distinct (map key_of voters)
    pub enough : ctx.quorum_threshold ≤ length voters
    pub of_own : r.result_hash ≡ ctx.own_result_hash
    pub candidates : (a : P2pAttestation) → Memᴰ a voters → is_candidate ctx a ≡ true
    pub signed :
        (a : P2pAttestation) → Memᴰ a voters → verify_attestation_locally prim ctx a ≡ some true

  abbrev SettlesSoundly : Quorum → Type 0
  SettlesSoundly q = (r : QuorumResult) → q.settled ≡ some r → r.accepted ≡ true → IsQuorum r

  record IsSound (q : Quorum) : Type 0 where
    distinct : Distinct (map key_of q.collected)
    settles : SettlesSoundly q

  accepted_by-IsQuorum :
      (q : Quorum) (vs : List P2pAttestation)
      → IsSound q
      → verify_all prim ctx (select (is_candidate ctx) q.collected) ≡ some vs
      → leb ctx.quorum_threshold (length vs) ≡ true
      → IsQuorum (accepted_by prim ctx vs)
  accepted_by-IsQuorum q vs sound h enough =
      let chosen = select (is_candidate ctx) q.collected in
      record {
        voters = vs;
        carried = refl;
        different =
            verify_all-Distinct prim ctx chosen h
              (Distinct-map-select key_of (is_candidate ctx) q.collected sound.distinct);
        enough = ground arith;
        of_own = refl;
        candidates = λ a m.
            (Memᴰ-select (is_candidate ctx) q.collected (verify_all_sound prim ctx chosen h m).0).1;
        signed = λ a m. (verify_all_sound prim ctx chosen h m).1;
      }

  finish-IsSound :
      (r : QuorumResult) (q : Quorum)
      → (r.accepted ≡ true → IsQuorum r)
      → IsSound q
      → IsSound (finish r q)
  finish-IsSound r q ok sound = either IsSound (is_settled q || q.rejected) sound (record {
    distinct = sound.distinct;
    settles = λ s same accepted.
        let which : r ≡ s = eq_of_some same in
        subst IsQuorum which (ok (ap (λ x. x.accepted) which ∙ accepted));
  })

  settle_if-IsSound :
      (q : Quorum) (o : Option (List P2pAttestation)) {q' : Quorum}
      → IsSound q
      → verify_all prim ctx (select (is_candidate ctx) q.collected) ≡ o
      → settle_if prim ctx q o ≡ some q'
      → IsSound q'
  settle_if-IsSound q none sound e h = absurd (ground arith)
  settle_if-IsSound q (some vs) {q'} sound e h =
      subst IsSound (eq_of_some h) (elim (Bool-cases (leb ctx.quorum_threshold (length vs))) [
        | inl g ↦ rw g (
            finish-IsSound (accepted_by prim ctx vs) q (λ _. accepted_by-IsQuorum q vs sound e g)
              sound)
        | inr g ↦ rw g sound
      ])

  or_same-IsSound :
      (q : Quorum) (o : Option Quorum)
      → IsSound q
      → ((q' : Quorum) → o ≡ some q' → IsSound q')
      → IsSound (or_same prim ctx q o)
  or_same-IsSound q none sound next = sound
  or_same-IsSound q (some q') sound next = next q' refl

  evaluate-IsSound :
      (q : Quorum) (q' : Quorum) → IsSound q → evaluate prim ctx q ≡ some q' → IsSound q'
  unfolding evaluate
  evaluate-IsSound q q' sound h = settle_if-IsSound q _ sound refl h

  held-IsSound : (a : P2pAttestation) (q : Quorum) → IsSound q → IsSound (held prim ctx a q)
  held-IsSound a q sound = record {
    distinct = Distinct-collect a q.collected sound.distinct;
    settles = sound.settles;
  }

  endorsed-IsSound :
      (a : P2pAttestation) (q : Quorum) (o : Option String)
      → IsSound q
      → IsSound (endorsed prim ctx a q o)
  endorsed-IsSound a q none sound = sound
  endorsed-IsSound a q (some peer) sound = record {
    distinct = sound.distinct;
    settles = sound.settles;
  }

  on_attestation-IsSound :
      (a : P2pAttestation) (q : Quorum) → IsSound q → IsSound (on_attestation prim ctx a q)
  unfolding on_attestation
  on_attestation-IsSound a q sound =
      let kept = held-IsSound a q sound in
      let next =
        or_same-IsSound (held prim ctx a q) (evaluate prim ctx (held prim ctx a q)) kept
          (λ q' h. evaluate-IsSound (held prim ctx a q) q' kept h) in
      let noted_sound : IsSound (noted prim ctx a q) = record {
        distinct = sound.distinct;
        settles = sound.settles;
      } in
      let vouched =
        endorsed-IsSound a (noted prim ctx a q) (prim.parse_address a.worker_addr) noted_sound in
      either IsSound (not (a.task_id == ctx.task_id)) sound (
        either IsSound (eqb (length ctx.co_executor_peer_ids) 0) sound (
          either IsSound (a.worker_addr == ctx.worker_addr) next (
            either IsSound (same_work ctx a)
              (either IsSound (any (λ k. k == endorsement_key a) q.already_endorsed) sound vouched)
              sound)))

  step-IsSound : (e : Event) (q : Quorum) → IsSound q → IsSound (step prim ctx e q)
  step-IsSound (received a) q sound =
      either IsSound (is_settled q) sound (on_attestation-IsSound a q sound)
  step-IsSound timeout q sound =
      either IsSound (is_settled q) sound
        (finish-IsSound (timed_out prim ctx) q (λ h. absurd (ground arith)) sound)

  run-IsSound : (es : List Event) (q : Quorum) → IsSound q → IsSound (run prim ctx es q)
  unfolding run
  run-IsSound [] q sound = sound
  run-IsSound (e ∷ es) q sound = run-IsSound es (step prim ctx e q) (step-IsSound e q sound)

  initial-IsSound : IsSound (initial prim ctx)
  initial-IsSound = record {
    distinct = (λ m. elim m [ ], tt);
    settles = λ r h k. absurd (ground arith);
  }

  first_evaluated_lem :
      (P : Quorum → Type 0) (o : Option Quorum)
      → evaluate prim ctx (initial prim ctx) ≡ o
      → P (record (initial prim ctx) { rejected = true })
      → ((q : Quorum) → evaluate prim ctx (initial prim ctx) ≡ some q → P q)
      → P (first_evaluated prim ctx o)
  first_evaluated_lem P none h off on = off
  first_evaluated_lem P (some q) h off on = either P (is_settled q) off (on q h)

  -- What holds of a rejected start and of one that was evaluated holds of the start.
  pub await_quorum_lem :
      (P : Quorum → Type 0)
      → P (record (initial prim ctx) { rejected = true })
      → ((q : Quorum) → evaluate prim ctx (initial prim ctx) ≡ some q → P q)
      → P (await_quorum prim ctx)
  await_quorum_lem P off on =
      first_evaluated_lem P (evaluate prim ctx (initial prim ctx)) refl off on

  await_quorum-IsSound : IsSound (await_quorum prim ctx)
  await_quorum-IsSound =
      await_quorum_lem IsSound
        (record { distinct = (λ m. elim m [ ], tt); settles = λ r h k. absurd (ground arith) })
        (λ q h. evaluate-IsSound (initial prim ctx) q initial-IsSound h)

  -- However the attestations and the timeout come, an accepted result carries at least the threshold of
  -- attestations with different key texts, each for the node's own task, address, result, bonus and
  -- units, and with a signature that verifies.
  pub run-IsQuorum :
      (es : List Event) (r : QuorumResult)
      → (run prim ctx es (await_quorum prim ctx)).settled ≡ some r
      → r.accepted ≡ true
      → IsQuorum r
  run-IsQuorum es r h accepted =
      (run-IsSound es (await_quorum prim ctx) await_quorum-IsSound).settles r h accepted

  -- A settled promise stays as it is, whatever is received afterwards.
  pub run-settled :
      (q : Quorum) (es : List Event) (r : QuorumResult) → q.settled ≡ some r → run prim ctx es q ≡ q
  unfolding run
  run-settled q [] r h = refl
  run-settled q (e ∷ es) r h =
      let off : is_settled q ≡ true = rw h refl in
      let same : step prim ctx e q ≡ q = rw off refl in
      ap (run prim ctx es) same ∙ run-settled q es r h

  settle_if-collected :
      (q : Quorum) (o : Option (List P2pAttestation))
      → (or_same prim ctx q (settle_if prim ctx q o)).collected ≡ q.collected
  settle_if-collected q none = refl
  settle_if-collected q (some vs) =
      either (λ (p : Quorum). p.collected ≡ q.collected) (leb ctx.quorum_threshold (length vs))
        (either (λ (p : Quorum). p.collected ≡ q.collected) (is_settled q || q.rejected) refl refl)
        refl

  on_attestation-collected :
      (q : Quorum) (a : P2pAttestation)
      → a.task_id ≡ ctx.task_id
      → eqb (length ctx.co_executor_peer_ids) 0 ≡ false
      → a.worker_addr ≡ ctx.worker_addr
      → (on_attestation prim ctx a q).collected ≡ collect a q.collected
  unfolding on_attestation evaluate
  on_attestation-collected q a task peers worker =
      rw
        (
          (eq_iff a.task_id ctx.task_id).1 task,
          peers,
          (eq_iff a.worker_addr ctx.worker_addr).1 worker,
        )
        (settle_if-collected (held prim ctx a q)
          (verify_all prim ctx (select (is_candidate ctx) (held prim ctx a q).collected)))

  -- An attestation for this node whose signature does not verify takes the place of the one that was
  -- held under its key: where the keys held are distinct, none under its key counts any more.
  pub on_attestation-evicts :
      (q : Quorum) (a x : P2pAttestation)
      → a.task_id ≡ ctx.task_id
      → eqb (length ctx.co_executor_peer_ids) 0 ≡ false
      → a.worker_addr ≡ ctx.worker_addr
      → verify_attestation_locally prim ctx a ≡ some false
      → Distinct (map key_of q.collected)
      → Memᴰ x (on_attestation prim ctx a q).collected
      → x.pubkey_hex ≡ a.pubkey_hex
      → verify_attestation_locally prim ctx x ≢ some true
  on_attestation-evicts q a x task peers worker forged d m same good =
      let there = subst (λ l. Memᴰ x l) (on_attestation-collected q a task peers worker) m in
      let which = collect_unique a q.collected d there same in
      absurd (cc (sym (ap (verify_attestation_locally prim ctx) which) ∙ good, forged))
