-- ===== src/Sovereign/Board/Accepted.antt =====
-- src/sovereign/board.ts: what an accepted task rests on.
use mathlib.Core.List.Permᴰ
use gstdbot.Common.{
  ℕ, String, true, ◌≡◌, ◌≢◌, refl, sym, ap, subst, ◌∙◌, inl, inr, ◌≤◌, ◌<◌, some, List, [], ◌∷◌,
  length, any, any_sound, find-none, select, str_lt, Memᴰ, Memᴰ-sort, sort-perm_self, Memᴰ-select,
  Memᴰ-map, find_map, find_map_sound, find_sound, Distinct, Distinct-perm, Distinct-map-select,
  length-perm, Option-cases, Bool-cases, arith, eq_iff, eq_refl, ◌==◌,
}
use gstdbot.Sovereign.Envelope.{
  Envelope, Payload, Manifest, Result, Attest, Verdict, Finalize, as_result,
}
use gstdbot.Sovereign.Board.Store.{Board, get, manifest}
use gstdbot.Sovereign.Board.Views.{results, attests, finalizes}
use gstdbot.Sovereign.Board.Verdict.{
  evaluate, tally, accepts, accepted_as, content_hash_of, decided, pending, accepted_pin, pinned,
  Tally, accepted_result, rejected_result, Evaluation, TaskStatus, votes_match, is_accepting,
}
use gstdbot.Sovereign.Board.Backed.{IsBacked, results_sound}
use gstdbot.Sovereign.Board.Votes.{IsVote, attests_sound, attests-Distinct, votes_match_sound}
use gstdbot.Sovereign.Board.Order.{IdsAgree}

-- Where an id names one envelope, a held envelope is the one that its id finds.
pub get-held :
    (b : Board)
    → IdsAgree b.objects
    → (e : Envelope Payload) → Memᴰ e b.objects
    → get b e.id ≡ some e
unfolding get
get-held b agree e mem = elim (Option-cases (get b e.id)) [
  | inl missing ↦ absurd (cc (find-none (λ x. x.id == e.id) missing mem, eq_refl e.id))
  | inr (x, found) ↦
      let (there, same) = find_sound (λ x. x.id == e.id) b.objects found in
      found ∙ ap some (agree x e there mem ((eq_iff x.id e.id).0 same))
]

-- How `evaluate` comes to an accepted verdict: some result of the task is accepted by its tally.
abbrev pub AcceptsSome : Board → String → ℕ → Evaluation → Type 0
AcceptsSome b task need ev =
    (r : Envelope Result) × Memᴰ r (results b task)
    × (is_accepting need (tally b task r.id) ≡ true)
    × (ev ≡ accepted_as b r.id (tally b task r.id))

accepts_sound :
    (b : Board) (task : String) (need : ℕ) (id : String) {t : Tally}
    → accepts b task need id ≡ some t
    → (is_accepting need (tally b task id) ≡ true) × (t ≡ tally b task id)
unfolding accepts
accepts_sound b task need id h = elim (Bool-cases (is_accepting need (tally b task id))) [
  | inl e ↦ (e, ground arith)
  | inr e ↦ absurd (ground arith)
]

pin_sound :
    (b : Board) (task : String) (need : ℕ) (f : Envelope Finalize) {ev : Evaluation}
    → accepted_pin b task need (results b task) f ≡ some ev
    → AcceptsSome b task need ev
pin_sound b task need f {ev} h = elim (Option-cases (pinned (results b task) f)) [
  | inl e ↦ absurd (ground arith)
  | inr (id, e) ↦ elim (Option-cases (accepts b task need id)) [
    | inl g ↦ absurd (ground arith)
    | inr (t, g) ↦
        let (ok, same) = accepts_sound b task need id g in
        let listed : any (λ r. r.id == id) (results b task) ≡ true = ground arith in
        let made : accepted_as b id t ≡ ev = ground arith in
        let (r, there, named) = any_sound (λ r. r.id == id) (results b task) listed in
        let id_of : r.id ≡ id = (eq_iff r.id id).0 named in
        (r, there, rw id_of ok, rw (id_of, ← same) (sym made))
  ]
]

result_sound :
    (b : Board) (task : String) (need : ℕ) {r : Envelope Result} {ev : Evaluation}
    → Memᴰ r (results b task)
    → accepted_result b task need r ≡ some ev
    → AcceptsSome b task need ev
result_sound b task need {r} {ev} there h = elim (Option-cases (accepts b task need r.id)) [
  | inl g ↦ absurd (ground arith)
  | inr (t, g) ↦
      let (ok, same) = accepts_sound b task need r.id g in
      let made : accepted_as b r.id t ≡ ev = ground arith in (r, there, ok, rw (← same) (sym made))
]

rejected_sound :
    (b : Board) (task : String) (need : ℕ) (r : Envelope Result) {ev : Evaluation}
    → rejected_result b task need r ≡ some ev
    → ev.status ≢ TaskStatus.accepted
rejected_sound b task need r h k = ground arith

pending-ne-accepted :
    (b : Board) (task : String) (m : Manifest) (rs : List (Envelope Result)) (now : ℕ)
    → (pending b task m rs now).status ≢ TaskStatus.accepted
unfolding pending
pending-ne-accepted b task m [] now h = ground arith
pending-ne-accepted b task m (r ∷ rs) now h = ground arith

decided_sound :
    (b : Board) (task : String) (need : ℕ) {ev : Evaluation}
    → decided b task need (results b task) ≡ some ev
    → ev.status ≡ TaskStatus.accepted
    → AcceptsSome b task need ev
unfolding decided
decided_sound b task need {ev} h k =
    elim (Option-cases (find_map (accepted_pin b task need (results b task)) (finalizes b task))) [
      | inr (x, e) ↦
          let (f, _, g) =
            find_map_sound (accepted_pin b task need (results b task)) (finalizes b task) e in
          let same : x ≡ ev = ground arith in rw same at (pin_sound b task need f g)
      | inl e ↦ elim (Option-cases (find_map (accepted_result b task need) (results b task))) [
        | inr (x, e') ↦
            let (r, there, g) = find_map_sound (accepted_result b task need) (results b task) e' in
            let same : x ≡ ev = ground arith in rw same at (result_sound b task need there g)
        | inl e' ↦
            let (r, _, g) =
              find_map_sound (rejected_result b task need) (results b task) {y = ev}
                (ground arith) in
            absurd (rejected_sound b task need r g k)
      ]
    ]

pub evaluate_sound :
    (b : Board) (task : String) (now : ℕ)
    → (evaluate b task now).status ≡ TaskStatus.accepted
    → (m : Envelope Manifest) × (manifest b task ≡ some m)
      × AcceptsSome b task m.payload.min_verifiers (evaluate b task now)
unfolding evaluate
evaluate_sound b task now h = elim (Option-cases (manifest b task)) [
  | inl e ↦ absurd (ground arith)
  | inr (m, e) ↦ elim (Option-cases (decided b task m.payload.min_verifiers (results b task))) [
    | inl g ↦ absurd (pending-ne-accepted b task m.payload (results b task) now (ground arith))
    | inr (ev, g) ↦
        let same : evaluate b task now ≡ ev = ground arith in
        (m, e, rw same (decided_sound b task m.payload.min_verifiers g (ground arith)))
  ]
]

-- The verifier `v`, who is not `worker`, saw the content hash that the result claims.
abbrev pub VotedBy : Board → Envelope Manifest → String → Envelope Result → String → String → Type 0
VotedBy b m task r worker v =
    (a : Envelope Attest) × (a.signer ≡ v)
    × IsVote b m task r.id worker a
    × (a.payload.verdict ≡ Verdict.match)
    × (a.payload.observed_hash ≡ some r.payload.version.content_hash)

-- What stands behind an accepted verdict on a task.
pub record IsProven (b : Board) (task : String) (ev : Evaluation) : Type 0 where
  pub manifest_env : Envelope Manifest
  pub known : manifest b task ≡ some manifest_env
  pub result_env : Envelope Result
  pub backed : IsBacked b manifest_env task result_env
  pub result : ev.result_id ≡ some result_env.id
  pub worker : ev.worker ≡ some result_env.signer
  pub quorum : manifest_env.payload.min_verifiers ≤ length ev.match_verifiers
  pub majority : length ev.mismatch_verifiers < length ev.match_verifiers
  pub one_vote_each : Distinct ev.match_verifiers
  pub votes :
      (v : String)
      → Memᴰ v ev.match_verifiers
      → VotedBy b manifest_env task result_env result_env.signer v

pub result_found :
    (b : Board) (m : Envelope Manifest) (task : String) (r : Envelope Result)
    → IdsAgree b.objects
    → IsBacked b m task r
    → (e : Envelope Payload) × (get b r.id ≡ some e)
      × (e.signer ≡ r.signer)
      × (content_hash_of b r.id ≡ some r.payload.version.content_hash)
unfolding content_hash_of as_result
result_found b m task r agree backed =
    let (e, mem, cast) = backed.held in
    let named : e.id ≡ r.id = ground arith in
    let found : get b r.id ≡ some e =
      subst (λ i. get b i ≡ some e) named (get-held b agree e mem) in
    (e, found, ground arith, ground arith)

tally_match_sound :
    (b : Board) (task : String) (m : Envelope Manifest) (r : Envelope Result) (e : Envelope Payload)
    {v : String}
    → manifest b task ≡ some m
    → get b r.id ≡ some e
    → content_hash_of b r.id ≡ some r.payload.version.content_hash
    → Memᴰ v (tally b task r.id).match
    → VotedBy b m task r e.signer v
unfolding tally
tally_match_sound b task m r e {v} known found hash mem =
    let passes = votes_match (content_hash_of b r.id) in
    let (a, picked, same) =
      Memᴰ-map (λ (a : Envelope Attest). a.signer) (select passes (attests b task r.id)) mem in
    let (there, passed) = Memᴰ-select passes (attests b task r.id) picked in
    let (s, claimed, seen, verdict) = votes_match_sound (content_hash_of b r.id) a passed in
    (
      a,
      sym same,
      attests_sound b task r.id m e known found there,
      verdict,
      seen ∙ sym claimed ∙ hash,
    )

tally_match-Distinct : (b : Board) (task id : String) → Distinct (tally b task id).match
unfolding tally
tally_match-Distinct b task id =
    Distinct-map-select (λ a. a.signer) (votes_match (content_hash_of b id)) (attests b task id)
      (attests-Distinct b task id)

accepted_as-IsProven :
    (b : Board) (task : String) (m : Envelope Manifest) (r : Envelope Result)
    → IdsAgree b.objects
    → manifest b task ≡ some m
    → Memᴰ r (results b task)
    → is_accepting m.payload.min_verifiers (tally b task r.id) ≡ true
    → IsProven b task (accepted_as b r.id (tally b task r.id))
unfolding accepted_as
accepted_as-IsProven b task m r agree known there ok =
    let backed = results_sound b task m known there in
    let (e, found, signed, hash) = result_found b m task r agree backed in
    let t = tally b task r.id in
    let sorted = length-perm (sort-perm_self str_lt t.match) in
    let sorted' = length-perm (sort-perm_self str_lt t.mismatch) in
    record {
      manifest_env = m;
      known = known;
      result_env = r;
      backed = backed;
      result = refl;
      worker = ground arith;
      quorum = ground arith;
      majority = ground arith;
      one_vote_each =
          Distinct-perm (Permᴰ.symm (sort-perm_self str_lt t.match))
            (tally_match-Distinct b task r.id);
      votes = λ v mem.
          subst (λ w. VotedBy b m task r w v) signed
            (tally_match_sound b task m r e known found hash (Memᴰ-sort str_lt t.match mem));
    }

-- An accepted task has a result by the leased worker of the task, and at least `minVerifiers`
-- different verifiers, none of them the worker, each with a lease of the task that the publisher or
-- an entitled backup signed, who saw the content hash of that result; they outnumber the mismatches.
pub evaluate-IsProven :
    (b : Board) (task : String) (now : ℕ)
    → IdsAgree b.objects
    → (evaluate b task now).status ≡ TaskStatus.accepted
    → IsProven b task (evaluate b task now)
evaluate-IsProven b task now agree h =
    let (m, known, (r, there, ok, made)) = evaluate_sound b task now h in
    subst (IsProven b task) (sym made) (accepted_as-IsProven b task m r agree known there ok)
