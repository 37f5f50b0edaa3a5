-- ===== src/Sovereign/Board/Votes.antt =====
-- src/sovereign/board.ts: what a counted vote rests on.

use gstdbot.Common.{
  IsSorted, String, true, false, ◌≡◌, ◌≢◌, refl, ap, ◌∙◌, ◌⊎◌, inl, inr, Option, some, List, [],
  ◌∷◌, any, any_sound, select, sort, Memᴰ, Memᴰ-cons, Memᴰ-sort, Memᴰ-filter_map, Memᴰ-select,
  Memᴰ-map, Distinct, Option-cases, Bool-cases, arith, eq_iff, ◌==◌, and-true,
}
use gstdbot.Sovereign.Envelope.{
  Envelope, Payload, Manifest, Lease, verifier, Attest, Verdict, as_attest,
}
use gstdbot.Sovereign.Board.Store.{Board, get, manifest, of_type, includes}
use gstdbot.Sovereign.Board.Views.{leases, attests, is_attest_of, id_lt, collect, is_verifier}
use gstdbot.Sovereign.Board.Verdict.{votes_match, signers}
use gstdbot.Sovereign.Board.Backed.{IsLeaseOf, leases_sound, is_verifier_sound}

-- A vote that `collect` keeps: a candidate, not the worker's, and of a leased verifier.
abbrev IsKept :
    String → List (Envelope Lease) → List String → List (Envelope Attest) → Envelope Attest → Type 0
IsKept worker ls seen cands a =
    Memᴰ a cands
    × (a.signer ≢ worker)
    × (any (λ l. l.payload.worker == a.signer) ls ≡ true)
    × (includes seen a.signer ≡ false)

pub collect_cases :
    (worker : String) (ls : List (Envelope Lease)) (seen : List String) (a : Envelope Attest)
    (rest : List (Envelope Attest))
    → (collect worker ls seen (a ∷ rest) ≡ collect worker ls seen rest)
      ⊎ ((collect worker ls seen (a ∷ rest) ≡ a ∷ collect worker ls (a.signer ∷ seen) rest)
          × (a.signer ≢ worker)
          × (any (λ l. l.payload.worker == a.signer) ls ≡ true)
          × (includes seen a.signer ≡ false))
unfolding collect
collect_cases worker ls seen a rest = elim (Bool-cases (a.signer == worker)) [
  | inl e ↦ inl (rw e)
  | inr e ↦ elim (Bool-cases (any (λ l. l.payload.worker == a.signer) ls)) [
    | inr f ↦ inl (ground arith)
    | inl f ↦ elim (Bool-cases (includes seen a.signer)) [
      | inl g ↦ inl (ground arith)
      | inr g ↦ inr (ground arith, ground (arith, eq_iff a.signer worker), f, g)
    ]
  ]
]

includes-cons :
    (s t : String) (seen : List String)
    → includes (s ∷ seen) t ≡ false
    → (s ≢ t) × (includes seen t ≡ false)
includes-cons s t seen h = ground (arith, eq_iff s t)

collect_sound :
    (worker : String) (ls : List (Envelope Lease)) (seen : List String)
    (cands : List (Envelope Attest)) {a : Envelope Attest}
    → Memᴰ a (collect worker ls seen cands)
    → IsKept worker ls seen cands a
unfolding collect
collect_sound worker ls seen [] m = elim m [ ]
collect_sound worker ls seen (c ∷ rest) {a} m = elim (collect_cases worker ls seen c rest) [
  | inl e ↦
      let (n, p, q, t) = collect_sound worker ls seen rest {a = a} (rw e at m) in
      (Memᴰ.tail n, p, q, t)
  | inr (e, p, q, t) ↦ elim (Memᴰ-cons (rw e at m)) [
    | inl same ↦ rw same (Memᴰ.head refl, p, q, t)
    | inr k ↦
        let (n, p', q', t') = collect_sound worker ls (c.signer ∷ seen) rest {a = a} k in
        (Memᴰ.tail n, p', q', (includes-cons c.signer a.signer seen t').1)
  ]
]

-- One vote for each verifier.
collect-Distinct :
    (worker : String) (ls : List (Envelope Lease)) (seen : List String)
    (cands : List (Envelope Attest))
    → Distinct (signers (collect worker ls seen cands))
unfolding collect
collect-Distinct worker ls seen [] = tt
collect-Distinct worker ls seen (c ∷ rest) = elim (collect_cases worker ls seen c rest) [
  | inl e ↦ rw e (collect-Distinct worker ls seen rest)
  | inr (e, p, q, t) ↦ rw e (
    λ m.
        let (a, n, same) = Memᴰ-map (λ (a : Envelope Attest). a.signer) _ m in
        let (_, _, _, t') = collect_sound worker ls (c.signer ∷ seen) rest {a = a} n in
        (includes-cons c.signer a.signer seen t').0 same,
    collect-Distinct worker ls (c.signer ∷ seen) rest,
  )
]

collect_keeps :
    (worker : String) (ls : List (Envelope Lease)) (seen : List String) (a : Envelope Attest)
    (rest : List (Envelope Attest))
    → a.signer ≢ worker
    → any (λ l. l.payload.worker == a.signer) ls ≡ true
    → includes seen a.signer ≡ false
    → collect worker ls seen (a ∷ rest) ≡ a ∷ collect worker ls (a.signer ∷ seen) rest
unfolding collect
collect_keeps worker ls seen a rest other leased new =
    let differs : (a.signer == worker) ≡ false = ground (arith, eq_iff a.signer worker) in
    rw (differs, leased, new) refl

pub collect_subset :
    (worker : String) (ls : List (Envelope Lease)) (seen : List String)
    (cands : List (Envelope Attest)) {a : Envelope Attest}
    → Memᴰ a (collect worker ls seen cands)
    → Memᴰ a cands
collect_subset worker ls seen cands {a} m = (collect_sound worker ls seen cands {a = a} m).0

-- Votes that were collected are collected again.
pub collect_again :
    (worker : String) (ls : List (Envelope Lease)) (seen : List String)
    (cands : List (Envelope Attest))
    → collect worker ls seen (collect worker ls seen cands) ≡ collect worker ls seen cands
unfolding collect
collect_again worker ls seen [] = refl
collect_again worker ls seen (c ∷ rest) = elim (collect_cases worker ls seen c rest) [
  | inl e ↦ rw e (collect_again worker ls seen rest)
  | inr (e, p, q, t) ↦ rw e (
      collect_keeps worker ls seen c (collect worker ls (c.signer ∷ seen) rest) p q t
      ∙ ap (λ l. c ∷ l) (collect_again worker ls (c.signer ∷ seen) rest))
]

pub collect-IsSorted :
    (worker : String) (ls : List (Envelope Lease)) (seen : List String)
    (cands : List (Envelope Attest))
    → IsSorted id_lt cands
    → IsSorted id_lt (collect worker ls seen cands)
unfolding collect
collect-IsSorted worker ls seen [] s = tt
collect-IsSorted worker ls seen (c ∷ rest) (none_before, s) =
    elim (collect_cases worker ls seen c rest) [
      | inl e ↦ rw e (collect-IsSorted worker ls seen rest s)
      | inr (e, p, q, t) ↦ rw e (
        λ a m. none_before a (collect_sound worker ls (c.signer ∷ seen) rest {a = a} m).0,
        collect-IsSorted worker ls (c.signer ∷ seen) rest s,
      )
    ]

-- A vote that counts: a verifier with a lease of the task's own, other than the worker, signed it.
pub record IsVote (b : Board) (m : Envelope Manifest) (task result_id worker : String)
    (a : Envelope Attest) : Type 0 where
  pub held : (e : Envelope Payload) × Memᴰ e b.objects × (as_attest e ≡ some a)
  pub of_task : a.payload.task_id ≡ task
  pub of_result : a.payload.result_id ≡ result_id
  pub independent : a.signer ≢ worker
  pub lease : Envelope Lease
  pub leased : IsLeaseOf b m task lease
  pub to_verify : lease.payload.role ≡ verifier
  pub to_signer : lease.payload.worker ≡ a.signer

-- A vote that counts on a result is for that task and result, its signer is not the result's signer,
-- and has a verification lease of the task that the publisher or an entitled backup signed.
pub attests_sound :
    (b : Board) (task result_id : String) (m : Envelope Manifest) (r : Envelope Payload)
    {a : Envelope Attest}
    → manifest b task ≡ some m
    → get b result_id ≡ some r
    → Memᴰ a (attests b task result_id)
    → IsVote b m task result_id r.signer a
unfolding attests
attests_sound b task result_id m r {a} known found mem =
    let ls = select is_verifier (leases b task) in
    let all_votes = select (is_attest_of task result_id) (of_type as_attest b) in
    let kept : Memᴰ a (collect r.signer ls [] (sort id_lt all_votes)) =
      rw (found, attests) at mem in
    let (there, other, by, _) = collect_sound r.signer ls [] (sort id_lt all_votes) {a = a} kept in
    let (cast, passed) =
      Memᴰ-select (is_attest_of task result_id) (of_type as_attest b)
        (Memᴰ-sort id_lt all_votes there) in
    let (l, listed, same) =
      any_sound (λ (l : Envelope Lease). l.payload.worker == a.signer) ls by in
    let (leased, verifying) = Memᴰ-select is_verifier (leases b task) listed in
    let (of_task, of_result) = and-true {a = a.payload.task_id == task} passed in
    record {
      held = Memᴰ-filter_map as_attest b.objects cast;
      of_task = (eq_iff a.payload.task_id task).0 of_task;
      of_result = (eq_iff a.payload.result_id result_id).0 of_result;
      independent = other;
      lease = l;
      leased = leases_sound b task m known leased;
      to_verify = is_verifier_sound l verifying;
      to_signer = (eq_iff l.payload.worker a.signer).0 same;
    }

pub attests-Distinct :
    (b : Board) (task result_id : String) → Distinct (signers (attests b task result_id))
unfolding attests
attests-Distinct b task result_id = elim (Option-cases (get b result_id)) [
  | inl e ↦ rw (e, attests) tt
  | inr (r, e) ↦ rw (e, attests) (collect-Distinct r.signer _ [] _)
]

-- A matching vote saw the content hash that the result claims.
pub votes_match_sound :
    (h : Option String) (a : Envelope Attest)
    → votes_match h a ≡ true
    → (s : String) × (h ≡ some s)
      × (a.payload.observed_hash ≡ some s)
      × (a.payload.verdict ≡ Verdict.match)
votes_match_sound h a e = elim (Option-cases a.payload.observed_hash) [
  | inl none_seen ↦ absurd (ground arith)
  | inr (s, seen) ↦ elim (Option-cases h) [
    | inl none_claimed ↦ absurd (ground arith)
    | inr (t, claimed) ↦
        let same : s ≡ t = ground (arith, eq_iff s t) in
        (t, claimed, seen ∙ ap some same, ground arith)
  ]
]
