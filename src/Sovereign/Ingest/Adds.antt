-- ===== src/Sovereign/Ingest/Adds.antt =====
-- src/sovereign/board.ts: what an added envelope leaves as it was, and what it makes count.
use gstdbot.Common.{
  String, ◌==◌, eq_iff, eq_refl, Bool, true, false, some, List, [], ◌∷◌, ◌++◌, find, any,
  any_complete, select, sort, and-true, arith, ◌≡◌, ◌≢◌, refl, sym, ◌∙◌, ap, inl, inr, Option-cases,
  Bool-cases, Memᴰ, Memᴰ-singleton, Memᴰ-append, Memᴰ-append_left, Memᴰ-append_right,
  Memᴰ-filter_map, Memᴰ-filter_map_of, Memᴰ-select, Memᴰ-select_of, Memᴰ-sort, Memᴰ-sort_of,
  eq_of_some,
}
use gstdbot.Sovereign.Envelope.{Envelope, Payload, Manifest, Lease, Attest, as_lease, as_attest}
use gstdbot.Sovereign.Board.{
  Board, get, manifest, of_type, leases, attests, is_lease_of, is_attest_of, epoch_rank, id_lt,
  is_verifier,
}
use gstdbot.Sovereign.Board.Voted.{collect_complete}
use gstdbot.Sovereign.Ingest.{add}

find-append_left {ℓ} :
    {A : Type ℓ} (p : A → Bool) (l k : List A) {x : A}
    → find p l ≡ some x
    → find p (l ++ k) ≡ some x
find-append_left p [] k h = cc
find-append_left p (y ∷ l) k {x} h = elim (Bool-cases (p y)) [
  | inl e ↦ rw (find, e) (rw (find, e) at h)
  | inr e ↦ rw (find, e) (find-append_left p l k (rw (find, e) at h))
]

pub get-add :
    (b : Board) (x : Envelope Payload) (id : String) {y : Envelope Payload}
    → get b id ≡ some y
    → get (add b x) id ≡ some y
unfolding get
get-add b x id h = find-append_left (λ z. z.id == id) b.objects (x ∷ []) h

pub manifest-add :
    (b : Board) (x : Envelope Payload) (task : String) {m : Envelope Manifest}
    → manifest b task ≡ some m
    → manifest (add b x) task ≡ some m
unfolding manifest
manifest-add b x task {m} h = elim (Option-cases (get b task)) [
  | inl e ↦ absurd (ground arith)
  | inr (y, e) ↦ rw (manifest, get-add b x task e) (rw (manifest, e) at h)
]

pub leases-add :
    (b : Board) (x : Envelope Payload) (task : String) (m : Envelope Manifest) (l : Envelope Lease)
    → manifest b task ≡ some m
    → as_lease x ≡ some l
    → is_lease_of m task l ≡ true
    → Memᴰ l (leases (add b x) task)
unfolding leases
leases-add b x task m l known cast fits =
    rw (leases, manifest-add b x task known)
      (Memᴰ-sort_of epoch_rank _ (
        Memᴰ-select_of (is_lease_of m task)
          (Memᴰ-filter_map_of as_lease (Memᴰ-append_right b.objects (Memᴰ.head refl)) cast) fits))

pub leases-kept :
    (b : Board) (x : Envelope Payload) (task : String) (m : Envelope Manifest) (l : Envelope Lease)
    → manifest b task ≡ some m
    → Memᴰ l (leases b task)
    → Memᴰ l (leases (add b x) task)
unfolding leases
leases-kept b x task m l known mem =
    let there : Memᴰ l (sort epoch_rank (select (is_lease_of m task) (of_type as_lease b))) =
      rw (leases, known) at mem in
    let (listed, fits) = Memᴰ-select (is_lease_of m task) _ (Memᴰ-sort epoch_rank _ there) in
    let (e, held, cast) = Memᴰ-filter_map as_lease b.objects listed in
    rw (leases, manifest-add b x task known)
      (Memᴰ-sort_of epoch_rank _ (
        Memᴰ-select_of (is_lease_of m task)
          (Memᴰ-filter_map_of as_lease (Memᴰ-append_left (x ∷ []) held) cast) fits))

-- No vote of the signer's on the result is on the board.
abbrev pub IsUnvoted : Board → Envelope Attest → Type 0
IsUnvoted b a =
    (e : Envelope Payload) (c : Envelope Attest)
    → Memᴰ e b.objects
    → as_attest e ≡ some c
    → c.payload.result_id ≡ a.payload.result_id
    → c.signer ≢ a.signer

only_vote :
    (b : Board) (x : Envelope Payload) (task : String) (a c : Envelope Attest)
    → as_attest x ≡ some a
    → IsUnvoted b a
    → Memᴰ c
        (sort id_lt (select (is_attest_of task a.payload.result_id) (of_type as_attest (add b x))))
    → c.signer ≡ a.signer
    → c ≡ a
only_vote b x task a c cast unvoted n same =
    let of_it = is_attest_of task a.payload.result_id in
    let (listed, fits) = Memᴰ-select of_it _ (Memᴰ-sort id_lt _ n) in
    let (e, held, made) = Memᴰ-filter_map as_attest (b.objects ++ x ∷ []) listed in
    let (_, for_it) = and-true {a = c.payload.task_id == task} fits in
    elim (Memᴰ-append b.objects held) [
      | inl k ↦
          absurd
            (unvoted e c k made ((eq_iff c.payload.result_id a.payload.result_id).0 for_it) same)
      | inr k ↦ eq_of_some (sym made ∙ ap as_attest (Memᴰ-singleton k) ∙ cast)
    ]

-- The added vote counts, if no other of its signer's on the result is on the board.
pub attests-add :
    (b : Board) (x : Envelope Payload) (task : String) (m : Envelope Manifest)
    (r : Envelope Payload) (a : Envelope Attest) (l : Envelope Lease)
    → manifest b task ≡ some m
    → get b a.payload.result_id ≡ some r
    → as_attest x ≡ some a
    → a.payload.task_id ≡ task
    → (a.signer == r.signer) ≡ false
    → Memᴰ l (leases b task)
    → is_verifier l ≡ true
    → (l.payload.worker == a.signer) ≡ true
    → IsUnvoted b a
    → Memᴰ a (attests (add b x) task a.payload.result_id)
unfolding attests
attests-add b x task m r a l known found cast of_task other leased verifies mine unvoted =
    let id = a.payload.result_id in
    let of_it = is_attest_of task id in
    let cands = sort id_lt (select of_it (of_type as_attest (add b x))) in
    let here : Memᴰ a cands = Memᴰ-sort_of id_lt _ (
      Memᴰ-select_of of_it
        (Memᴰ-filter_map_of as_attest (Memᴰ-append_right b.objects (Memᴰ.head refl)) cast)
        (rw (of_task, eq_refl task, eq_refl id) refl)) in
    let only = λ (c : Envelope Attest) (n : Memᴰ c cands) (same : c.signer ≡ a.signer).
      only_vote b x task a c cast unvoted n same in
    let may : any (λ (k : Envelope Lease). k.payload.worker == a.signer)
          (select is_verifier (leases (add b x) task))
        ≡ true =
      any_complete (λ (k : Envelope Lease). k.payload.worker == a.signer)
        (Memᴰ-select_of is_verifier (leases-kept b x task m l known leased) verifies) mine in
    rw (attests, get-add b x id found)
      (collect_complete r.signer _ [] cands a here only other may refl)
