-- ===== src/Sovereign/Node/Duties/Assigns.antt =====
-- src/sovereign/node.ts: whom a coordinator leases the fetch of a task to.
use gstdbot.Common.{
  ℕ, ◌+◌, ◌<◌, String, true, ◌&&◌, Option, none, some, List, [], ◌∷◌, ◌++◌, select, by_rank,
  by_rank-IsStrictOrder, arith, ◌≡◌, ◌≢◌, refl, subst, inl, inr, Bool-cases, Option-cases, Memᴰ,
  Memᴰ-append_left, Memᴰ-append_right, Memᴰ-map_of, Memᴰ-head, and-true, head?, get_last?, IsSorted,
  IsSorted-select, sort-IsSorted, get_last?-IsSorted, append-nil,
}
use gstdbot.Sovereign.Envelope.{Envelope, Manifest, Announce, Lease, fetcher}
use gstdbot.Sovereign.Crypto.{Primitives}
use gstdbot.Sovereign.Board.{Board, manifest, leases, results, is_fetcher, epoch_rank}
use gstdbot.Sovereign.Board.Entities.{announces}
use gstdbot.Sovereign.Node.Duties.Candidates.{
  IsIndependent, IsAnnounced, Memᴰ-candidates, Memᴰ-candidates_of, reserved-IsIndependent,
}
use gstdbot.Sovereign.Node.Duties.{
  is_candidate, candidates, reserved, workers, new_lease, needs_fetch, next_epoch, has_none,
  fetch_lease,
}

get_last?-exists :
    (l : List (Envelope Lease)) {y : Envelope Lease} → Memᴰ y l → get_last? l ≡ none → ⊥
get_last?-exists [] n h = elim n [ ]
get_last?-exists (y ∷ []) n h = cc
get_last?-exists (y ∷ w ∷ l) n h = get_last?-exists (w ∷ l) (Memᴰ.head refl) h

head?-exists : (l : List String) {y : String} → Memᴰ y l → head? l ≡ none → ⊥
head?-exists [] n h = elim n [ ]
head?-exists (y ∷ l) n h = cc

-- The last data lease is of the highest epoch.
next_epoch-IsSorted :
    (ls : List (Envelope Lease)) {x : Envelope Lease}
    → IsSorted epoch_rank ls
    → Memᴰ x ls
    → x.payload.epoch < next_epoch ls
unfolding by_rank
next_epoch-IsSorted ls {x} sorted m = elim (Option-cases (get_last? ls)) [
  | inl e ↦ absurd (get_last?-exists ls m e)
  | inr (z, e) ↦
      rw (next_epoch, e)
        (elim (get_last?-IsSorted epoch_rank ls sorted e m) [
          | inl same ↦ rw same (omega arith)
          | inr after ↦ ground arith
        ])
]

leases-IsSorted : (b : Board) (task : String) → IsSorted epoch_rank (leases b task)
unfolding leases
leases-IsSorted b task = elim (Option-cases (manifest b task)) [
  | inl e ↦ rw (leases, e) tt
  | inr (m, e) ↦
      rw (leases, e)
        (sort-IsSorted epoch_rank
          (by_rank-IsStrictOrder (λ (l : Envelope Lease). l.payload.epoch)
            (λ (l : Envelope Lease). l.id))
          _)
]

-- A data lease that a coordinator may sign for a task.
pub record IsFetchLease (me : String) (b : Board) (now : ℕ) (task : String) (m : Envelope Manifest)
    (l : Lease) : Type 0 where
  pub of_task : l.task_id ≡ task
  pub role : l.role ≡ fetcher
  pub expires : l.expires_at ≡ now + m.payload.lease_ms
  pub announced : IsAnnounced b fetcher l.worker
  pub independent : IsIndependent me m l.worker
  pub unused :
      (x : Envelope Lease)
      → Memᴰ x (select is_fetcher (leases b task))
      → x.payload.worker ≢ l.worker
  pub newest :
      (x : Envelope Lease) → Memᴰ x (select is_fetcher (leases b task)) → x.payload.epoch < l.epoch
  pub none_yet : results b task ≡ []
  pub allowed : needs_fetch m.payload now (select is_fetcher (leases b task)) ≡ true

pub has_none_sound {ℓ} : {A : Type ℓ} (l : List A) → has_none l ≡ true → l ≡ []
has_none_sound [] h = refl
has_none_sound (x ∷ l) h = absurd (cc)

module _ (prim : Primitives) (hostname : String → Option String) where
  -- The data lease that a coordinator signs is for a worker that announced the role and the adapter,
  -- who is neither the publisher nor a backup nor the coordinator, and had no data lease of the task;
  -- its epoch is above that of every data lease before, it expires after the manifest's lease time,
  -- and it is signed only where no result counts and the last data lease is over and was not the last
  -- allowed attempt.
  pub fetch_lease-IsFetchLease :
      (me : String) (b : Board) (now : ℕ) (task : String) (m : Envelope Manifest) (l : Lease)
      → fetch_lease prim hostname me b now task m ≡ some l
      → IsFetchLease me b now task m l
  unfolding fetch_lease
  fetch_lease-IsFetchLease me b now task m l h =
      let data_leases = select is_fetcher (leases b task) in
      let used = workers data_leases ++ reserved me m in
      elim (Bool-cases (has_none (results b task) && needs_fetch m.payload now data_leases)) [
        | inr c ↦ absurd (ground (arith, h, c))
        | inl c ↦
            elim (Option-cases (head? (candidates prim hostname b now fetcher used task []))) [
              | inl e ↦ absurd (ground (arith, h, c, e))
              | inr (w, e) ↦
                  let made : new_lease task fetcher (next_epoch data_leases)
                        (now + m.payload.lease_ms) w
                      ≡ l =
                    ground (arith, h, c, e) in
                  let (empty, due) = and-true {a = has_none (results b task)} c in
                  let (known, new) =
                    Memᴰ-candidates prim hostname b now fetcher used task [] (Memᴰ-head _ e) in
                  subst (IsFetchLease me b now task m) made (record {
                    of_task = refl;
                    role = refl;
                    expires = refl;
                    announced = known;
                    independent = reserved-IsIndependent me m [] (λ k. new (
                        Memᴰ-append_right (workers data_leases)
                          (subst (Memᴰ w) (append-nil (reserved me m)) k)));
                    unused = λ x n same. new (
                        Memᴰ-append_left (reserved me m) (
                          subst (λ y. Memᴰ y (workers data_leases)) same
                            (Memᴰ-map_of (λ (y : Envelope Lease). y.payload.worker) n)));
                    newest = λ x n.
                        next_epoch-IsSorted data_leases
                          (IsSorted-select epoch_rank is_fetcher (leases b task)
                            (leases-IsSorted b task))
                          n;
                    none_yet = has_none_sound (results b task) empty;
                    allowed = due;
                  })
            ]
      ]

  -- Where a fetch is needed, no result counts, and some node on the board announced the role and the
  -- adapter and is not reserved or used, a coordinator signs a data lease.
  pub fetch_lease-some :
      (me : String) (b : Board) (now : ℕ) (task : String) (m : Envelope Manifest)
      (a : Envelope Announce)
      → Memᴰ a (announces b)
      → is_candidate fetcher (workers (select is_fetcher (leases b task)) ++ reserved me m) a ≡ true
      → results b task ≡ []
      → needs_fetch m.payload now (select is_fetcher (leases b task)) ≡ true
      → (l : Lease) × (fetch_lease prim hostname me b now task m ≡ some l)
  unfolding fetch_lease
  fetch_lease-some me b now task m a known fits empty due =
      let data_leases = select is_fetcher (leases b task) in
      let used = workers data_leases ++ reserved me m in
      elim (Option-cases (head? (candidates prim hostname b now fetcher used task []))) [
        | inl e ↦ absurd (
            head?-exists (candidates prim hostname b now fetcher used task [])
              (Memᴰ-candidates_of prim hostname b now fetcher used task [] known fits) e)
        | inr (w, e) ↦ (
          new_lease task fetcher (next_epoch data_leases) (now + m.payload.lease_ms) w,
          rw (fetch_lease, empty, due, e) refl,
        )
      ]
