-- ===== src/Sovereign/Board/Backed.antt =====
-- src/sovereign/board.ts: who may coordinate a task, and what a lease and a result rest on.
use gstdbot.Common.{
  String, true, ◌≡◌, sym, ◌⊎◌, inl, inr, ◌≤◌, ◌+◌, some, List, any_sound, select, sort, Memᴰ,
  Memᴰ-sort, by_rank, Memᴰ-filter_map, Memᴰ-select, find_sound, Option-cases, Bool-cases, arith,
  eq_iff, ◌==◌, and-true,
}
use gstdbot.Sovereign.Envelope.{
  Envelope, Payload, Manifest, Lease, fetcher, verifier, Result, as_lease, as_result,
}
use gstdbot.Sovereign.Board.Store.{
  Board, manifest, of_type, includes, is_coordinator, failover_ms, backups_of,
}
use gstdbot.Sovereign.Board.Views.{
  leases, results, is_lease_of, epoch_rank, epoch_of, is_result_of, is_fetcher, is_verifier,
  lease_by_id,
}

-- Who may coordinate: the publisher at any time, a backup once the publisher was silent.
abbrev pub MayCoordinate : {P : Type 0} → Envelope Manifest → Envelope P → Type 0
MayCoordinate m e =
    (e.signer ≡ m.signer)
    ⊎ (Memᴰ e.signer (backups_of m.payload) × (m.ts + failover_ms m.payload ≤ e.ts))

pub is_coordinator_sound :
    {P : Type 0} (m : Envelope Manifest) (e : Envelope P)
    → is_coordinator m e ≡ true
    → MayCoordinate m e
unfolding is_coordinator
is_coordinator_sound m e h = elim (Bool-cases (e.signer == m.signer)) [
  | inl k ↦ inl ((eq_iff e.signer m.signer).0 k)
  | inr k ↦
      let named : includes (backups_of m.payload) e.signer ≡ true = ground arith in
      let late : m.ts + failover_ms m.payload ≤ e.ts = ground arith in
      let (s, mem, same) = any_sound (λ x. x == e.signer) (backups_of m.payload) named in
      inr (rw ((eq_iff s e.signer).0 same) at mem, late)
]

pub record IsLeaseOf (b : Board) (m : Envelope Manifest) (task : String) (l : Envelope Lease)
    : Type 0 where
  pub held : (e : Envelope Payload) × Memᴰ e b.objects × (as_lease e ≡ some l)
  pub of_task : l.payload.task_id ≡ task
  pub authorized : MayCoordinate m l

pub leases_sound :
    (b : Board) (task : String) (m : Envelope Manifest) {l : Envelope Lease}
    → manifest b task ≡ some m
    → Memᴰ l (leases b task)
    → IsLeaseOf b m task l
unfolding leases
leases_sound b task m {l} known mem =
    let sorted : Memᴰ l (sort epoch_rank (select (is_lease_of m task) (of_type as_lease b))) =
      rw (known, leases) at mem in
    let (there, passed) = Memᴰ-select (is_lease_of m task) _ (Memᴰ-sort _ _ sorted) in
    let (same, by) = and-true {a = l.payload.task_id == task} passed in
    record {
      held = Memᴰ-filter_map as_lease _ there;
      of_task = (eq_iff _ _).0 same;
      authorized = is_coordinator_sound m l by;
    }

-- A counted result: a leased worker of the task signed it, for the task's entity and adapter.
pub record IsBacked (b : Board) (m : Envelope Manifest) (task : String) (r : Envelope Result)
    : Type 0 where
  pub held : (e : Envelope Payload) × Memᴰ e b.objects × (as_result e ≡ some r)
  pub of_task : r.payload.task_id ≡ task
  pub lease : Envelope Lease
  pub leased : IsLeaseOf b m task lease
  pub to_fetch : lease.payload.role ≡ fetcher
  pub cited : r.payload.lease_id ≡ lease.id
  pub to_signer : lease.payload.worker ≡ r.signer
  pub entity : r.payload.version.entity ≡ m.payload.entity
  pub adapter : r.payload.version.adapter ≡ m.payload.adapter

is_fetcher_sound : (l : Envelope Lease) → is_fetcher l ≡ true → l.payload.role ≡ fetcher
is_fetcher_sound l h = ground arith

pub is_verifier_sound : (l : Envelope Lease) → is_verifier l ≡ true → l.payload.role ≡ verifier
is_verifier_sound l h = ground arith

is_result_of_sound :
    (m : Envelope Manifest) (ls : List (Envelope Lease)) (task : String) (r : Envelope Result)
    → is_result_of m ls task r ≡ true
    → (r.payload.task_id ≡ task)
      × ((l : Envelope Lease) × (lease_by_id ls r.payload.lease_id ≡ some l)
          × (l.payload.worker ≡ r.signer)
          × (r.payload.version.entity ≡ m.payload.entity)
          × (r.payload.version.adapter ≡ m.payload.adapter))
is_result_of_sound m ls task r h = elim (Option-cases (lease_by_id ls r.payload.lease_id)) [
  | inl e ↦ absurd (ground arith)
  | inr (l, e) ↦ (
    ground (arith, eq_iff r.payload.task_id task),
    (
      l,
      e,
      ground (arith, eq_iff l.payload.worker r.signer),
      ground (arith, eq_iff r.payload.version.entity m.payload.entity),
      ground (arith, eq_iff r.payload.version.adapter m.payload.adapter),
    ),
  )
]

-- A result that counts for a task is on the board, cites a data lease of the task that the publisher
-- or an entitled backup signed for the result's signer, and is of the manifest's entity and adapter.
pub results_sound :
    (b : Board) (task : String) (m : Envelope Manifest) {r : Envelope Result}
    → manifest b task ≡ some m
    → Memᴰ r (results b task)
    → IsBacked b m task r
unfolding results
results_sound b task m {r} known mem =
    let ls = select is_fetcher (leases b task) in
    let passes = is_result_of m ls task in
    let sorted : Memᴰ r
        (sort (by_rank (epoch_of ls) (λ r. r.id)) (select passes (of_type as_result b))) =
      rw (known, results) at mem in
    let (there, passed) = Memᴰ-select passes (of_type as_result b) (Memᴰ-sort _ _ sorted) in
    let (same, (l, found, to, entity, adapter)) = is_result_of_sound m ls task r passed in
    let (listed, cited) = find_sound (λ x. x.id == r.payload.lease_id) ls found in
    let (leased, fetching) = Memᴰ-select is_fetcher (leases b task) listed in
    record {
      held = Memᴰ-filter_map as_result b.objects there;
      of_task = same;
      lease = l;
      leased = leases_sound b task m known leased;
      to_fetch = is_fetcher_sound l fetching;
      cited = sym ((eq_iff l.id r.payload.lease_id).0 cited);
      to_signer = to;
      entity = entity;
      adapter = adapter;
    }
