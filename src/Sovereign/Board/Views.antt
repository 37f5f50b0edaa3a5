-- ===== src/Sovereign/Board/Views.antt =====
-- src/sovereign/board.ts: leases, results, attestations and finalizations of a task.
use gstdbot.Common.{
  ℕ, String, ◌==◌, Bool, true, false, ◌&&◌, not, if◌then◌else◌, Option, none, some, List, [], ◌∷◌,
  any, select, find, sort, by_rank, str_lt,
}
use gstdbot.Sovereign.Envelope.{
  Envelope, Manifest, Lease, fetcher, verifier, Result, Attest, Finalize, as_lease, as_result,
  as_attest, as_finalize,
}
use gstdbot.Sovereign.Board.Store.{Board, get, manifest, of_type, includes, is_coordinator}

abbrev pub is_fetcher : Envelope Lease → Bool
is_fetcher l = elim l.payload.role [ fetcher ↦ true | verifier ↦ false ]

abbrev pub is_verifier : Envelope Lease → Bool
is_verifier l = elim l.payload.role [ fetcher ↦ false | verifier ↦ true ]

abbrev pub is_lease_of : Envelope Manifest → String → Envelope Lease → Bool
is_lease_of m task l = l.payload.task_id == task && is_coordinator m l

abbrev pub epoch_rank : Envelope Lease → Envelope Lease → Bool
epoch_rank = by_rank (λ l. l.payload.epoch) (λ l. l.id)

unfoldable pub leases : Board → String → List (Envelope Lease)
leases b task = elim (manifest b task) [
  | none ↦ []
  | some m ↦ sort epoch_rank (select (is_lease_of m task) (of_type as_lease b))
]

abbrev pub lease_by_id : List (Envelope Lease) → String → Option (Envelope Lease)
lease_by_id ls id = find (λ l. l.id == id) ls

-- The lease is a data lease of the task's, its worker signed the result, and the result is of the
-- task's entity and adapter.
abbrev pub is_result_of :
    Envelope Manifest → List (Envelope Lease) → String → Envelope Result → Bool
is_result_of m data_leases task r =
    r.payload.task_id == task && elim (lease_by_id data_leases r.payload.lease_id) [
      | none ↦ false
      | some l ↦
          l.payload.worker == r.signer
          && r.payload.version.entity == m.payload.entity
          && r.payload.version.adapter == m.payload.adapter
    ]

abbrev max_safe_integer : ℕ
max_safe_integer = 9007199254740991

unfoldable pub epoch_of : List (Envelope Lease) → Envelope Result → ℕ
epoch_of data_leases r = elim (lease_by_id data_leases r.payload.lease_id) [
  | none ↦ max_safe_integer
  | some l ↦ l.payload.epoch
]

unfoldable pub results : Board → String → List (Envelope Result)
results b task = elim (manifest b task) [
  | none ↦ []
  | some m ↦
      let data_leases = select is_fetcher (leases b task) in
      sort (by_rank (epoch_of data_leases) (λ r. r.id))
        (select (is_result_of m data_leases task) (of_type as_result b))
]

-- The loop of `attests`: not the worker, a leased verifier, and one vote for each.
unfoldable pub collect :
    String → List (Envelope Lease) → List String → List (Envelope Attest) → List (Envelope Attest)
collect worker verify_leases seen [] = []
collect worker verify_leases seen (a ∷ rest) =
    let next = collect worker verify_leases seen rest in
    let voted = a ∷ collect worker verify_leases (a.signer ∷ seen) rest in
    if a.signer == worker
    then next
    else if not (any (λ l. l.payload.worker == a.signer) verify_leases)
    then next
    else if includes seen a.signer
    then next
    else voted

abbrev pub is_attest_of : String → String → Envelope Attest → Bool
is_attest_of task result_id a = a.payload.task_id == task && a.payload.result_id == result_id

abbrev pub id_lt : {P : Type 0} → Envelope P → Envelope P → Bool
id_lt a b = str_lt a.id b.id

unfoldable pub attests : Board → String → String → List (Envelope Attest)
attests b task result_id = elim (get b result_id) [
  | none ↦ []
  | some r ↦
      collect r.signer (select is_verifier (leases b task)) []
        (sort id_lt (select (is_attest_of task result_id) (of_type as_attest b)))
]

abbrev pub is_finalize_of : Envelope Manifest → String → Envelope Finalize → Bool
is_finalize_of m task f = f.payload.task_id == task && is_coordinator m f

unfoldable pub finalizes : Board → String → List (Envelope Finalize)
finalizes b task = elim (manifest b task) [
  | none ↦ []
  | some m ↦
      sort (by_rank (λ f. f.ts) (λ f. f.id))
        (select (is_finalize_of m task) (of_type as_finalize b))
]
