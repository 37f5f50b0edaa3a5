-- ===== src/Sovereign/Node/Duties/Starts.antt =====
-- src/sovereign/node.ts: `workerDuty` and `verifierDuty`, which start the runs that are due, and what
-- a verification sends. `inflight` holds the keys of the runs that have not ended; no run ends while a
-- duty goes through the board.
use Prim.Native.String
use gstdbot.Common.{
  ℕ, ltb, String, ◌==◌, Bool, true, false, not, ◌&&◌, if◌then◌else◌, Option, none, some, List, [],
  ◌∷◌, any, find,
}
use gstdbot.Sovereign.Envelope.{
  Envelope, Payload, Lease, Role, fetch, verify, compute, relay, archive, Result, DataVersion,
  Attest, Verdict, attest, as_lease,
}
use gstdbot.Sovereign.Board.{
  Board, of_type, task_ids, includes, leases, results, is_fetcher, is_verifier,
}

abbrev pub Key : Type 0
Key = String

-- The runs that a duty starts, the last of them first.
pub record Starts (A : Type 0) : Type 0 where
  pub started : List A
  pub inflight : List Key

abbrev pub start : {A : Type 0} → A → Key → Starts A → Starts A
start x key s = record { started = x ∷ s.started; inflight = key ∷ s.inflight }

abbrev pub has_role : (Role → Bool) → List Role → Bool
has_role is roles = any is roles

abbrev pub is_fetch_role : Role → Bool
is_fetch_role r = elim r [
  | fetch ↦ true
  | verify ↦ false
  | compute ↦ false
  | relay ↦ false
  | archive ↦ false
]

abbrev pub is_verify_role : Role → Bool
is_verify_role r = elim r [
  | fetch ↦ false
  | verify ↦ true
  | compute ↦ false
  | relay ↦ false
  | archive ↦ false
]

-- A data lease of this node's that counts and has not expired, without a result of the node's.
unfoldable pub is_due : String → Board → ℕ → List Key → Envelope Lease → Bool
is_due me b now inflight l =
    is_fetcher l
    && l.payload.worker == me
    && any (λ (x : Envelope Lease). x.id == l.id) (leases b l.payload.task_id)
    && not (ltb l.payload.expires_at now)
    && not (includes inflight l.id)
    && not (any (λ (r : Envelope Result). r.signer == me) (results b l.payload.task_id))

unfoldable pub fetch_each :
    String → Board → ℕ → List (Envelope Lease) → Starts (Envelope Lease) → Starts (Envelope Lease)
fetch_each me b now [] s = s
fetch_each me b now (l ∷ ls) s =
    fetch_each me b now ls (if is_due me b now s.inflight l then start l l.id s else s)

unfoldable pub worker_duty : String → List Role → Board → ℕ → List Key → Starts (Envelope Lease)
worker_duty me roles b now inflight =
    let idle : Starts (Envelope Lease) = record { started = []; inflight = inflight } in
    if has_role is_fetch_role roles then fetch_each me b now (of_type as_lease b) idle else idle

abbrev pub verify_key : String → String → Key
verify_key me result_id = Prim.Native.String.◌++◌ result_id (Prim.Native.String.◌++◌ ":" me)

abbrev pub is_vote_on : String → String → Envelope Payload → Bool
is_vote_on me result_id e = elim e.payload [
  | attest a ↦ e.signer == me && a.result_id == result_id
  | _ ↦ false
]

-- A result of another node's, which this node neither verifies now nor has voted on.
unfoldable pub is_open : String → Board → List Key → Envelope Result → Bool
is_open me b inflight r =
    not (r.signer == me)
    && not (includes inflight (verify_key me r.id))
    && not (any (is_vote_on me r.id) b.objects)

abbrev pub is_my_verify : String → Envelope Lease → Bool
is_my_verify me l = is_verifier l && l.payload.worker == me

unfoldable pub next_verify : String → Board → List Key → String → Option (Envelope Result)
next_verify me b inflight task =
    if any (is_my_verify me) (leases b task)
    then find (is_open me b inflight) (results b task)
    else none

abbrev pub start_verify :
    String
    → String
    → Option (Envelope Result)
    → Starts (String × Envelope Result)
    → Starts (String × Envelope Result)
start_verify me task none s = s
start_verify me task (some r) s = start (task, r) (verify_key me r.id) s

unfoldable pub verify_each :
    String
    → Board
    → List String
    → Starts (String × Envelope Result)
    → Starts (String × Envelope Result)
verify_each me b [] s = s
verify_each me b (task ∷ tasks) s =
    verify_each me b tasks (start_verify me task (next_verify me b s.inflight task) s)

-- One result of each task at a time.
unfoldable pub verifier_duty :
    String → List Role → Board → List Key → Starts (String × Envelope Result)
verifier_duty me roles b inflight =
    let idle : Starts (String × Envelope Result) = record { started = []; inflight = inflight } in
    if has_role is_verify_role roles then verify_each me b (task_ids b) idle else idle

-- What the provider gives: a version, or an exception, with `source unavailable` and its message cut
-- to 200 units.
pub data Fetched : Type 0 where
  fetched : DataVersion → Fetched
  failed : String → Fetched

-- The vote of `runVerify`.
unfoldable pub vote_of : String → Envelope Result → Fetched → Attest
vote_of task r (fetched v) =
    let same = v.content_hash == r.payload.version.content_hash in
    record {
      task_id = task;
      result_id = r.id;
      verdict = if same then Verdict.match else Verdict.mismatch;
      observed_hash = some v.content_hash;
      reason =
          if same
          then "independent fetch reproduced the content hash"
          else "independent fetch produced different content";
    }
vote_of task r (failed text) = record {
  task_id = task;
  result_id = r.id;
  verdict = Verdict.inconclusive;
  observed_hash = none;
  reason = text;
}
