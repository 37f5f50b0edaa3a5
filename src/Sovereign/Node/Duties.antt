-- ===== src/Sovereign/Node/Duties.antt =====
-- src/sovereign/node.ts: what a node decides to send for the tasks that it coordinates, and which
-- fetches and verifications it starts.
pub mod Coordinates
pub mod Candidates
pub mod Assigns
pub mod Verifies
pub mod Starts
pub mod Due
use gstdbot.Common.{
  ℕ, suc, ◌+◌, ◌-◌, ◌*◌, ltb, leb, eqb, length, take, String, ◌==◌, str_lt, Bool, true, false, not,
  ◌&&◌, ◌||◌, if◌then◌else◌, Option, none, some, List, [], ◌∷◌, ◌++◌, map, filter_map, any, select,
  find, sort, head?, get_last?,
}
use Prim.Native.String
use gstdbot.Sovereign.Envelope.{
  Envelope, Payload, Manifest, Announce, Lease, LeaseRole, fetcher, verifier, Role, fetch, verify,
  compute, relay, archive, Result, Attest, Finalize, Decision, lease, finalize, attest, as_announce,
  as_lease, as_attest,
}
use gstdbot.Sovereign.Crypto.{Primitives}
use gstdbot.Sovereign.Board.{
  Board, manifest, of_type, task_ids, includes, backups_of, failover_ms, leases, results, attests,
  finalizes, is_fetcher, is_verifier, evaluate, Evaluation, TaskStatus,
}
use gstdbot.Sovereign.Board.Entities.{Activity, last_coordinator, announces, has_accepted_status}

-- `indexOf`
unfoldable pub index_of : String → List String → Option ℕ
index_of s [] = none
index_of s (x ∷ l) =
    if x == s then some 0 else elim (index_of s l) [ none ↦ none | some i ↦ some (suc i) ]

-- Who coordinates after silence: the node of the last activity, or a backup by its rank.
abbrev pub takes_over : String → ℕ → Manifest → ℕ → Activity → Bool
takes_over me now m rank last =
    if last.signer == me then true else leb (failover_ms m * suc rank) (now - last.ts)

unfoldable pub coordinates : String → Board → ℕ → String → Bool
coordinates me b now task = elim (manifest b task) [
  | none ↦ false
  | some m ↦ if m.signer == me then true else elim (index_of me (backups_of m.payload)) [
    | none ↦ false
    | some rank ↦ elim (last_coordinator b task) [
      | none ↦ false
      | some last ↦ takes_over me now m.payload rank last
    ]
  ]
]

abbrev pub plays : LeaseRole → Announce → Bool
plays fetcher a =
    any
      (λ (r : Role). elim r [
        | fetch ↦ true
        | verify ↦ false
        | compute ↦ false
        | relay ↦ false
        | archive ↦ false
      ])
      a.roles
plays verifier a =
    any
      (λ (r : Role). elim r [
        | fetch ↦ false
        | verify ↦ true
        | compute ↦ false
        | relay ↦ false
        | archive ↦ false
      ])
      a.roles

-- The tasks of a worker whose result was accepted.
unfoldable pub accepted_of : Board → ℕ → String → ℕ
accepted_of b now worker = length (
    select
      (λ task.
        let ev = evaluate b task now in
        has_accepted_status ev && elim ev.worker [ none ↦ false | some w ↦ w == worker ])
      (task_ids b))

abbrev pub is_candidate : LeaseRole → List String → Envelope Announce → Bool
is_candidate role exclude a =
    plays role a.payload
    && includes a.payload.adapters "npm-registry"
    && not (includes exclude a.signer)

abbrev pub reserved : String → Envelope Manifest → List String
reserved me m = m.signer ∷ backups_of m.payload ++ me ∷ []

abbrev pub workers : List (Envelope Lease) → List String
workers ls = map (λ (l : Envelope Lease). l.payload.worker) ls

abbrev pub new_lease : String → LeaseRole → ℕ → ℕ → String → Lease
new_lease task role epoch expires worker = record {
  task_id = task;
  role = role;
  worker = worker;
  epoch = epoch;
  expires_at = expires;
}

-- Whether a fetch has to be leased: there was none, or the last one is over and more are allowed.
abbrev pub needs_fetch : Manifest → ℕ → List (Envelope Lease) → Bool
needs_fetch m now data_leases = elim (get_last? data_leases) [
  | none ↦ true
  | some l ↦ ltb l.payload.expires_at now && ltb (length data_leases) m.max_attempts
]

abbrev pub next_epoch : List (Envelope Lease) → ℕ
next_epoch data_leases = elim (get_last? data_leases) [ none ↦ 1 | some l ↦ suc l.payload.epoch ]

abbrev pub has_none {ℓ} : {A : Type ℓ} → List A → Bool
has_none [] = true
has_none (x ∷ l) = false

-- A verification that may still come, or has come.
abbrev pub is_active : Board → ℕ → String → Envelope Result → Envelope Lease → Bool
is_active b now task first l =
    leb now l.payload.expires_at
    || any (λ (a : Envelope Attest). a.signer == l.payload.worker) (attests b task first.id)

-- `hostname` gives the host of an address, and `none` where `new URL` throws.
module _ (prim : Primitives) (hostname : String → Option String) where
  unfoldable pub host_of : Board → String → String
  host_of b node = elim (find (λ (a : Envelope Announce). a.signer == node) (announces b)) [
    | none ↦ ""
    | some a ↦ elim a.payload.http_url [
      | none ↦ ""
      | some url ↦ elim (hostname url) [ none ↦ "" | some h ↦ h ]
    ]
  ]

  abbrev pub same_host : Board → List String → String → ℕ
  same_host b avoid node =
      let h = host_of b node in if not (h == "") && includes avoid h then 1 else 0

  abbrev pub tiebreak : String → String → String
  tiebreak task node =
      prim.sha256_hex (Prim.Native.String.◌++◌ task (Prim.Native.String.◌++◌ "|" node))

  -- The comparison of `candidates`: price, then host, then history, then the task's own order.
  unfoldable pub preferred :
      Board → ℕ → String → List String → Envelope Announce → Envelope Announce → Bool
  preferred b now task avoid x y =
      if not (eqb x.payload.price_nano y.payload.price_nano)
      then ltb x.payload.price_nano y.payload.price_nano
      else if not (eqb (same_host b avoid x.signer) (same_host b avoid y.signer))
      then ltb (same_host b avoid x.signer) (same_host b avoid y.signer)
      else if not (eqb (accepted_of b now x.signer) (accepted_of b now y.signer))
      then ltb (accepted_of b now y.signer) (accepted_of b now x.signer)
      else str_lt (tiebreak task x.signer) (tiebreak task y.signer)

  unfoldable pub candidates :
      Board → ℕ → LeaseRole → List String → String → List String → List String
  candidates b now role exclude task avoid =
      map (λ (a : Envelope Announce). a.signer)
        (sort (preferred b now task avoid) (select (is_candidate role exclude) (announces b)))

  unfoldable pub fetch_lease : String → Board → ℕ → String → Envelope Manifest → Option Lease
  fetch_lease me b now task m =
      let data_leases = select is_fetcher (leases b task) in
      if has_none (results b task) && needs_fetch m.payload now data_leases
      then elim (head? (candidates b now fetcher (workers data_leases ++ reserved me m) task [])) [
        | none ↦ none
        | some w ↦
            some (new_lease task fetcher (next_epoch data_leases) (now + m.payload.lease_ms) w)
      ]
      else none

  abbrev pub hosts_to_avoid : Board → Envelope Result → List String
  hosts_to_avoid b first = select (λ h. not (h == "")) (host_of b first.signer ∷ [])

  unfoldable pub verify_leases_for :
      String → Board → ℕ → String → Envelope Manifest → Envelope Result → List Lease
  verify_leases_for me b now task m first =
      let v_leases = select is_verifier (leases b task) in
      let active = select (is_active b now task first) v_leases in
      if ltb (length active) m.payload.min_verifiers
      then map (new_lease task verifier 1 (now + m.payload.lease_ms)) (
          take (m.payload.min_verifiers - length active) (
            candidates b now verifier (workers v_leases ++ reserved me m ++ first.signer ∷ []) task
              (hosts_to_avoid b first)))
      else []

  unfoldable pub verify_leases : String → Board → ℕ → String → Envelope Manifest → List Lease
  verify_leases me b now task m = elim (head? (results b task)) [
    | none ↦ []
    | some first ↦ verify_leases_for me b now task m first
  ]
