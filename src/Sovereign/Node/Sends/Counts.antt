-- ===== src/Sovereign/Node/Sends/Counts.antt =====
-- src/sovereign/node.ts, crypto.ts and board.ts: what a coordinator leases counts on its board.
use gstdbot.Common.{ℕ, ◌≤◌, String, eq_refl, true, false, some, ◌≡◌, refl, sym, subst, Memᴰ, length}
use gstdbot.Sovereign.Envelope.{Envelope, Manifest, Lease, lease, as_lease, retype}
use gstdbot.Sovereign.Crypto.{Primitives}
use gstdbot.Sovereign.Signing.{NodeIdentity}
use gstdbot.Sovereign.Signing.Verified.{IsSigner}
use gstdbot.Sovereign.Schema.{schema_of}
use gstdbot.Sovereign.Board.{manifest, leases, is_coordinator}
use gstdbot.Sovereign.Ingest.Adds.{leases-add}
use gstdbot.Sovereign.Board.Entities.{Activity, last_coordinator}
use gstdbot.Sovereign.Ingest.{add, envelope_of, check_content}
use gstdbot.Sovereign.Node.Duties.{coordinates}
use gstdbot.Sovereign.Node.Duties.Coordinates.{coordinates-is_coordinator}
use gstdbot.Sovereign.Node.Sends.{lease_json, Sending, emit}
use gstdbot.Sovereign.Node.Sends.Parsed.{IsLeaseForm, parse_lease-lease_json}
use gstdbot.Sovereign.Node.Sends.Emitted.{IsSendable, emit-added}

-- A coordinator's lease counts once it is sent: on the board that `emit` leaves, the lease is one of
-- the task's, with the payload that was sent and the node as its signer. The node takes itself for the
-- coordinator, by the clock no later than the signature, which is not before the coordinators' last
-- activity; no exception has ended the duty; the schema accepts the lease; and the envelope is small,
-- has a nonce of 16 hexadecimal digits and is not on the board yet.
pub emit-leases :
    (prim : Primitives) (identity : NodeIdentity) (at_ms : ℕ) (nonces : ℕ → String) (s : Sending)
    (l : Lease) (m : Envelope Manifest) (now : ℕ)
    → IsSigner prim identity
    → IsSendable prim identity "task.lease"
        (lease_json l)
        at_ms
        (nonces (length s.sent))
        s.objects.board
    → s.thrown ≡ false
    → IsLeaseForm l
    → manifest s.objects.board l.task_id ≡ some m
    → coordinates identity.node_id s.objects.board now l.task_id ≡ true
    → now ≤ at_ms
    → ((last : Activity) → last_coordinator s.objects.board l.task_id ≡ some last → last.ts ≤ at_ms)
    → (e : Envelope Lease) × Memᴰ e (
        leases
          (emit prim identity at_ms nonces "task.lease" (lease_json l) s).objects.board
          l.task_id)
      × (e.payload ≡ l)
      × (e.signer ≡ identity.node_id)
unfolding as_lease schema_of check_content
emit-leases prim identity at_ms nonces s l m now signer w going form known mine later behind =
    let b = s.objects.board in
    let made =
      emit-added prim identity at_ms nonces "task.lease" (lease_json l) s _ (lease l) signer w going
        refl (rw (parse_lease-lease_json l form) refl) refl in
    let e : Envelope Lease = retype (envelope_of made.header made.id (lease l)) l in
    let ours : is_coordinator m e ≡ true =
      coordinates-is_coordinator identity.node_id b now l.task_id m e known mine made.signer
        (rw made.ts later) (λ last k. rw made.ts (behind last k)) in
    let there : Memᴰ e (leases (add b (envelope_of made.header made.id (lease l))) l.task_id) =
      leases-add b _ l.task_id m e known refl (rw (eq_refl l.task_id, ours) refl) in
    (e, subst (λ x. Memᴰ e (leases x l.task_id)) (sym made.board) there, refl, made.signer)
