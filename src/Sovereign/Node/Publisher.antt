-- ===== src/Sovereign/Node/Publisher.antt =====
-- src/sovereign/node.ts: `publisherDuty`, with what it sends and the board that each sending leaves.
-- `resultId` is of 64 hexadecimal digits, and so is never an empty text.
pub mod Conforms
use Prim.Native.String
use gstdbot.Common.{ℕ, String, length, if◌then◌else◌, Bool, Option, none, some, List, [], ◌∷◌}
use gstdbot.Sovereign.Envelope.{Envelope, Manifest, Lease, Finalize, Decision}
use gstdbot.Sovereign.Json.{decimal}
use gstdbot.Sovereign.Crypto.{Primitives}
use gstdbot.Sovereign.Signing.{NodeIdentity}
use gstdbot.Sovereign.Board.{
  Board, manifest, task_ids, finalizes, evaluate, Evaluation, TaskStatus, Reason, manifest_unknown,
  deadline_passed, waiting_for_verifiers, executor_leased, no_executor, not_reproduced,
  reproduced_by,
}
use gstdbot.Sovereign.Node.Duties.{coordinates, has_none, fetch_lease, verify_leases}
use gstdbot.Sovereign.Node.Sends.{Sending, emit, lease_json, finalize_json}

unfoldable pub reason_text : Reason → String
reason_text manifest_unknown = "manifest unknown"
reason_text deadline_passed = "deadline passed without verified result"
reason_text waiting_for_verifiers = "result received, waiting for verifiers"
reason_text executor_leased = "executor leased"
reason_text no_executor = "no executor leased"
reason_text not_reproduced = "independent verifiers could not reproduce the result hash"
reason_text (reproduced_by n) =
    Prim.Native.String.◌++◌ (decimal n) " independent verifier(s) reproduced the content hash"

-- What is done for a task with a status.
pub data Course : Type 0 where
  decide : Decision → Course
  give_up assign : Course

abbrev pub course_of : TaskStatus → Course
course_of TaskStatus.accepted = decide Decision.accepted
course_of TaskStatus.rejected = decide Decision.rejected
course_of TaskStatus.expired = give_up
course_of TaskStatus.unassigned = assign
course_of TaskStatus.leased = assign
course_of TaskStatus.awaiting_verification = assign

abbrev pub new_finalize : String → Decision → Evaluation → Finalize
new_finalize task d ev = record {
  task_id = task;
  decision = d;
  reason = reason_text ev.reason;
  result_id = ev.result_id;
}

-- The clock and the random bytes are read once for each envelope; `now` is what the loop passes.
module _ (prim : Primitives) (hostname : String → Option String) (identity : NodeIdentity)
    (clock : ℕ → ℕ) (nonces : ℕ → String) where
  abbrev pub emit_lease : Lease → Sending → Sending
  emit_lease l s = emit prim identity (clock (length s.sent)) nonces "task.lease" (lease_json l) s

  abbrev pub emit_finalize : Finalize → Sending → Sending
  emit_finalize f s =
      emit prim identity (clock (length s.sent)) nonces "task.finalize" (finalize_json f) s

  unfoldable pub emit_leases : List Lease → Sending → Sending
  emit_leases [] s = s
  emit_leases (l ∷ ls) s = emit_leases ls (emit_lease l s)

  abbrev pub send_fetch : Option Lease → Sending → Sending
  send_fetch none s = s
  send_fetch (some l) s = emit_lease l s

  -- The verifiers are chosen on the board that the data lease leaves.
  abbrev pub send_verifies : ℕ → String → Envelope Manifest → Sending → Sending
  send_verifies now task m s =
      emit_leases (verify_leases prim hostname identity.node_id s.objects.board now task m) s

  unfoldable pub take_course : ℕ → String → Envelope Manifest → Course → Sending → Sending
  take_course now task m (decide d) s =
      if has_none (finalizes s.objects.board task)
      then emit_finalize (new_finalize task d (evaluate s.objects.board task now)) s
      else s
  take_course now task m give_up s = s
  take_course now task m assign s =
      send_verifies now task m
        (send_fetch (fetch_lease prim hostname identity.node_id s.objects.board now task m) s)

  unfoldable pub publish_for : ℕ → String → Option (Envelope Manifest) → Sending → Sending
  publish_for now task none s = s
  publish_for now task (some m) s =
      if coordinates identity.node_id s.objects.board now task
      then take_course now task m (course_of (evaluate s.objects.board task now).status) s
      else s

  unfoldable pub publish_each : ℕ → List String → Sending → Sending
  publish_each now [] s = s
  publish_each now (task ∷ tasks) s =
      publish_each now tasks (publish_for now task (manifest s.objects.board task) s)

  unfoldable pub publisher_duty : ℕ → Sending → Sending
  publisher_duty now s = publish_each now (task_ids s.objects.board) s
