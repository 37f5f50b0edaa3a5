-- ===== src/Sovereign/Node/Sends.antt =====
-- src/sovereign/node.ts: `emit`, and the payloads that a node gives it, as the objects of the source.
pub mod Parsed
pub mod Emitted
pub mod Counts
pub mod Votes
use gstdbot.Common.{
  ℕ, String, Bool, true, false, Option, none, some, List, [], ◌∷◌, ◌++◌, length, if◌then◌else◌,
}
use gstdbot.Sovereign.Envelope.{
  Json, undefined, number, text, object, Fields, field, end, Lease, LeaseRole, fetcher, verifier,
  Result, DataVersion, Attest, Verdict, Finalize, Decision, match, mismatch, inconclusive,
}
use gstdbot.Sovereign.Crypto.{Primitives}
use gstdbot.Sovereign.Signing.{NodeIdentity, sign_envelope}
use gstdbot.Sovereign.Node.Objects.{Objects, store}

abbrev pub role_name : LeaseRole → String
role_name fetcher = "data"
role_name verifier = "verify"

abbrev pub lease_json : Lease → Json
lease_json l = object (
    field "taskId" (text l.task_id) (
      field "role" (text (role_name l.role)) (
        field "worker" (text l.worker)
          (field "epoch" (number l.epoch) (field "expiresAt" (number l.expires_at) end)))))

abbrev pub verdict_name : Verdict → String
verdict_name Verdict.match = "match"
verdict_name Verdict.mismatch = "mismatch"
verdict_name Verdict.inconclusive = "inconclusive"

-- A key of which the value may be missing.
abbrev pub optional_text : Option String → Json
optional_text none = undefined
optional_text (some s) = text s

-- Where `observedHash` is not written, `member` gives `undefined` as well.
abbrev pub attest_json : Attest → Json
attest_json a = object (
    field "taskId" (text a.task_id) (
      field "resultId" (text a.result_id) (
        field "verdict" (text (verdict_name a.verdict)) (
          field "observedHash" (optional_text a.observed_hash)
            (field "reason" (text a.reason) end)))))

abbrev pub decision_name : Decision → String
decision_name Decision.accepted = "accepted"
decision_name Decision.rejected = "rejected"

abbrev pub finalize_json : Finalize → Json
finalize_json f = object (
    field "taskId" (text f.task_id) (
      field "decision" (text (decision_name f.decision))
        (field "reason" (text f.reason) (field "resultId" (optional_text f.result_id) end))))

abbrev pub version_json : DataVersion → Json
version_json v = object (
    field "entity" (text v.entity) (
      field "adapter" (text v.adapter) (
        field "source" (text v.source) (
          field "fetchedAt" (number v.fetched_at)
            (field "contentHash" (text v.content_hash) (field "content" v.content end))))))

abbrev pub result_json : Result → Json
result_json r = object (
    field "taskId" (text r.task_id)
      (field "leaseId" (text r.lease_id) (field "version" (version_json r.version) end)))

-- What a node has and what it has sent; `thrown` says that an exception has ended the duty.
pub record Sending : Type 0 where
  pub objects : Objects
  pub sent : List Json
  pub thrown : Bool

-- `at` is what `Date.now()` gives, and `nonces` the random bytes, one for each envelope.
module _ (prim : Primitives) (identity : NodeIdentity) (at_ms : ℕ) (nonces : ℕ → String) where
  abbrev pub send : Option Json → Sending → Sending
  send none s = record s { thrown = true }
  send (some e) s = record s { objects = store prim at_ms e s.objects; sent = s.sent ++ e ∷ [] }

  -- `emit`: sign, store, and push to the peers.
  unfoldable pub emit : String → Json → Sending → Sending
  emit kind payload s =
      if s.thrown
      then s
      else send (sign_envelope prim identity kind payload at_ms (nonces (length s.sent))) s
