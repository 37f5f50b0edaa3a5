-- ===== src/Sovereign/Node/Sends/Parsed.antt =====
-- src/sovereign/node.ts and src/sovereign/board.ts: the schemas accept the payloads that a node makes.
use gstdbot.Common.{ℕ, ◌≤◌, ◌<◌, le→leb, lt→ltb, String, true, Option, none, some, ◌≡◌, refl}
use gstdbot.Sovereign.Envelope.{Lease, LeaseRole, fetcher, verifier, Attest, Verdict}
use gstdbot.Sovereign.Json.{is_hex, js_length}
use gstdbot.Sovereign.Crypto.{member}
use gstdbot.Sovereign.Schema.{parse_lease, parse_attest}
use gstdbot.Sovereign.Node.Sends.{lease_json, attest_json}

-- A lease that its schema accepts.
pub record IsLeaseForm (l : Lease) : Type 0 where
  pub task : is_hex 64 l.task_id ≡ true
  pub worker : is_hex 64 l.worker ≡ true
  pub epoch_pos : 1 ≤ l.epoch
  pub epoch_small : l.epoch ≤ 10
  pub expires : 0 < l.expires_at

parse_lease-json :
    (task worker : String) (role : LeaseRole) (epoch expires : ℕ)
    → is_hex 64 task ≡ true
    → is_hex 64 worker ≡ true
    → 1 ≤ epoch
    → epoch ≤ 10
    → 0 < expires
    → parse_lease (
        lease_json (record {
          task_id = task;
          role = role;
          worker = worker;
          epoch = epoch;
          expires_at = expires;
        }))
      ≡ some (record {
        task_id = task;
        role = role;
        worker = worker;
        epoch = epoch;
        expires_at = expires;
      })
unfolding parse_lease member
parse_lease-json task worker fetcher epoch expires t w lo hi e =
    rw (t, w, le→leb 1 epoch lo, le→leb epoch 10 hi, lt→ltb 0 expires e) refl
parse_lease-json task worker verifier epoch expires t w lo hi e =
    rw (t, w, le→leb 1 epoch lo, le→leb epoch 10 hi, lt→ltb 0 expires e) refl

pub parse_lease-lease_json : (l : Lease) → IsLeaseForm l → parse_lease (lease_json l) ≡ some l
parse_lease-lease_json l f =
    parse_lease-json l.task_id l.worker l.role l.epoch l.expires_at f.task f.worker f.epoch_pos
      f.epoch_small f.expires

-- An attestation that its schema accepts.
pub record IsAttestForm (a : Attest) : Type 0 where
  pub task : is_hex 64 a.task_id ≡ true
  pub result : is_hex 64 a.result_id ≡ true
  pub observed : (s : String) → a.observed_hash ≡ some s → is_hex 64 s ≡ true
  pub reason : js_length a.reason ≤ 200

parse_attest-json :
    (task result_id reason : String) (verdict : Verdict) (observed : Option String)
    → is_hex 64 task ≡ true
    → is_hex 64 result_id ≡ true
    → ((s : String) → observed ≡ some s → is_hex 64 s ≡ true)
    → js_length reason ≤ 200
    → parse_attest (
        attest_json (record {
          task_id = task;
          result_id = result_id;
          verdict = verdict;
          observed_hash = observed;
          reason = reason;
        }))
      ≡ some (record {
        task_id = task;
        result_id = result_id;
        verdict = verdict;
        observed_hash = observed;
        reason = reason;
      })
unfolding parse_attest member
parse_attest-json task result_id reason Verdict.match none t r o n =
    rw (t, r, le→leb (js_length reason) 200 n) refl
parse_attest-json task result_id reason Verdict.match (some s) t r o n =
    rw (t, r, o s refl, le→leb (js_length reason) 200 n) refl
parse_attest-json task result_id reason Verdict.mismatch none t r o n =
    rw (t, r, le→leb (js_length reason) 200 n) refl
parse_attest-json task result_id reason Verdict.mismatch (some s) t r o n =
    rw (t, r, o s refl, le→leb (js_length reason) 200 n) refl
parse_attest-json task result_id reason Verdict.inconclusive none t r o n =
    rw (t, r, le→leb (js_length reason) 200 n) refl
parse_attest-json task result_id reason Verdict.inconclusive (some s) t r o n =
    rw (t, r, o s refl, le→leb (js_length reason) 200 n) refl

pub parse_attest-attest_json : (a : Attest) → IsAttestForm a → parse_attest (attest_json a) ≡ some a
parse_attest-attest_json a f =
    parse_attest-json a.task_id a.result_id a.reason a.verdict a.observed_hash f.task f.result
      f.observed f.reason
