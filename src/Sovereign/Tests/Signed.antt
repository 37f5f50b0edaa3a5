-- ===== src/Sovereign/Tests/Signed.antt =====
-- src/sovereign/node.ts: the theorems on what a node signs and sends, applied to a concrete board.
use Prim.Native.String.{◌++◌, len}
use gstdbot.Common.{
  no_lines, ℕ, ◌≤◌, String, true, false, Option, none, some, [], ◌∷◌, sort, insert_by, str_lt,
  filter_map, arith, ◌≡◌, refl, sym, ◌∙◌, subst, eq_of_some, Memᴰ,
}
use gstdbot.Sovereign.Envelope.{
  Json, Envelope, Manifest, Funding, Lease, fetcher, publish, as_manifest, as_lease, as_finalize,
}
use gstdbot.Sovereign.Json.{is_hex, js_length, canonicalize, decimal, quote}
use gstdbot.Sovereign.Crypto.{unsigned_body}
use gstdbot.Sovereign.Signing.{NodeIdentity, sign_envelope, base_header, signed_json}
use gstdbot.Sovereign.Signing.Verified.{IsSigner, IsSigned, verify_envelope-sign_envelope}
use gstdbot.Sovereign.Board.{Board, manifest, get, has, leases, finalizes}
use gstdbot.Sovereign.Board.Entities.{Activity, last_coordinator, latest_of}
use gstdbot.Sovereign.Node.Duties.{coordinates}
use gstdbot.Sovereign.Node.Sends.{Sending, emit, lease_json}
use gstdbot.Sovereign.Node.Sends.Parsed.{IsLeaseForm}
use gstdbot.Sovereign.Node.Sends.Emitted.{IsSendable}
use gstdbot.Sovereign.Node.Sends.Counts.{emit-leases}
use gstdbot.Sovereign.Tests.Demo.{of, typed}
use gstdbot.Sovereign.Tests.Bundles.{zeros, prim, publisher, worker, voter, id_of}

abbrev pub key_of : String → NodeIdentity
key_of node = record { node_id = node; ed_sign = λ id. zeros ++ zeros ++ "00" }

signs : (node : String) → is_hex 64 node ≡ true → IsSigner prim (key_of node)
unfolding is_hex
signs node h = record { public_key = h; signature = λ id. refl; verifies = λ id. refl }

publisher-IsSigner : IsSigner prim (key_of publisher)
unfolding is_hex
publisher-IsSigner = signs publisher refl

pub voter-IsSigner : IsSigner prim (key_of voter)
unfolding is_hex
voter-IsSigner = signs voter refl

abbrev pub hex_manifest : Manifest
hex_manifest = record {
  adapter = "npm-registry";
  package_name = "left-pad";
  entity = "npm:left-pad";
  funding = Funding.commercial;
  budget_nano = 1000;
  min_verifiers = 1;
  lease_ms = 1000;
  deadline = 100000;
  max_attempts = 3;
  backups = none;
}

abbrev pub manifest_env : Envelope Manifest
manifest_env = typed hex_manifest publisher 5 (id_of "1")

abbrev pub offered : Board
offered = record { objects = of (publish hex_manifest) publisher 5 (id_of "1") ∷ [] }

abbrev pub sending : Board → Sending
sending b = record { objects = record { board = b; file = no_lines }; sent = []; thrown = false }

abbrev pub nonces : ℕ → String
nonces n = "0000000000000008"

abbrev pub first_lease : Lease
first_lease = record {
  task_id = id_of "1";
  role = fetcher;
  worker = worker;
  epoch = 1;
  expires_at = 1010;
}

abbrev pub text_or_empty : Option String → String
text_or_empty none = ""
text_or_empty (some s) = s

lease-IsSendable :
    IsSendable prim
      (key_of publisher)
      "task.lease"
      (lease_json first_lease)
      20
      "0000000000000008"
      offered
unfolding is_hex js_length unsigned_body canonicalize decimal quote has get sort insert_by str_lt
lease-IsSendable = record {
  short = omega arith;
  hex = refl;
  positive = omega arith;
  body = text_or_empty (
      unsigned_body (base_header (key_of publisher) "task.lease" 20 "0000000000000008" "")
        (lease_json first_lease));
  written = refl;
  small = omega arith;
  new = refl;
}

first_lease-IsLeaseForm : IsLeaseForm first_lease
unfolding is_hex
first_lease-IsLeaseForm = record {
  task = refl;
  worker = refl;
  epoch_pos = omega arith;
  epoch_small = omega arith;
  expires = omega arith;
}

offered-manifest : manifest offered (id_of "1") ≡ some manifest_env
unfolding manifest get as_manifest
offered-manifest = refl

offered-coordinates : coordinates publisher offered 10 (id_of "1") ≡ true
unfolding coordinates manifest get as_manifest
offered-coordinates = refl

offered-last : (last : Activity) → last_coordinator offered (id_of "1") ≡ some last → last.ts ≤ 20
unfolding last_coordinator latest_of manifest get as_manifest leases finalizes sort insert_by
    as_lease as_finalize filter_map
offered-last last h = subst (λ (x : Activity). x.ts ≤ 20) (eq_of_some h) (omega arith)

emit-leases_example :
    (e : Envelope Lease) × Memᴰ e (
      leases
        (emit prim
          (key_of publisher)
          20
          nonces
          "task.lease"
          (lease_json first_lease)
          (sending offered)).objects.board
        (id_of "1"))
    × (e.payload ≡ first_lease)
    × (e.signer ≡ publisher)
emit-leases_example =
    emit-leases prim (key_of publisher) 20 nonces (sending offered) first_lease manifest_env 10
      publisher-IsSigner lease-IsSendable refl first_lease-IsLeaseForm offered-manifest
      offered-coordinates (omega arith) offered-last

signed_lease : Json
signed_lease =
    signed_json
      (base_header (key_of publisher) "task.lease" 20 "0000000000000008" (zeros ++ zeros ++ "00"))
      (lease_json first_lease) (id_of "8")

sign_lease :
    sign_envelope prim
      (key_of publisher)
      "task.lease"
      (lease_json first_lease)
      20
      "0000000000000008"
    ≡ some signed_lease
unfolding sign_envelope unsigned_body canonicalize decimal quote sort insert_by str_lt signed_lease
sign_lease = refl

small_lease :
    (body : String)
    → unsigned_body
        (base_header (key_of publisher) "task.lease" 20 "0000000000000008" "")
        (lease_json first_lease)
      ≡ some body
    → len body ≤ 262144
small_lease body h =
    subst (λ s. len s ≤ 262144) (eq_of_some (sym lease-IsSendable.written ∙ h))
      lease-IsSendable.small

verify_envelope-sign_envelope_example :
    IsSigned prim
      (key_of publisher)
      "task.lease"
      (lease_json first_lease)
      20
      "0000000000000008"
      signed_lease
      30
verify_envelope-sign_envelope_example =
    verify_envelope-sign_envelope prim (key_of publisher) "task.lease" (lease_json first_lease) 20
      "0000000000000008" 30 publisher-IsSigner lease-IsSendable.short lease-IsSendable.hex
      (omega arith) (omega arith) small_lease sign_lease
