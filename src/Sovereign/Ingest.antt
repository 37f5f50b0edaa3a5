-- ===== src/Sovereign/Ingest.antt =====
-- src/sovereign/board.ts: `ingest`, and the board that a sequence of deliveries leaves.
pub mod Puts
pub mod Adds
pub mod Deliver
use gstdbot.Common.{ℕ, String, ◌==◌, if◌then◌else◌, Option, none, some, List, [], ◌∷◌, ◌++◌}
use gstdbot.Sovereign.Envelope.{
  Json, Envelope, Payload, announce, publish, lease, result, attest, finalize,
}
use gstdbot.Sovereign.Json.{canonicalize}
use gstdbot.Sovereign.Crypto.{
  Primitives, Header, Refusal, Check, passed, refused, verify_envelope, member, text_of,
}
use gstdbot.Sovereign.Schema.{schema_of, SchemaLookup, schema, inherited, unknown}
use gstdbot.Sovereign.Board.{Board, has}

pub data Rejection : Type 0 where
  bad_envelope : Refusal → Rejection
  duplicate unknown_type invalid_payload : Rejection
  content_not_canonicalizable content_hash_mismatch : Rejection

-- `throws` is the TypeError of `schema.safeParse` where the type names an inherited member.
pub data Outcome : Type 0 where
  added throws : Outcome
  not_added : Rejection → Outcome

abbrev pub envelope_of : Header → String → Payload → Envelope Payload
envelope_of h id p = record {
  payload = p;
  signer = h.signer;
  ts = h.ts;
  nonce = h.nonce;
  id = id;
  sig = h.sig;
}

abbrev pub add : Board → Envelope Payload → Board
add b e = record { objects = b.objects ++ e ∷ [] }

-- The id of an envelope that `verify_envelope` passed is a text.
abbrev pub id_of : Json → String
id_of e = elim (text_of (member e "id")) [ none ↦ "" | some s ↦ s ]

module _ (prim : Primitives) where
  -- The content hash of a result is that of its content.
  unfoldable pub check_content : Payload → Option Rejection
  check_content p = elim p [
    | result r ↦ elim (canonicalize r.version.content) [
      | none ↦ some content_not_canonicalizable
      | some s ↦
          if prim.sha256_hex s == r.version.content_hash then none else some content_hash_mismatch
    ]
    | _ ↦ none
  ]

  ingest_payload : Board → Header → String → Option Payload → Board × Outcome
  unfolding check_content
  ingest_payload b h id none = (b, not_added invalid_payload)
  ingest_payload b h id (some p) = elim (check_content p) [
    | some r ↦ (b, not_added r)
    | none ↦ (add b (envelope_of h id p), added)
  ]

  ingest_new : Board → Json → Header → SchemaLookup → Board × Outcome
  unfolding ingest_payload
  ingest_new b e h unknown = (b, not_added unknown_type)
  ingest_new b e h inherited = (b, throws)
  ingest_new b e h (schema parse) = ingest_payload b h (id_of e) (parse (member e "payload"))

  unfoldable pub ingest : Board → Json → ℕ → Board × Outcome
  unfolding ingest_new
  ingest b e now = elim (verify_envelope prim e now) [
    | refused r ↦ (b, not_added (bad_envelope r))
    | passed h ↦
        if has b (id_of e) then (b, not_added duplicate) else ingest_new b e h (schema_of h.kind)
  ]
