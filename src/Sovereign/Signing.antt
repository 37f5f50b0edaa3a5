-- ===== src/Sovereign/Signing.antt =====
-- src/sovereign/crypto.ts: `signEnvelope`. The private key is node's: an identity has what `edSign`
-- makes with it. The nonce is what `randomBytes` gives.
pub mod Verified
use gstdbot.Common.{ℕ, String, Option, none, some}
use gstdbot.Sovereign.Envelope.{Json, number, text, object, field, end}
use gstdbot.Sovereign.Crypto.{Primitives, Header, unsigned_body}

pub record NodeIdentity : Type 0 where
  pub node_id : String
  -- `edSign(null, id, privateKey)`, of the id's bytes, in hexadecimal digits
  pub ed_sign : String → String

-- `{ ...base, id, sig }`
abbrev pub signed_json : Header → Json → String → Json
signed_json h payload id = object (
    field "v" (number 1) (
      field "type" (text h.kind) (
        field "payload" payload (
          field "signer" (text h.signer) (
            field "ts" (number h.ts) (
              field "nonce" (text h.nonce)
                (field "id" (text id) (field "sig" (text h.sig) end))))))))

abbrev pub base_header : NodeIdentity → String → ℕ → String → String → Header
base_header identity kind ts nonce sig = record {
  kind = kind;
  signer = identity.node_id;
  sig = sig;
  nonce = nonce;
  ts = ts;
}

-- `none` is the exception of `canonicalize`.
unfoldable pub sign_envelope : Primitives → NodeIdentity → String → Json → ℕ → String → Option Json
sign_envelope prim identity kind payload ts nonce =
    elim (unsigned_body (base_header identity kind ts nonce "") payload) [
      | none ↦ none
      | some body ↦
          let id = prim.sha256_hex body in
          some (signed_json (base_header identity kind ts nonce (identity.ed_sign id)) payload id)
    ]
