-- ===== src/Sovereign/Signing/Verified.antt =====
-- src/sovereign/crypto.ts: `verifyEnvelope` passes what `signEnvelope` makes.
use Prim.Native.String.{len}
use gstdbot.Common.{
  ℕ, ◌+◌, ◌≤◌, ◌<◌, String, eq_refl, true, some, arith, ◌≡◌, refl, ◌∙◌, Option-cases, inl, inr,
  eq_of_some, lt→ltb, le→leb, subst,
}
use gstdbot.Sovereign.Envelope.{Json}
use gstdbot.Sovereign.Json.{is_hex, js_length}
use gstdbot.Sovereign.Crypto.{
  ◌>>=◌, Primitives, Header, passed, max_envelope_bytes, max_future_skew_ms, unsigned_body,
  verify_envelope, check_form, member,
}
use gstdbot.Sovereign.Signing.{NodeIdentity, signed_json, base_header, sign_envelope}

-- What makes a signed header well formed, at the time of the check.
pub record IsWellFormed (h : Header) (now : ℕ) : Type 0 where
  pub kind : js_length h.kind ≤ 64
  pub signer : is_hex 64 h.signer ≡ true
  pub sig : is_hex 128 h.sig ≡ true
  pub nonce : is_hex 16 h.nonce ≡ true
  pub positive : 0 < h.ts
  pub not_ahead : h.ts ≤ now + max_future_skew_ms

check_form-signed_json :
    (h : Header) (payload : Json) (id : String) (now : ℕ)
    → IsWellFormed h now
    → check_form (signed_json h payload id) now ≡ passed h
unfolding check_form member
check_form-signed_json h payload id now w =
    rw
      (
        le→leb (js_length h.kind) 64 w.kind,
        w.signer,
        w.sig,
        w.nonce,
        lt→ltb 0 h.ts w.positive,
        le→leb h.ts (now + max_future_skew_ms) w.not_ahead,
      )
      refl

check_body-passes :
    (prim : Primitives) (h : Header) (payload : Json) (body : String) (now : ℕ)
    → IsWellFormed h now
    → unsigned_body h payload ≡ some body
    → len body ≤ max_envelope_bytes
    → prim.ed_verify (prim.sha256_hex body) h.signer h.sig ≡ some true
    → verify_envelope prim (signed_json h payload (prim.sha256_hex body)) now ≡ passed h
unfolding verify_envelope member
check_body-passes prim h payload body now w written small verified =
    rw
      (
        check_form-signed_json h payload (prim.sha256_hex body) now w,
        written,
        le→leb (len body) max_envelope_bytes small,
        eq_refl (prim.sha256_hex body),
      )
      (rw (◌>>=◌, verified) refl)

-- The signature is no part of what is signed.
unsigned_body_sig :
    (identity : NodeIdentity) (kind : String) (payload : Json) (ts : ℕ) (nonce sig : String)
    → unsigned_body (base_header identity kind ts nonce sig) payload
      ≡ unsigned_body (base_header identity kind ts nonce "") payload
unfolding unsigned_body
unsigned_body_sig identity kind payload ts nonce sig = refl

-- What Ed25519 gives: the public key has 32 bytes, a signature has 64, and it verifies.
pub record IsSigner (prim : Primitives) (identity : NodeIdentity) : Type 0 where
  pub public_key : is_hex 64 identity.node_id ≡ true
  pub signature : (id : String) → is_hex 128 (identity.ed_sign id) ≡ true
  pub verifies :
      (id : String) → prim.ed_verify id identity.node_id (identity.ed_sign id) ≡ some true

-- An envelope passes the check with a header that holds what was signed.
pub record IsSigned (prim : Primitives) (identity : NodeIdentity) (kind : String) (payload : Json)
    (ts : ℕ) (nonce : String) (e : Json) (now : ℕ) : Type 0 where
  pub header : Header
  pub verified : verify_envelope prim e now ≡ passed header
  pub kind_kept : header.kind ≡ kind
  pub signer_kept : header.signer ≡ identity.node_id
  pub ts_kept : header.ts ≡ ts
  pub nonce_kept : header.nonce ≡ nonce
  pub payload_kept : member e "payload" ≡ payload

-- What a node signs, any node's check passes, with the type, the payload, the signer, the time and the
-- nonce that were signed: where the type has at most 64 units, the nonce is of 16 hexadecimal digits,
-- the time is positive and not more than the allowed skew ahead of the checking clock, and what is
-- signed is at most 256 KiB.
pub verify_envelope-sign_envelope :
    (prim : Primitives) (identity : NodeIdentity) (kind : String) (payload : Json) (ts : ℕ)
    (nonce : String) (now : ℕ) {e : Json}
    → IsSigner prim identity
    → js_length kind ≤ 64
    → is_hex 16 nonce ≡ true
    → 0 < ts
    → ts ≤ now + max_future_skew_ms
    → ((body : String)
        → unsigned_body (base_header identity kind ts nonce "") payload ≡ some body
        → len body ≤ max_envelope_bytes)
    → sign_envelope prim identity kind payload ts nonce ≡ some e
    → IsSigned prim identity kind payload ts nonce e now
unfolding sign_envelope member
verify_envelope-sign_envelope prim identity kind payload ts nonce now {e} s short hex pos near small
      made =
    elim (Option-cases (unsigned_body (base_header identity kind ts nonce "") payload)) [
      | inl none_made ↦ absurd (ground (arith, made, none_made))
      | inr (body, written) ↦
          let id = prim.sha256_hex body in
          let h = base_header identity kind ts nonce (identity.ed_sign id) in
          let w : IsWellFormed h now = record {
            kind = short;
            signer = s.public_key;
            sig = s.signature id;
            nonce = hex;
            positive = pos;
            not_ahead = near;
          } in
          let same : signed_json h payload id ≡ e =
            eq_of_some (rw (sign_envelope, written) at made) in
          let good : IsSigned prim identity kind payload ts nonce (signed_json h payload id) now =
            record {
              header = h;
              verified =
                  check_body-passes prim h payload body now w
                    (unsigned_body_sig identity kind payload ts nonce (identity.ed_sign id)
                      ∙ written)
                    (small body written) (s.verifies id);
              kind_kept = refl;
              signer_kept = refl;
              ts_kept = refl;
              nonce_kept = refl;
              payload_kept = refl;
            } in
          subst (λ x. IsSigned prim identity kind payload ts nonce x now) same good
    ]
