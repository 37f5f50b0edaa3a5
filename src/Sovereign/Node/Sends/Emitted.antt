-- ===== src/Sovereign/Node/Sends/Emitted.antt =====
-- src/sovereign/node.ts, crypto.ts and board.ts: what a node signs gets on its own board.
use Prim.Native.String.{len}
use gstdbot.Common.{
  ℕ, ◌≤◌, ◌<◌, String, true, false, Option, none, some, arith, ◌≡◌, refl, sym, ◌∙◌, ap, subst,
  length, eq_of_some,
}
use gstdbot.Sovereign.Envelope.{Json, Payload}
use gstdbot.Sovereign.Json.{is_hex, js_length}
use gstdbot.Sovereign.Crypto.{
  Primitives, Header, passed, verify_envelope, member, max_envelope_bytes, unsigned_body,
}
use gstdbot.Sovereign.Signing.{NodeIdentity, signed_json, sign_envelope, base_header}
use gstdbot.Sovereign.Signing.Verified.{IsSigner, verify_envelope-sign_envelope}
use gstdbot.Sovereign.Schema.{schema_of, schema}
use gstdbot.Sovereign.Board.{Board, has}
use gstdbot.Sovereign.Ingest.{
  ingest, add, Outcome, not_added, added, envelope_of, id_of, check_content,
}
use gstdbot.Sovereign.Node.Objects.{store}
use gstdbot.Sovereign.Node.Sends.{Sending, emit}

-- What a node can send: its body is written, is small, and is not on the board yet.
pub record IsSendable (prim : Primitives) (identity : NodeIdentity) (kind : String) (payload : Json)
    (at_ms : ℕ) (nonce : String) (b : Board) : Type 0 where
  pub short : js_length kind ≤ 64
  pub hex : is_hex 16 nonce ≡ true
  pub positive : 0 < at_ms
  pub body : String
  pub written : unsigned_body (base_header identity kind at_ms nonce "") payload ≡ some body
  pub small : len body ≤ max_envelope_bytes
  pub new : has b (prim.sha256_hex body) ≡ false

module _ (prim : Primitives) where
  ingest-added :
      (b : Board) (e : Json) (now : ℕ) (h : Header) (parse : Json → Option Payload) (p : Payload)
      → verify_envelope prim e now ≡ passed h
      → schema_of h.kind ≡ schema parse
      → parse (member e "payload") ≡ some p
      → check_content prim p ≡ none
      → has b (id_of e) ≡ false
      → ingest prim b e now ≡ (add b (envelope_of h (id_of e) p), added)
  unfolding ingest
  ingest-added b e now h parse p verified known parsed sound new =
      rw (ingest, verified, new, known, parsed)
        (subst
          (λ c.
            Path (Board × Outcome)
              (elim c [
                | none ↦ (add b (envelope_of h (id_of e) p), added)
                | some r ↦ (b, not_added r)
              ])
              (add b (envelope_of h (id_of e) p), added))
          (sym sound) refl)

-- What `emit` leaves on the node's own board.
pub record IsEmitted (identity : NodeIdentity) (at_ms : ℕ) (p : Payload) (b b' : Board)
    : Type 0 where
  pub header : Header
  pub id : String
  pub signer : header.signer ≡ identity.node_id
  pub ts : header.ts ≡ at_ms
  pub board : b' ≡ add b (envelope_of header id p)

emit-stored :
    (prim : Primitives) (identity : NodeIdentity) (at_ms : ℕ) (nonces : ℕ → String) (kind : String)
    (payload : Json) (s : Sending) {e : Json} {b : Board}
    → s.thrown ≡ false
    → sign_envelope prim identity kind payload at_ms (nonces (length s.sent)) ≡ some e
    → ingest prim s.objects.board e at_ms ≡ (b, added)
    → (emit prim identity at_ms nonces kind payload s).objects.board ≡ b
unfolding emit store
emit-stored prim identity at_ms nonces kind payload s going made stored =
    rw (going, made, store, stored) refl

pub emit-added :
    (prim : Primitives) (identity : NodeIdentity) (at_ms : ℕ) (nonces : ℕ → String) (kind : String)
    (payload : Json) (s : Sending) (parse : Json → Option Payload) (p : Payload)
    → IsSigner prim identity
    → IsSendable prim identity kind payload at_ms (nonces (length s.sent)) s.objects.board
    → s.thrown ≡ false
    → schema_of kind ≡ schema parse
    → parse payload ≡ some p
    → check_content prim p ≡ none
    → IsEmitted identity at_ms p s.objects.board
        (emit prim identity at_ms nonces kind payload s).objects.board
unfolding sign_envelope member
emit-added prim identity at_ms nonces kind payload s parse p signer w going known parsed sound =
    let nonce = nonces (length s.sent) in
    let id = prim.sha256_hex w.body in
    let h = base_header identity kind at_ms nonce (identity.ed_sign id) in
    let e = signed_json h payload id in
    let made : sign_envelope prim identity kind payload at_ms nonce ≡ some e =
      rw (sign_envelope, w.written) refl in
    let signed =
      verify_envelope-sign_envelope prim identity kind payload at_ms nonce at_ms signer w.short
        w.hex w.positive (omega arith)
        (λ c k. subst (λ x. len x ≤ max_envelope_bytes) (eq_of_some (sym w.written ∙ k)) w.small)
        made in
    let stored : ingest prim s.objects.board e at_ms
        ≡ (add s.objects.board (envelope_of signed.header id p), added) =
      ingest-added prim s.objects.board e at_ms signed.header parse p signed.verified
        (ap schema_of signed.kind_kept ∙ known) parsed sound w.new in
    record {
      header = signed.header;
      id = id;
      signer = signed.signer_kept;
      ts = signed.ts_kept;
      board = emit-stored prim identity at_ms nonces kind payload s going made stored;
    }
