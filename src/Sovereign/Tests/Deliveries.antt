-- ===== src/Sovereign/Tests/Deliveries.antt =====
-- src/sovereign/board.ts: the theorems on deliveries, applied to concrete envelopes.
use gstdbot.Common.{
  ℕ, String, ◌≡◌, refl, sym, ◌∙◌, ◌↔◌, ◌⊎◌, inl, inr, none, some, List, [], ◌∷◌, Memᴰ, Memᴰ-cons,
  Memᴰ-singleton, sort, insert_by, str_lt, filter_map,
}
use gstdbot.Sovereign.Envelope.{
  Json, number, text, object, end, field, Envelope, Payload, Decision, finalize,
}
use gstdbot.Sovereign.Json.{is_hex, js_length, canonicalize, decimal, quote}
use gstdbot.Sovereign.Schema.{schema_of, parse_finalize}
use gstdbot.Sovereign.Crypto.{Header, unsigned_body, check_form, verify_envelope, member}
use gstdbot.Sovereign.Ingest.{check_content}
use gstdbot.Sovereign.Ingest.Puts.{AllAgree}
use gstdbot.Sovereign.Ingest.Deliver.{admit, admitted, deliver, empty, deliver-evaluate}
use gstdbot.Sovereign.Board.{evaluate}
use gstdbot.Sovereign.Tests.Demo.{prim}

abbrev hash : String
hash = "0000000000000000000000000000000000000000000000000000000000000000"

abbrev header : ℕ → Header
header ts = record {
  kind = "task.finalize";
  signer = hash;
  sig =
      "00000000000000000000000000000000000000000000000000000000000000000000000000000000000000000000000000000000000000000000000000000000";
  nonce = "0000000000000000";
  ts = ts;
}

abbrev payload : Json
payload = object (
    field "taskId" (text hash)
      (field "decision" (text "rejected") (field "reason" (text "none") end)))

abbrev id_at : ℕ → String
id_at ts = elim (unsigned_body (header ts) payload) [ none ↦ "" | some s ↦ s ]

-- A finalization as it comes over the network.
abbrev message : ℕ → Json
message ts = object (
    field "v" (number 1) (
      field "type" (text "task.finalize") (
        field "payload" payload (
          field "signer" (text hash) (
            field "ts" (number ts) (
              field "nonce" (text "0000000000000000")
                (field "id" (text (id_at ts)) (field "sig" (text (header ts).sig) end))))))))

abbrev kept : ℕ → Envelope Payload
kept ts = record {
  payload =
      finalize (record {
        task_id = hash;
        decision = Decision.rejected;
        reason = "none";
        result_id = none;
      });
  signer = hash;
  ts = ts;
  nonce = "0000000000000000";
  id = id_at ts;
  sig = (header ts).sig;
}

-- One node hears a message and a text that is no envelope, another the message twice.
abbrev heard : List (ℕ × Json)
heard = (9, message 5) ∷ (9, text "junk") ∷ []

abbrev heard_twice : List (ℕ × Json)
heard_twice = (7, message 5) ∷ (8, message 5) ∷ []

heard-admitted : admitted prim heard ≡ kept 5 ∷ []
unfolding admit verify_envelope check_form unsigned_body member canonicalize sort insert_by str_lt
    is_hex js_length decimal quote schema_of parse_finalize check_content filter_map
heard-admitted = refl

heard_twice-admitted : admitted prim heard_twice ≡ kept 5 ∷ kept 5 ∷ []
unfolding admit verify_envelope check_form unsigned_body member canonicalize sort insert_by str_lt
    is_hex js_length decimal quote schema_of parse_finalize check_content filter_map
heard_twice-admitted = refl

only_kept : {x : Envelope Payload} → Memᴰ x [] ⊎ Memᴰ x (admitted prim heard) → x ≡ kept 5
only_kept (inl m) = elim m [ ]
only_kept (inr m) = Memᴰ-singleton (rw heard-admitted at m)

heard-AllAgree : AllAgree [] (admitted prim heard)
heard-AllAgree x y m n same = only_kept m ∙ sym (only_kept n)

same_kept :
    (x : Envelope Payload) → Memᴰ x (admitted prim heard) ↔ Memᴰ x (admitted prim heard_twice)
same_kept x = (
  λ m. rw heard_twice-admitted (Memᴰ.head (only_kept (inr m))),
  λ m. rw heard-admitted (
      Memᴰ.head
        (elim (Memᴰ-cons (rw heard_twice-admitted at m)) [ inl e ↦ e | inr k ↦ Memᴰ-singleton k ])),
)

deliver-evaluate_example :
    evaluate (deliver prim empty heard) hash 9 ≡ evaluate (deliver prim empty heard_twice) hash 9
deliver-evaluate_example = deliver-evaluate prim heard heard_twice hash 9 heard-AllAgree same_kept
