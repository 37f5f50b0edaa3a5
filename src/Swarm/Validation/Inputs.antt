-- ===== src/Swarm/Validation/Inputs.antt =====
-- src/swarm/task-validation.ts: what an inference task that passes the checks is like.
use Prim.Native.String.{len}
use gstdbot.Common.{
  require, bind-eq-some, ℕ, suc, ◌+◌, ◌≤◌, leb, eqb, not, ◌&&◌, String, Bool, true, Option, none,
  some, List, [], ◌∷◌, length, when, when-eq-some, arith, ◌≡◌, refl, sym, ap, subst, ◌∙◌, inl, inr,
  eq_of_some, Option-cases, Bool-cases,
}
use gstdbot.Sovereign.Envelope.{
  Json, undefined, null, boolean, number, other_number, not_finite, text, object, array, Items, nil,
  item,
}
use gstdbot.Sovereign.Json.{js_length}
use gstdbot.Sovereign.Crypto.{member, text_of}
use gstdbot.Swarm.Validation.{
  is_object, Message, InferenceTaskInput, validate_message, validate_messages, with_message,
  chars_of, count_items, max_total_chars, max_input_bytes, input_text, items_of, model_of,
  max_tokens_of, temperature_of, content_of, role_of, validate_inference_task_input,
}

pub total_chars : List Message → ℕ
total_chars [] = 0
total_chars (m ∷ ms) = js_length m.content + total_chars ms

-- The messages of a task are those that its items name, one for each and in their order.
pub data AreMessages : Items → List Message → Type 0 where
  none_left : AreMessages nil []
  next :
      {v : Json} {rest : Items} {m : Message} {ms : List Message}
      → text_of (member v "content") ≡ some m.content
      → role_of (member v "role") ≡ some m.role
      → js_length m.content ≤ 8000
      → AreMessages rest ms
      → AreMessages (item v rest) (m ∷ ms)

AreMessages-length :
    {xs : Items} {ms : List Message} → AreMessages xs ms → length ms ≡ count_items xs
AreMessages-length none_left = refl
AreMessages-length (next c r l k) = ap suc (AreMessages-length k)

text_where_sound :
    (v : Json) (p : String → Bool) {s : String}
    → (elim (text_of v) [ none ↦ none | some t ↦ when (p t) t ]) ≡ some s
    → (text_of v ≡ some s) × (p s ≡ true)
text_where_sound v p {s} h = elim (Option-cases (text_of v)) [
  | inl e ↦ absurd (ground arith)
  | inr (t, e) ↦
      let (ok, same) = when-eq-some (p t) t (rw e at h) in
      (e ∙ ap some same, subst (λ x. p x ≡ true) same ok)
]

validate_message_sound :
    (v : Json) {m : Message}
    → validate_message v ≡ some m
    → (text_of (member v "content") ≡ some m.content)
      × (role_of (member v "role") ≡ some m.role)
      × (js_length m.content ≤ 8000)
unfolding validate_message
validate_message_sound v {m} h =
    let (_, _, h1) = bind-eq-some (require (is_object v)) _ h in
    let (role, is_role, h2) = bind-eq-some (role_of (member v "role")) _ h1 in
    let (content, is_content, h3) = bind-eq-some (content_of (member v "content")) _ h2 in
    let made : record { role = role; content = content } ≡ m = eq_of_some h3 in
    let (is_text, short) =
      text_where_sound (member v "content") (λ s. leb (js_length s) 8000) is_content in
    (
      is_text ∙ ap some (ap (λ (x : Message). x.content) made),
      is_role ∙ ap some (ap (λ (x : Message). x.role) made),
      subst (λ (x : Message). js_length x.content ≤ 8000) made (ground arith),
    )

with_message_sound :
    (total : ℕ) (o : Option Message) (rest : Option (List Message)) {ms : List Message}
    → with_message total o rest ≡ some ms
    → (m : Message) × (l : List Message) × (o ≡ some m)
      × (rest ≡ some l)
      × (total ≤ max_total_chars)
      × (ms ≡ m ∷ l)
with_message_sound total none rest h = absurd (ground arith)
with_message_sound total (some m) none h = absurd (ground arith)
with_message_sound total (some m) (some l) h = elim (Bool-cases (leb total max_total_chars)) [
  | inl e ↦ (m, l, refl, refl, ground arith, sym (eq_of_some (rw e at h)))
  | inr e ↦ absurd (ground arith)
]

validate_messages_sound :
    (total : ℕ) (xs : Items) {ms : List Message}
    → total ≤ max_total_chars
    → validate_messages total xs ≡ some ms
    → AreMessages xs ms × (total + total_chars ms ≤ max_total_chars)
unfolding validate_messages total_chars
validate_messages_sound total nil small h =
    subst (λ ms. AreMessages nil ms × (total + total_chars ms ≤ max_total_chars)) (eq_of_some h)
      (none_left, omega arith)
validate_messages_sound total (item v rest) {ms} small h =
    let (m, l, first, others, within, made) =
      with_message_sound (total + chars_of (validate_message v)) (validate_message v)
        (validate_messages (total + chars_of (validate_message v)) rest) h in
    let (content, role, short) = validate_message_sound v first in
    let chars : chars_of (validate_message v) ≡ js_length m.content = ap chars_of first in
    let (are, bounded) =
      validate_messages_sound (total + chars_of (validate_message v)) rest within others in
    subst (λ ms. AreMessages (item v rest) ms × (total + total_chars ms ≤ max_total_chars))
      (sym made) (next content role short are, omega (arith, bounded, chars))

-- What is certain of an inference task that passes.
pub record IsChecked (v : Json) (i : InferenceTaskInput) : Type 0 where
  pub of_model : text_of (member v "model") ≡ some i.model
  pub model_length : (1 ≤ js_length i.model) × (js_length i.model ≤ 100)
  pub items : Items
  pub listed : member v "messages" ≡ array items
  pub messages : AreMessages items i.messages
  pub message_count : (1 ≤ length i.messages) × (length i.messages ≤ 32)
  pub chars : total_chars i.messages ≤ 32768
  pub tokens : (1 ≤ i.max_tokens) × (i.max_tokens ≤ 2048)
  pub bytes : len (input_text i) ≤ 32768

items_of_sound :
    (v : Json) {xs : Items}
    → items_of v ≡ some xs
    → (v ≡ array xs) × (1 ≤ count_items xs) × (count_items xs ≤ 32)
items_of_sound (array ys) {xs} h =
    let (ok, same) = when-eq-some (leb 1 (count_items ys) && leb (count_items ys) 32) ys h in
    (
      ap array same,
      subst (λ zs. 1 ≤ count_items zs) same (ground arith),
      subst (λ zs. count_items zs ≤ 32) same (ground arith),
    )
items_of_sound undefined h = absurd (ground arith)
items_of_sound null h = absurd (ground arith)
items_of_sound (boolean b) h = absurd (ground arith)
items_of_sound (number n) h = absurd (ground arith)
items_of_sound (other_number s) h = absurd (ground arith)
items_of_sound not_finite h = absurd (ground arith)
items_of_sound (text s) h = absurd (ground arith)
items_of_sound (object fs) h = absurd (ground arith)

max_tokens_of_sound : (v : Json) {n : ℕ} → max_tokens_of v ≡ some n → (1 ≤ n) × (n ≤ 2048)
max_tokens_of_sound (number k) {n} h =
    let (ok, same) = when-eq-some (leb 1 k && leb k 2048) k h in
    (subst (λ z. 1 ≤ z) same (ground arith), subst (λ z. z ≤ 2048) same (ground arith))
max_tokens_of_sound undefined h = absurd (ground arith)
max_tokens_of_sound null h = absurd (ground arith)
max_tokens_of_sound (boolean b) h = absurd (ground arith)
max_tokens_of_sound (array xs) h = absurd (ground arith)
max_tokens_of_sound (other_number s) h = absurd (ground arith)
max_tokens_of_sound not_finite h = absurd (ground arith)
max_tokens_of_sound (text s) h = absurd (ground arith)
max_tokens_of_sound (object fs) h = absurd (ground arith)

module _ (is_temperature : String → Bool) where
  -- An inference task that passes has the model and the messages of the value it was made from, and
  -- keeps every bound: 1 to 100 units of model name, 1 to 32 messages, 8000 units in each and 32768
  -- in all, 1 to 2048 tokens, and 32768 bytes of JSON.
  pub validate_inference_task_input-IsChecked :
      (v : Json) (i : InferenceTaskInput)
      → validate_inference_task_input is_temperature v ≡ some i
      → IsChecked v i
  unfolding validate_inference_task_input
  validate_inference_task_input-IsChecked v i h =
      let (_, _, h1) = bind-eq-some (require (is_object v)) _ h in
      let (model, is_model, h2) = bind-eq-some (model_of (member v "model")) _ h1 in
      let (xs, are_items, h3) = bind-eq-some (items_of (member v "messages")) _ h2 in
      let (n, are_tokens, h4) = bind-eq-some (max_tokens_of (member v "max_tokens")) _ h3 in
      let (t, is_temp, h5) =
        bind-eq-some (temperature_of is_temperature (member v "temperature")) _ h4 in
      let (ms, are_messages, h6) = bind-eq-some (validate_messages 0 xs) _ h5 in
      let made : InferenceTaskInput = record {
        model = model;
        messages = ms;
        max_tokens = n;
        temperature = t;
      } in
      let (fits, same) = when-eq-some (leb (len (input_text made)) max_input_bytes) made h6 in
      let (is_text, lengths) =
        text_where_sound (member v "model")
          (λ s. not (eqb (js_length s) 0) && leb (js_length s) 100) is_model in
      let (listed, at_least, at_most) = items_of_sound (member v "messages") are_items in
      let (are, chars) = validate_messages_sound 0 xs (omega arith) are_messages in
      let many = AreMessages-length are in
      let small : len (input_text made) ≤ 32768 = ground arith in
      subst (IsChecked v) same (record {
        of_model = is_text;
        model_length = (ground arith, ground arith);
        items = xs;
        listed = listed;
        messages = are;
        message_count = (omega (arith, many, at_least), omega (arith, many, at_most));
        chars = omega (arith, chars);
        tokens = max_tokens_of_sound (member v "max_tokens") are_tokens;
        bytes = small;
      })
