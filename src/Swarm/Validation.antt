-- ===== src/Swarm/Validation.antt =====
-- src/swarm/task-validation.ts: the checks of inference and memory tasks. For a number that is not a natural one, whether it lies between 0 and 2 is a parameter.
pub mod Inputs
mod Tests
use Prim.Native.String.{◌++◌, len}
use gstdbot.Common.{
  ◌>>=◌, ◌>>◌, require, ℕ, zero, suc, ◌+◌, ◌*◌, ltb, leb, eqb, String, ◌==◌, Bool, true, false, not,
  ◌&&◌, ◌||◌, if◌then◌else◌, when, Option, none, some, List, [], ◌∷◌, all, length,
}
use gstdbot.Sovereign.Envelope.{
  Json, undefined, null, number, other_number, text, array, object, Items, nil, item,
}
use gstdbot.Sovereign.Json.{codes, js_length, quote, decimal}
use gstdbot.Sovereign.Crypto.{member, text_of}

is_identifier_code : ℕ → Bool
is_identifier_code c =
    leb b'A' c && leb c b'Z'
    || leb b'a' c && leb c b'z'
    || leb b'0' c && leb c b'9'
    || eqb c b'_'
    || eqb c b'-'

-- `/^[A-Za-z0-9_-]{1,128}$/`
unfoldable pub is_valid_finetune_identifier : Json → Bool
unfolding is_identifier_code
is_valid_finetune_identifier v = elim (text_of v) [
  | none ↦ false
  | some s ↦
      leb 1 (length (codes s)) && leb (length (codes s)) 128 && all is_identifier_code (codes s)
]

pub data MessageRole : Type 0 where
  system user assistant : MessageRole

pub record Message : Type 0 where
  pub role : MessageRole
  pub content : String

-- `temperature` is a number, as JSON.
pub record InferenceTaskInput : Type 0 where
  pub model : String
  pub messages : List Message
  pub max_tokens : ℕ
  pub temperature : Json

pub data MemoryTaskInput : Type 0 where
  embedding : String → String → MemoryTaskInput
  verification : String → Option String → MemoryTaskInput
  storage : String → String → MemoryTaskInput

abbrev pub max_memory_task_text_bytes : ℕ
max_memory_task_text_bytes = 32 * 1024

abbrev pub max_memory_task_key_bytes : ℕ
max_memory_task_key_bytes = 256

abbrev pub is_object : Json → Bool
is_object v = elim v [ object _ ↦ true | _ ↦ false ]

-- `a ?? b`
abbrev pub or_else : Json → Json → Json
or_else undefined b = b
or_else null b = b
or_else a b = a

-- `task.payload`, or no fields where it is not an object.
abbrev payload_of : Json → Json
payload_of task = let p = member task "payload" in if is_object p then p else undefined

abbrev text_within : ℕ → Json → Option String
text_within n v = elim (text_of v) [ none ↦ none | some s ↦ when (leb (len s) n) s ]

abbrev key_within : Json → Option String
key_within v = elim (text_of v) [
  | none ↦ none
  | some s ↦ when (not (eqb (js_length s) 0) && leb (len s) max_memory_task_key_bytes) s
]

validate_embedding : Json → Option MemoryTaskInput
validate_embedding task = do
  id ← key_within (member task "id")
  t ←
      text_within max_memory_task_text_bytes
        (or_else (or_else (member (payload_of task) "text") (member task "prompt")) (text ""))
  some (embedding id t)

-- A missing answer is allowed, another that is not a text is not.
abbrev expected_answer : Json → Option (Option String)
expected_answer undefined = some none
expected_answer v = elim (text_within 8000 v) [ none ↦ none | some s ↦ some (some s) ]

validate_verification : Json → Option MemoryTaskInput
validate_verification task = do
  prompt ← text_within 8000 (or_else (member task "prompt") (text ""))
  answer ← expected_answer (member (payload_of task) "expected_answer")
  some (verification prompt answer)

validate_storage : Json → Option MemoryTaskInput
validate_storage task = do
  key ← key_within (or_else (member (payload_of task) "key") (member task "id"))
  value ←
      text_within max_memory_task_text_bytes (or_else (member (payload_of task) "value") (text ""))
  some (storage key value)

abbrev validate_kind : String → Json → Option MemoryTaskInput
validate_kind kind task =
    if kind == "embedding"
    then validate_embedding task
    else if kind == "verification"
    then validate_verification task
    else if kind == "storage"
    then validate_storage task
    else none

unfoldable pub validate_memory_task_input : Json → Option MemoryTaskInput
unfolding validate_embedding validate_verification validate_storage
validate_memory_task_input task =
    if is_object task
    then elim (text_of (member task "type")) [ none ↦ none | some kind ↦ validate_kind kind task ]
    else none

abbrev pub role_name : MessageRole → String
role_name system = "system"
role_name user = "user"
role_name assistant = "assistant"

abbrev pub role_named : String → Option MessageRole
role_named s =
    if s == "system"
    then some system
    else if s == "user"
    then some user
    else if s == "assistant"
    then some assistant
    else none

abbrev pub role_of : Json → Option MessageRole
role_of v = elim (text_of v) [ none ↦ none | some s ↦ role_named s ]

abbrev pub content_of : Json → Option String
content_of v = elim (text_of v) [ none ↦ none | some s ↦ when (leb (js_length s) 8000) s ]

abbrev pub max_total_chars : ℕ
max_total_chars = 32 * 1024

-- One message of the loop, with the characters before it.
unfoldable pub validate_message : Json → Option Message
validate_message v = do
  require (is_object v)
  role ← role_of (member v "role")
  content ← content_of (member v "content")
  some (record { role = role; content = content })

abbrev pub with_message : ℕ → Option Message → Option (List Message) → Option (List Message)
with_message total none rest = none
with_message total (some m) rest = elim rest [
  | none ↦ none
  | some ms ↦ if leb total max_total_chars then some (m ∷ ms) else none
]

abbrev pub chars_of : Option Message → ℕ
chars_of none = 0
chars_of (some m) = js_length m.content

unfoldable pub validate_messages : ℕ → Items → Option (List Message)
validate_messages total nil = some []
validate_messages total (item v rest) =
    let m = validate_message v in
    let total' = total + chars_of m in with_message total' m (validate_messages total' rest)

abbrev pub count_items : Items → ℕ
count_items nil = 0
count_items (item x xs) = suc (count_items xs)

abbrev pub items_of : Json → Option Items
items_of v = elim v [
  | array xs ↦ when (leb 1 (count_items xs) && leb (count_items xs) 32) xs
  | _ ↦ none
]

abbrev pub model_of : Json → Option String
model_of v = elim (text_of v) [
  | none ↦ none
  | some s ↦ when (not (eqb (js_length s) 0) && leb (js_length s) 100) s
]

abbrev pub max_tokens_of : Json → Option ℕ
max_tokens_of v = elim v [ number n ↦ when (leb 1 n && leb n 2048) n | _ ↦ none ]

message_text : Message → String
message_text m =
    "{\"role\":" ++ quote (role_name m.role) ++ ",\"content\":" ++ quote m.content ++ "}"

messages_text : List Message → String
unfolding message_text
messages_text [] = ""
messages_text (m ∷ []) = message_text m
messages_text (m ∷ n ∷ ms) = message_text m ++ "," ++ messages_text (n ∷ ms)

abbrev number_text : Json → String
number_text v = elim v [ number n ↦ decimal n | other_number s ↦ s | _ ↦ "null" ]

-- `JSON.stringify` of the input.
unfoldable pub input_text : InferenceTaskInput → String
unfolding messages_text
input_text i =
    "{\"model\":"
    ++ quote i.model
    ++ ",\"messages\":["
    ++ messages_text i.messages
    ++ "],\"max_tokens\":"
    ++ decimal i.max_tokens
    ++ ",\"temperature\":"
    ++ number_text i.temperature
    ++ "}"

abbrev pub max_input_bytes : ℕ
max_input_bytes = 32 * 1024

abbrev pub within_bytes : InferenceTaskInput → Option InferenceTaskInput
within_bytes i = when (leb (len (input_text i)) max_input_bytes) i

module _ (is_temperature : String → Bool) where
  abbrev pub temperature_of : Json → Option Json
  temperature_of (number n) = when (leb n 2) (number n)
  temperature_of (other_number s) = when (is_temperature s) (other_number s)
  temperature_of _ = none

  unfoldable pub validate_inference_task_input : Json → Option InferenceTaskInput
  validate_inference_task_input v = do
    require (is_object v)
    model ← model_of (member v "model")
    items ← items_of (member v "messages")
    max_tokens ← max_tokens_of (member v "max_tokens")
    temperature ← temperature_of (member v "temperature")
    messages ← validate_messages 0 items
    within_bytes (record {
      model = model;
      messages = messages;
      max_tokens = max_tokens;
      temperature = temperature;
    })
