-- ===== src/Swarm/Validation/Tests.antt =====
-- src/swarm/task-validation.ts: the theorem applied to a task of two messages.
use gstdbot.Common.{String, Bool, true, some, [], ◌∷◌, ◌≡◌, refl}
use gstdbot.Sovereign.Envelope.{Json, number, text, array, object, nil, item, end, field}
use gstdbot.Sovereign.Json.{js_length, quote, decimal}
use gstdbot.Sovereign.Crypto.{member}
use gstdbot.Swarm.Validation.{
  system, user, InferenceTaskInput, validate_message, validate_messages, input_text,
  validate_inference_task_input,
}
use gstdbot.Swarm.Validation.Inputs.{IsChecked, validate_inference_task_input-IsChecked}

abbrev between_0_2 : String → Bool
between_0_2 s = true

abbrev message : String → String → Json
message role content = object (field "role" (text role) (field "content" (text content) end))

abbrev task : Json
task = object (
    field "model" (text "qwen") (
      field "messages"
        (array (item (message "system" "be brief") (item (message "user" "hello") nil)))
        (field "max_tokens" (number 64) (field "temperature" (number 1) end))))

abbrev input : InferenceTaskInput
input = record {
  model = "qwen";
  messages =
      record { role = system; content = "be brief" }
      ∷ record { role = user; content = "hello" }
      ∷ [];
  max_tokens = 64;
  temperature = number 1;
}

task-input : validate_inference_task_input between_0_2 task ≡ some input
unfolding validate_inference_task_input validate_messages validate_message input_text member
    js_length quote decimal
task-input = refl

validate_inference_task_input-IsChecked_example : IsChecked task input
validate_inference_task_input-IsChecked_example =
    validate_inference_task_input-IsChecked between_0_2 task input task-input
