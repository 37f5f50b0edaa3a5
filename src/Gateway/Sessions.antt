-- ===== src/Gateway/Sessions.antt =====
-- src/gateway/sessions.ts: the class SessionManager. `now` is what `Date.now()` gives, and the id of a
-- new session what `uuid()` does.
mod Pruned
use gstdbot.Common.{
  ℕ, suc, ◌-◌, ltb, length, String, ◌==◌, Bool, not, if◌then◌else◌, Option, none, some, List, [],
  ◌∷◌, find, select,
}

pub data Role : Type 0 where
  system user assistant : Role

pub record Message : Type 0 where
  pub role : Role
  pub content : String

pub record Session : Type 0 where
  pub id : String
  pub client_id : String
  pub model : String
  pub history : List Message
  pub system_prompt : String
  pub created_at : ℕ
  pub last_activity : ℕ

-- The Map in insertion order; `set` keeps the place of an id that is held.
unfoldable pub set_session : Session → List Session → List Session
set_session s [] = s ∷ []
set_session s (x ∷ l) = if x.id == s.id then s ∷ l else x ∷ set_session s l

-- The default system prompt is a text of the program's.
abbrev pub new_session : String → ℕ → String → String → Session
new_session prompt now id client = record {
  id = id;
  client_id = client;
  model = "auto";
  history = [];
  system_prompt = prompt;
  created_at = now;
  last_activity = now;
}

abbrev pub create : String → ℕ → String → String → List Session → Session × List Session
create prompt now id client l =
    (new_session prompt now id client, set_session (new_session prompt now id client) l)

abbrev pub get : String → List Session → Option Session
get id l = find (λ (s : Session). s.id == id) l

abbrev pub close : String → List Session → List Session
close id l = select (λ (s : Session). not (s.id == id)) l

abbrev pub count : List Session → ℕ
count l = length l

abbrev pub is_idle : ℕ → ℕ → Session → Bool
is_idle ttl_ms now s = ltb ttl_ms (now - s.last_activity)

-- The loop of `prune`: how many are deleted, and those that are left.
unfoldable pub prune : ℕ → ℕ → List Session → ℕ × List Session
prune ttl_ms now [] = (0, [])
prune ttl_ms now (s ∷ l) =
    let (pruned, left) = prune ttl_ms now l in
    if is_idle ttl_ms now s then (suc pruned, left) else (pruned, s ∷ left)
