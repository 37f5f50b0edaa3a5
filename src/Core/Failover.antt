-- ===== src/Core/Failover.antt =====
-- src/core/model-failover.ts: the class ModelFailover. Times are milliseconds, and `now` is what
-- `Date.now()` gives; events that nobody in the class reads are left out.
pub mod Orders
pub mod Runs
pub mod Limits
mod Tests
use gstdbot.Common.{
  ℕ, suc, ◌+◌, ◌-◌, ◌%◌, ltb, eqb, String, ◌==◌, Bool, true, false, not, ◌&&◌, if◌then◌else◌,
  Option, none, some, List, [], ◌∷◌, ◌++◌, map, length, any, find, drop, head?,
}

pub record ModelRecord : Type 0 where
  pub id : String
  pub latencies : List ℕ
  pub successes : ℕ
  pub failures : ℕ
  pub last_error : Option String
  pub last_error_at : Option ℕ
  pub last_success_at : Option ℕ
  pub cooldown_until : Option ℕ

abbrev pub max_latencies : ℕ
max_latencies = 20

abbrev pub cooldown_ms : ℕ
cooldown_ms = 30000

abbrev pub consecutive_fail_threshold : ℕ
consecutive_fail_threshold = 3

abbrev pub new_record : String → ModelRecord
new_record id = record {
  id = id;
  latencies = [];
  successes = 0;
  failures = 0;
  last_error = none;
  last_error_at = none;
  last_success_at = none;
  cooldown_until = none;
}

-- `models` is the Map in insertion order.
pub record Failover : Type 0 where
  pub models : List ModelRecord
  pub chain : List String

abbrev pub lookup : List ModelRecord → String → Option ModelRecord
lookup ms id = find (λ (m : ModelRecord). m.id == id) ms

-- `Map.set` by the record's own id.
unfoldable pub set_model : ModelRecord → List ModelRecord → List ModelRecord
set_model m [] = m ∷ []
set_model m (x ∷ xs) = if x.id == m.id then m ∷ xs else x ∷ set_model m xs

unfoldable pub add_all : List String → List ModelRecord → List ModelRecord
add_all [] ms = ms
add_all (id ∷ ids) ms = add_all ids (set_model (new_record id) ms)

-- The constructor.
abbrev pub new_failover : List String → Failover
new_failover model_chain = record { models = add_all model_chain []; chain = model_chain }

abbrev pub pick_record :
    List ModelRecord → String → Option ModelRecord → ModelRecord × List ModelRecord
pick_record ms id (some m) = (m, ms)
pick_record ms id none = (new_record id, ms ++ new_record id ∷ [])

-- The record of a model, and the models with it.
abbrev pub get_or_create : List ModelRecord → String → ModelRecord × List ModelRecord
get_or_create ms id = pick_record ms id (lookup ms id)

abbrev pub is_available : ℕ → ModelRecord → Bool
is_available now m = elim m.cooldown_until [ none ↦ true | some t ↦ not (ltb now t) ]

abbrev pub known_available : ℕ → List ModelRecord → String → Bool
known_available now ms id = elim (lookup ms id) [ none ↦ false | some m ↦ is_available now m ]

-- An empty text is no preference.
abbrev pub preference : Option String → Option String
preference none = none
preference (some s) = if s == "" then none else some s

abbrev pub available_in_chain : ℕ → Failover → Option String
available_in_chain now f = find (known_available now f.models) f.chain

abbrev pub or_first : Failover → Option String → Option String
or_first f (some id) = some id
or_first f none = head? f.chain

unfoldable pub get_best_model : ℕ → Failover → Option String → Option String
get_best_model now f preferred =
    let fallback = or_first f (available_in_chain now f) in
    elim (preference preferred) [
      | none ↦ fallback
      | some id ↦ if known_available now f.models id then some id else fallback
    ]

-- `latencies.slice(-20)` where there are more.
abbrev pub last_latencies : List ℕ → List ℕ
last_latencies l = if ltb max_latencies (length l) then drop (length l - max_latencies) l else l

unfoldable pub record_success : ℕ → Failover → String → ℕ → Failover
record_success now f id latency =
    let (m, ms) = get_or_create f.models id in
    record f {
      models =
          set_model
            (record m {
              successes = suc m.successes;
              last_success_at = some now;
              cooldown_until = none;
              latencies = last_latencies (m.latencies ++ latency ∷ []);
            })
            ms;
    }

-- No success, or none in the last minute; before the first minute there is no window.
abbrev pub no_recent_success : ℕ → ModelRecord → Bool
no_recent_success now m = elim m.last_success_at [ none ↦ true | some t ↦ ltb (t + 60000) now ]

abbrev pub failed : ℕ → String → ModelRecord → ModelRecord
failed now error m = record m {
  failures = suc m.failures;
  last_error = some error;
  last_error_at = some now;
}

abbrev pub cooled : ℕ → ModelRecord → ModelRecord
cooled now m =
    if no_recent_success now m && eqb (m.failures % consecutive_fail_threshold) 0
    then record m { cooldown_until = some (now + cooldown_ms) }
    else m

unfoldable pub record_failure : ℕ → Failover → String → String → Failover
record_failure now f id error =
    let (m, ms) = get_or_create f.models id in
    record f { models = set_model (cooled now (failed now error m)) ms }

abbrev pub listed : List String → String → Bool
listed l id = any (λ x. x == id) l

-- The second loop of `getFailoverOrder`: available models of the chain, which it may create.
unfoldable pub add_available :
    ℕ → List String → List ModelRecord → List String → List String × List ModelRecord
add_available now [] ms order = (order, ms)
add_available now (id ∷ ids) ms order =
    let (m, ms') = get_or_create ms id in
    let skip = add_available now ids ms order in
    let unavailable = add_available now ids ms' order in
    let take_it = add_available now ids ms' (order ++ id ∷ []) in
    if listed order id then skip else if is_available now m then take_it else unavailable

-- The third loop: the others of the chain.
unfoldable pub add_rest : List String → List String → List String
add_rest [] order = order
add_rest (id ∷ ids) order =
    let skip = add_rest ids order in
    let take_it = add_rest ids (order ++ id ∷ []) in if listed order id then skip else take_it

-- The preferred model, if it is available.
abbrev pub order_start : ℕ → List ModelRecord → Option String → List String × List ModelRecord
order_start now ms none = ([], ms)
order_start now ms (some id) =
    let (m, ms') = get_or_create ms id in (if is_available now m then id ∷ [] else [], ms')

unfoldable pub get_failover_order : ℕ → Failover → Option String → List String × Failover
get_failover_order now f preferred =
    let (start, ms) = order_start now f.models (preference preferred) in
    let (order, ms') = add_available now f.chain ms start in
    (add_rest f.chain order, record f { models = ms' })

-- What a call of a model does: it returns at a time, or throws at a time.
pub data Attempt {ℓ} (A : Type ℓ) : Type ℓ where
  returns : A → ℕ → Attempt A
  throws : String → ℕ → Attempt A

pub record Success {ℓ} (A : Type ℓ) : Type ℓ where
  pub result : A
  pub model : String
  pub latency_ms : ℕ

-- The loop of `executeWithFailover` over the order; `fn id start` is the call of a model that starts
-- at a time. `none` is the error that all models failed.
module _ {ℓ} {A : Type ℓ} (fn : String → ℕ → Attempt A) where
  unfoldable pub try_all : List String → List String → ℕ → Failover → Option (Success A) × Failover
  try_all [] tried now f = (none, f)
  try_all (id ∷ ids) tried now f =
      let skip = try_all ids tried now f in
      if listed tried id then skip else elim (fn id now) [
        | returns a end ↦ (
          some (record { result = a; model = id; latency_ms = end - now }),
          record_success end f id (end - now),
        )
        | throws error end ↦ try_all ids (id ∷ tried) end (record_failure end f id error)
      ]

  unfoldable pub execute_with_failover :
      ℕ → Failover → Option String → Option (Success A) × Failover
  execute_with_failover now f preferred =
      let (order, f') = get_failover_order now f preferred in try_all order [] now f'
