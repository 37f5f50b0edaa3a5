-- ===== src/Training/OfflineQueue.antt =====
-- src/training/offline-queue.ts: the class OfflineQueue and its in-memory fallback. `now` is what
-- `Date.now()` gives; the values that `JSON.parse` gives are a parameter.
pub mod Claims
pub mod Priorities
mod Tests
use gstdbot.Common.{
  ℕ, suc, ◌+◌, String, ◌==◌, Bool, true, false, not, ◌&&◌, if◌then◌else◌, Option, none, some, List,
  [], ◌∷◌, map, length, select,
}

pub data TaskStatus : Type 0 where
  pending running done failed : TaskStatus

-- `attempted_at` is the property `last_attempt` that the fallback sets; `last_attempt` is the declared
-- `lastAttempt`.
pub record QueuedTask : Type 0 where
  pub id : String
  pub kind : String
  pub payload : String
  pub priority : ℕ
  pub created_at : ℕ
  pub attempts : ℕ
  pub last_attempt : Option ℕ
  pub attempted_at : Option ℕ
  pub status : TaskStatus
  pub result : Option String

-- What a caller enqueues, its payload as a text.
pub record NewTask : Type 0 where
  pub id : String
  pub kind : String
  pub payload : String
  pub priority : ℕ
  pub created_at : ℕ

abbrev pub is_pending : QueuedTask → Bool
is_pending t = elim t.status [ pending ↦ true | _ ↦ false ]

abbrev pub is_done : QueuedTask → Bool
is_done t = elim t.status [ done ↦ true | _ ↦ false ]

-- `!type || task.type === type`
abbrev pub of_kind : Option String → QueuedTask → Bool
of_kind none t = true
of_kind (some k) t = if k == "" then true else t.kind == k

-- The Map of the fallback in insertion order: `set`, which keeps the place of an id that is held.
unfoldable pub put : QueuedTask → List QueuedTask → List QueuedTask
put t [] = t ∷ []
put t (x ∷ l) = if x.id == t.id then t ∷ l else x ∷ put t l

abbrev pub matches : Option String → QueuedTask → Bool
matches kind t = is_pending t && of_kind kind t

abbrev pub claimed : ℕ → QueuedTask → QueuedTask
claimed now t = record t { status = running; attempts = suc t.attempts; attempted_at = some now }

-- The task that the loop of `dequeue` finds, as it then is, and the tasks.
unfoldable pub claim : ℕ → Option String → List QueuedTask → Option QueuedTask × List QueuedTask
claim now kind [] = (none, [])
claim now kind (t ∷ l) =
    let (found, rest) = claim now kind l in
    if matches kind t then (some (claimed now t), claimed now t ∷ l) else (found, t ∷ rest)

unfoldable pub set_status : String → TaskStatus → String → List QueuedTask → List QueuedTask
set_status id status result [] = []
set_status id status result (t ∷ l) =
    if t.id == id
    then record t { status = status; result = some result } ∷ l
    else t ∷ set_status id status result l

unfoldable pub delete : String → List QueuedTask → List QueuedTask
delete id [] = []
delete id (t ∷ l) = if t.id == id then l else t ∷ delete id l

abbrev pub count : Option String → List QueuedTask → ℕ
count kind l = length (select (matches kind) l)

abbrev pub get_done : List QueuedTask → List QueuedTask
get_done l = select is_done l

-- What `db` is: nothing before `init`, a better-sqlite3 database, which has none of the methods
-- that the class calls, or the fallback.
pub data Db : Type 0 where
  closed sqlite : Db
  memory : List QueuedTask → Db

abbrev pub init : Bool → Db
init has_sqlite = if has_sqlite then sqlite else memory []

abbrev pub new_queued : NewTask → QueuedTask
new_queued t = record {
  id = t.id;
  kind = t.kind;
  payload = t.payload;
  priority = t.priority;
  created_at = t.created_at;
  attempts = 0;
  last_attempt = none;
  attempted_at = none;
  status = pending;
  result = none;
}

-- The call of a method that a database does not have throws, and the error is dropped.
abbrev pub on_memory : (List QueuedTask → List QueuedTask) → Db → Db
on_memory f closed = closed
on_memory f sqlite = sqlite
on_memory f (memory l) = memory (f l)

abbrev pub enqueue : NewTask → Db → Db
enqueue t db = on_memory (put (new_queued t)) db

-- The payload of an empty text is `{}`; the task is claimed before its payload is parsed.
module _ {ℓ} {P : Type ℓ} (json_parse : String → Option P) where
  abbrev pub payload_of : QueuedTask → Option P
  payload_of t = json_parse (if t.payload == "" then "{}" else t.payload)

  abbrev pub with_payload : QueuedTask → Option P → Option (QueuedTask × P)
  with_payload t none = none
  with_payload t (some p) = some (t, p)

  abbrev pub handed : Option QueuedTask → Option (QueuedTask × P)
  handed none = none
  handed (some t) = with_payload t (payload_of t)

  abbrev pub dequeue : ℕ → Option String → Db → Option (QueuedTask × P) × Db
  dequeue now kind closed = (none, closed)
  dequeue now kind sqlite = (none, sqlite)
  dequeue now kind (memory l) = (handed (claim now kind l).0, memory (claim now kind l).1)

abbrev pub complete : String → String → Db → Db
complete id result db = on_memory (set_status id done result) db

abbrev pub fail : String → String → Db → Db
fail id error db = on_memory (set_status id failed error) db

abbrev pub pending_count : Option String → Db → ℕ
pending_count kind closed = 0
pending_count kind sqlite = 0
pending_count kind (memory l) = count kind l

abbrev pub pending_results : Db → List QueuedTask
pending_results closed = []
pending_results sqlite = []
pending_results (memory l) = get_done l

abbrev pub mark_result_submitted : String → Db → Db
mark_result_submitted id db = on_memory (delete id) db
