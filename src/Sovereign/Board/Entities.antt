-- ===== src/Sovereign/Board/Entities.antt =====
-- src/sovereign/board.ts: what the board says of entities, of announced nodes and of a coordinator's
-- last activity.
use gstdbot.Common.{
  ℕ, suc, ltb, eqb, String, ◌==◌, Bool, true, false, ◌&&◌, ◌||◌, if◌then◌else◌, Option, none, some,
  List, [], ◌∷◌, ◌++◌, map, filter_map, any, sort, by_rank, str_lt,
}
use gstdbot.Sovereign.Envelope.{Envelope, Announce, DataVersion, as_announce, as_result}
use gstdbot.Sovereign.Crypto.{Primitives}
use gstdbot.Sovereign.Board.Store.{Board, get, manifest, of_type, task_ids}
use gstdbot.Sovereign.Board.Views.{leases, finalizes}
use gstdbot.Sovereign.Board.Verdict.{TaskStatus, Evaluation, evaluate}

pub record Activity : Type 0 where
  pub ts : ℕ
  pub signer : String

abbrev pub activity_of : {P : Type 0} → Envelope P → Activity
activity_of e = record { ts = e.ts; signer = e.signer }

-- The loop of `lastCoordinator`: later, or as late and the publisher's.
unfoldable pub latest_of : String → Activity → List Activity → Activity
latest_of publisher last [] = last
latest_of publisher last (e ∷ es) =
    if ltb last.ts e.ts || eqb e.ts last.ts && e.signer == publisher
    then latest_of publisher e es
    else latest_of publisher last es

unfoldable pub last_coordinator : Board → String → Option Activity
last_coordinator b task = elim (manifest b task) [
  | none ↦ none
  | some m ↦ some (
      latest_of m.signer (record { ts = m.ts; signer = m.signer })
        (map activity_of (leases b task) ++ map activity_of (finalizes b task)))
]

-- The Map of announcements by signer, in insertion order.
unfoldable pub put_announce :
    Envelope Announce → List (Envelope Announce) → List (Envelope Announce)
put_announce e [] = e ∷ []
put_announce e (cur ∷ l) =
    if cur.signer == e.signer
    then (if ltb cur.ts e.ts || eqb e.ts cur.ts && str_lt cur.id e.id then e ∷ l else cur ∷ l)
    else cur ∷ put_announce e l

unfoldable pub put_announces :
    List (Envelope Announce) → List (Envelope Announce) → List (Envelope Announce)
put_announces latest [] = latest
put_announces latest (e ∷ es) = put_announces (put_announce e latest) es

abbrev pub announces : Board → List (Envelope Announce)
announces b = put_announces [] (of_type as_announce b)

-- `worker` is what the evaluation says, which is there where it is accepted.
pub record HistoryEntry : Type 0 where
  pub seq : ℕ
  pub task_id : String
  pub result_id : String
  pub content_hash : String
  pub prev_chain_hash : Option String
  pub chain_hash : String
  pub fetched_at : ℕ
  pub source : String
  pub observations : ℕ
  pub worker : Option String
  pub verifiers : List String

pub record Observed : Type 0 where
  pub task_id : String
  pub result_id : String
  pub ev : Evaluation
  pub v : DataVersion

abbrev pub has_accepted_status : Evaluation → Bool
has_accepted_status ev = elim ev.status [ TaskStatus.accepted ↦ true | _ ↦ false ]

unfoldable pub content_of : Board → String → Option DataVersion
content_of b result_id = elim (get b result_id) [
  | none ↦ none
  | some e ↦ elim (as_result e) [ none ↦ none | some r ↦ some r.payload.version ]
]

-- An accepted evaluation with its result.
abbrev pub observe_accepted : Board → String → Evaluation → Option Observed
observe_accepted b task ev =
    if has_accepted_status ev
    then elim ev.result_id [
      | none ↦ none
      | some id ↦ elim (content_of b id) [
        | none ↦ none
        | some v ↦ some (record { task_id = task; result_id = id; ev = ev; v = v })
      ]
    ]
    else none

unfoldable pub observe : Board → String → ℕ → String → Option Observed
observe b entity now task = elim (manifest b task) [
  | none ↦ none
  | some m ↦
      if m.payload.entity == entity then observe_accepted b task (evaluate b task now) else none
]

unfoldable pub observed : Board → String → ℕ → List Observed
observed b entity now =
    sort (by_rank (λ (o : Observed). o.v.fetched_at) (λ (o : Observed). o.task_id))
      (filter_map (observe b entity now) (task_ids b))

abbrev pub prev_text : Option String → String
prev_text none = ""
prev_text (some h) = h

module _ (prim : Primitives) where
  abbrev pub chain_hash_of : Option String → String → String
  chain_hash_of prev hash =
      prim.sha256_hex (Prim.Native.String.◌++◌ (prev_text prev) (Prim.Native.String.◌++◌ "|" hash))

  -- The entry that is pushed on `size` others.
  abbrev pub new_entry : ℕ → Option String → Observed → HistoryEntry
  new_entry size prev o = record {
    seq = suc size;
    task_id = o.task_id;
    result_id = o.result_id;
    content_hash = o.v.content_hash;
    prev_chain_hash = prev;
    chain_hash = chain_hash_of prev o.v.content_hash;
    fetched_at = o.v.fetched_at;
    source = o.v.source;
    observations = 1;
    worker = o.ev.worker;
    verifiers = o.ev.match_verifiers;
  }

  -- The loop of `history` once an entry is there: `last` is the last of `size` entries.
  unfoldable pub chain : ℕ → HistoryEntry → List Observed → List HistoryEntry
  chain size last [] = last ∷ []
  chain size last (o ∷ os) =
      if last.content_hash == o.v.content_hash
      then chain size (record last { observations = suc last.observations }) os
      else last ∷ chain (suc size) (new_entry size (some last.chain_hash) o) os

  abbrev pub link : List Observed → List HistoryEntry
  link [] = []
  link (o ∷ os) = chain 1 (new_entry 0 none o) os

  unfoldable pub history : Board → String → ℕ → List HistoryEntry
  history b entity now = link (observed b entity now)

-- The Set of entities, in insertion order.
abbrev pub add_entity : String → List String → List String
add_entity s l = if any (λ x. x == s) l then l else l ++ s ∷ []

abbrev pub entity_of : Board → ℕ → String → Option String
entity_of b now task =
    if has_accepted_status (evaluate b task now)
    then elim (manifest b task) [ none ↦ none | some m ↦ some m.payload.entity ]
    else none

unfoldable pub add_entities : List String → List String → List String
add_entities set [] = set
add_entities set (s ∷ l) = add_entities (add_entity s set) l

unfoldable pub entities : Board → ℕ → List String
entities b now = sort str_lt (add_entities [] (filter_map (entity_of b now) (task_ids b)))
