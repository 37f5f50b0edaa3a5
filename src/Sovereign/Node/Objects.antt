-- ===== src/Sovereign/Node/Objects.antt =====
-- src/sovereign/node.ts: the file of objects, a line of JSON for each. `JSON.parse` of what
-- `JSON.stringify` wrote gives it back.
pub mod Restored
use gstdbot.Common.{
  ℕ, Bool, true, false, List, [], ◌∷◌, ◌++◌, Piece, JsonLines, read, append_json, no_lines,
}
use gstdbot.Sovereign.Envelope.{Json}
use gstdbot.Sovereign.Crypto.{Primitives}
use gstdbot.Sovereign.Board.{Board}
use gstdbot.Sovereign.Ingest.Deliver.{empty}
use gstdbot.Sovereign.Ingest.{ingest, Outcome, added, throws, not_added}

pub record Objects : Type 0 where
  pub board : Board
  pub file : JsonLines Json

abbrev pub no_objects : Objects
no_objects = record { board = empty; file = no_lines }

abbrev pub is_added : Outcome → Bool
is_added added = true
is_added throws = false
is_added (not_added r) = false

abbrev pub append_object : Json → Objects → Objects
append_object e o = record o { file = append_json e o.file }

-- A crash while a line is written: a piece of it is at the end of the file, without a newline.
abbrev pub crashed : Piece Json → Objects → Objects
crashed p o = record o { file = record o.file { tail = o.file.tail ++ p ∷ [] } }

module _ (prim : Primitives) where
  abbrev pub write_added : Json → Board × Outcome → Objects → Objects
  write_added e (b, added) o = record (append_object e o) { board = b }
  write_added e (b, throws) o = record o { board = b }
  write_added e (b, not_added r) o = record o { board = b }

  -- What `ingest` adds is appended to the file.
  unfoldable pub store : ℕ → Json → Objects → Objects
  store now e o = write_added e (ingest prim o.board e now) o

  -- The loop of the constructor, over the lines that parse.
  unfoldable pub restore : ℕ → List Json → Board → Board
  restore now [] b = b
  restore now (e ∷ es) b = restore now es (ingest prim b e now).0

  -- A node that starts at a time, with the file that is there.
  abbrev pub restarted : ℕ → Objects → Objects
  restarted now o = record o { board = restore now (read o.file) empty }

  unfoldable pub store_all : List (ℕ × Json) → Objects → Objects
  store_all [] o = o
  store_all ((now, e) ∷ es) o = store_all es (store now e o)
