-- ===== src/Swarm/Reader.antt =====
-- src/swarm/task-validation.ts: `readBoundedResponseText`, on the chunks that the body's reader gives.
pub mod Bounded
mod Tests
use gstdbot.Common.{
  ℕ, ◌+◌, ltb, Bool, false, if◌then◌else◌, Option, none, some, List, [], ◌∷◌, ◌++◌, length,
}

-- What `readBoundedResponseText` reads: the declared length, if it is a finite number, and the chunks
-- of the body, if there is one; an error is `none`.
abbrev pub too_long : ℕ → Option ℕ → Bool
too_long max none = false
too_long max (some n) = ltb max n

abbrev pub Bytes : Type 0
Bytes = List ℕ

unfoldable pub read_chunks : ℕ → ℕ → List Bytes → Option Bytes
read_chunks max read [] = some []
read_chunks max read (c ∷ cs) =
    let total = read + length c in
    let more = read_chunks max total cs in
    if ltb max total then none else elim more [ none ↦ none | some rest ↦ some (c ++ rest) ]

unfoldable pub read_bounded_response : ℕ → Option ℕ → Option (List Bytes) → Option Bytes
read_bounded_response max declared body =
    if too_long max declared
    then none
    else elim body [ none ↦ some [] | some chunks ↦ read_chunks max 0 chunks ]
