-- ===== src/Swarm/Reader/Tests.antt =====
-- src/swarm/task-validation.ts: the theorem applied to two chunks.
use gstdbot.Common.{ltb, ◌||◌, if◌then◌else◌, none, some, List, [], ◌∷◌, length, ◌≡◌}
use gstdbot.Swarm.Reader.{Bytes, too_long, read_bounded_response}
use gstdbot.Swarm.Reader.Bounded.{whole, read_bounded_response_lem}

abbrev chunks : List Bytes
chunks = (104 ∷ 105 ∷ []) ∷ (33 ∷ []) ∷ []

read_bounded_response_lem_example :
    read_bounded_response 4 (some 3) (some chunks)
    ≡ (if too_long 4 (some 3) || ltb 4 (length (whole chunks)) then none else some (whole chunks))
read_bounded_response_lem_example = read_bounded_response_lem 4 (some 3) chunks
