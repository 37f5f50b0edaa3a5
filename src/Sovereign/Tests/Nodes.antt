-- ===== src/Sovereign/Tests/Nodes.antt =====
-- src/sovereign/node.ts: the theorems on the duties of a node, applied to a concrete board.
use gstdbot.Common.{ℕ, String, Option, some, [], ◌∷◌, ◌++◌}
use gstdbot.Sovereign.Envelope.{Envelope, Payload, Role, fetch, verify, announce}
use gstdbot.Sovereign.Board.{Board}
use gstdbot.Sovereign.Node.Duties.Starts.{verifier_duty}
use gstdbot.Sovereign.Node.Duties.Due.{AreDue, verifier_duty-AreDue}
use gstdbot.Sovereign.Tests.Demo.{of}
use gstdbot.Sovereign.Tests.Bundles.{worker, voter}
use gstdbot.Sovereign.Tests.Signed.{offered}
use gstdbot.Sovereign.Tests.Voters.{waiting}

abbrev hostname : String → Option String
hostname url = some url

abbrev clock : ℕ → ℕ
clock n = 20

abbrev tells : String → Role → Envelope Payload
tells node role =
    of
      (announce (record {
        roles = role ∷ [];
        adapters = "npm-registry" ∷ [];
        price_nano = 0;
        http_url = some node;
      }))
      node 6 node

-- A board with a task, and a node that announced itself for it.
abbrev announced : Board
announced = record { objects = offered.objects ++ tells worker fetch ∷ [] }

verifier_duty-AreDue_example :
    AreDue voter waiting [] (verifier_duty voter (verify ∷ []) waiting [])
verifier_duty-AreDue_example = verifier_duty-AreDue voter (verify ∷ []) waiting []
