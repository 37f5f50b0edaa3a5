-- ===== src/Sovereign/Tests/Boards.antt =====
-- src/sovereign/board.ts: the theorems on the board, applied to a concrete one.
use mathlib.Core.List.Permᴰ
use gstdbot.Common.{
  length, none, ◌≡◌, refl, some, [], ◌∷◌, Memᴰ, sort, insert_by, str_lt, filter_map, by_rank,
}
use gstdbot.Sovereign.Envelope.{
  Envelope, Payload, Attest, Verdict, result, as_manifest, as_lease, as_result, as_attest,
  as_finalize,
}
use gstdbot.Sovereign.Board.{
  Board, TaskStatus, evaluate, manifest, get, leases, results, attests, finalizes, tally, accepts,
  accepted_as, decided, content_hash_of, collect, is_coordinator, failover_ms, epoch_of,
}
use gstdbot.Sovereign.Board.Order.{evaluate-perm}
use gstdbot.Sovereign.Board.Accepted.{IsProven, evaluate-IsProven}
use gstdbot.Sovereign.Board.Entities.{history, observed}
use gstdbot.Sovereign.Board.Chained.{IsChain, observations_in, history-IsChain}
use gstdbot.Sovereign.Tests.Demo.{prim, of, demo_envelopes, demo, demo-IdsAgree, typed, result_env}

pub demo-accepted : (evaluate demo "t" 20).status ≡ TaskStatus.accepted
unfolding evaluate decided manifest get sort insert_by str_lt leases results attests finalizes tally
    accepts accepted_as content_hash_of collect is_coordinator failover_ms epoch_of as_manifest
    as_lease as_result as_attest as_finalize by_rank filter_map
demo-accepted = refl

evaluate-IsProven_example : IsProven demo "t" (evaluate demo "t" 20)
evaluate-IsProven_example = evaluate-IsProven demo "t" 20 demo-IdsAgree demo-accepted

-- `demo` with the two first envelopes the other way round.
abbrev shuffled : Board
shuffled = record { objects = elim demo_envelopes [ a ∷ b ∷ l ↦ b ∷ a ∷ l | _ ↦ [] ] }

evaluate-perm_example : evaluate demo "t" 20 ≡ evaluate shuffled "t" 20
evaluate-perm_example =
    evaluate-perm {b = demo} {c = shuffled} (Permᴰ.swap refl refl) demo-IdsAgree "t" 20

demo-results : Memᴰ result_env (results demo "t")
unfolding manifest get as_manifest as_lease as_result results leases sort insert_by by_rank epoch_of
    is_coordinator failover_ms str_lt filter_map
demo-results = Memᴰ.head refl

abbrev vote_env : Envelope Attest
vote_env =
    typed
      (record {
        task_id = "t";
        result_id = "r";
        verdict = Verdict.match;
        observed_hash = some "h";
        reason = "";
      })
      "v2" 16 "a2"

demo-attests : Memᴰ vote_env (attests demo "t" "r")
unfolding manifest get as_manifest as_lease as_attest attests leases collect sort insert_by by_rank
    is_coordinator failover_ms str_lt filter_map
demo-attests = Memᴰ.tail (Memᴰ.head refl)

abbrev result_object : Envelope Payload
result_object = of (result result_env.payload) "w" 14 "r"

demo-get : get demo "r" ≡ some result_object
unfolding get
demo-get = refl

history-IsChain_example :
    IsChain prim 0 none (history prim demo "pkg" 20)
    × (observations_in (history prim demo "pkg" 20) ≡ length (observed demo "pkg" 20))
history-IsChain_example = history-IsChain prim demo "pkg" 20
