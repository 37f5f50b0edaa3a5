-- ===== src/Training/OfflineQueue/Tests.antt =====
-- src/training/offline-queue.ts: the theorems applied to a queue of two tasks.
use gstdbot.Common.{
  ℕ, String, ◌==◌, if◌then◌else◌, Option, none, some, List, [], ◌∷◌, map, ◌≡◌, refl,
}
use gstdbot.Training.OfflineQueue.{QueuedTask, NewTask, memory, new_queued, claimed, claim, dequeue}
use gstdbot.Training.OfflineQueue.Claims.{IsClaim, dequeue-IsClaim}
use gstdbot.Training.OfflineQueue.Priorities.{with_priority, mapped, claim-with_priority}

abbrev task : String → ℕ → NewTask
task id priority = record {
  id = id;
  kind = "train";
  payload = "{}";
  priority = priority;
  created_at = 1;
}

abbrev waiting : List QueuedTask
waiting = new_queued (task "a" 1) ∷ new_queued (task "b" 9) ∷ []

abbrev after : List QueuedTask
after = claimed 5 (new_queued (task "a" 1)) ∷ new_queued (task "b" 9) ∷ []

abbrev parse : String → Option String
parse s = some s

handed_out :
    dequeue parse 5 (some "train") (memory waiting)
    ≡ (some (claimed 5 (new_queued (task "a" 1)), "{}"), memory after)
unfolding claim
handed_out = refl

dequeue-IsClaim_example :
    IsClaim 5 (some "train") waiting after (claimed 5 (new_queued (task "a" 1)))
dequeue-IsClaim_example =
    dequeue-IsClaim parse 5 (some "train") waiting after (claimed 5 (new_queued (task "a" 1))) "{}"
      handed_out

abbrev by_name : String → ℕ
by_name id = if id == "a" then 0 else 7

claim-with_priority_example :
    ((claim 5 none (map (with_priority by_name) waiting)).0
      ≡ mapped (with_priority by_name) (claim 5 none waiting).0)
    × ((claim 5 none (map (with_priority by_name) waiting)).1
        ≡ map (with_priority by_name) (claim 5 none waiting).1)
claim-with_priority_example = claim-with_priority by_name 5 none waiting
