-- ===== src/Training/OfflineQueue/Priorities.antt =====
-- src/training/offline-queue.ts: what the fallback does with priorities.
use gstdbot.Common.{
  ℕ, String, Option, none, some, List, ◌∷◌, [], map, ◌≡◌, refl, ap, inl, inr, Bool-cases,
}
use gstdbot.Training.OfflineQueue.{QueuedTask, matches, claim}

abbrev pub with_priority : (String → ℕ) → QueuedTask → QueuedTask
with_priority priority t = record t { priority = priority t.id }

matches-with_priority :
    (priority : String → ℕ) (kind : Option String) (t : QueuedTask)
    → matches kind (with_priority priority t) ≡ matches kind t
matches-with_priority priority none t = refl
matches-with_priority priority (some k) t = refl

abbrev pub mapped : (QueuedTask → QueuedTask) → Option QueuedTask → Option QueuedTask
mapped f none = none
mapped f (some t) = some (f t)

-- Which task is claimed does not depend on the priorities: with others, it is the same task.
pub claim-with_priority :
    (priority : String → ℕ) (now : ℕ) (kind : Option String) (l : List QueuedTask)
    → ((claim now kind (map (with_priority priority) l)).0
        ≡ mapped (with_priority priority) (claim now kind l).0)
      × ((claim now kind (map (with_priority priority) l)).1
          ≡ map (with_priority priority) (claim now kind l).1)
unfolding claim
claim-with_priority priority now kind [] = (refl, refl)
claim-with_priority priority now kind (t ∷ l) =
    let same = matches-with_priority priority kind t in
    let (found, rest) = claim-with_priority priority now kind l in
    elim (Bool-cases (matches kind t)) [
      | inl e ↦ rw (same, e) (refl, refl)
      | inr e ↦ rw (same, e) (found, ap (λ k. with_priority priority t ∷ k) rest)
    ]
