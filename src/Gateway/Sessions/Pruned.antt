-- ===== src/Gateway/Sessions/Pruned.antt =====
-- src/gateway/sessions.ts: what `prune` deletes and counts.
use gstdbot.Common.{
  ℕ, ◌+◌, length, not, List, [], ◌∷◌, select, filter_map, arith, ◌≡◌, refl, ap, inl, inr,
  Bool-cases,
}
use gstdbot.Gateway.Sessions.{Session, is_idle, prune}

-- `prune` leaves the sessions that are not idle, in their order.
prune-select :
    (ttl_ms now : ℕ) (l : List Session)
    → (prune ttl_ms now l).1 ≡ select (λ (s : Session). not (is_idle ttl_ms now s)) l
unfolding prune filter_map
prune-select ttl_ms now [] = refl
prune-select ttl_ms now (s ∷ l) = elim (Bool-cases (is_idle ttl_ms now s)) [
  | inl e ↦ rw e (prune-select ttl_ms now l)
  | inr e ↦ rw e (ap (λ z. s ∷ z) (prune-select ttl_ms now l))
]

-- What it returns is how many are gone.
prune-length :
    (ttl_ms now : ℕ) (l : List Session)
    → (prune ttl_ms now l).0 + length (prune ttl_ms now l).1 ≡ length l
unfolding prune
prune-length ttl_ms now [] = omega arith
prune-length ttl_ms now (s ∷ l) = elim (Bool-cases (is_idle ttl_ms now s)) [
  | inl e ↦ rw e (omega (arith, prune-length ttl_ms now l))
  | inr e ↦ rw e (omega (arith, prune-length ttl_ms now l))
]
