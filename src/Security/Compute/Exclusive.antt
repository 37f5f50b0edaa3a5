-- ===== src/Security/Compute/Exclusive.antt =====
-- src/security/compute.ts: what every step keeps.
use gstdbot.Common.{
  ℕ, ◌≤◌, ltb, ◌||◌, true, false, arith, ◌≡◌, refl, subst, inl, inr, Bool-cases, eq_of_some, ◌⊎◌,
}
use gstdbot.Security.Compute.{
  Compute, capacity_of, compute_capacity_available, Step, enters, leaves, acquires, releases,
}

-- No more computations than the capacity, and none during maintenance.
abbrev IsExclusive : ℕ → Compute → Type 0
IsExclusive configured c =
    (c.active ≤ capacity_of configured) × ((c.maintenance ≡ false) ⊎ (c.active ≡ 0))

Step-IsExclusive :
    (configured : ℕ) {c d : Compute}
    → Step configured c d
    → IsExclusive configured c
    → IsExclusive configured d
Step-IsExclusive configured (enters {c} {d} h) k =
    elim (Bool-cases (compute_capacity_available configured c)) [
      | inl e ↦
          subst (IsExclusive configured) (eq_of_some (rw e at h)) (ground arith, inl (ground arith))
      | inr e ↦ absurd (ground arith)
    ]
Step-IsExclusive configured (leaves {c} p) (k, inl m) = (omega arith, inl m)
Step-IsExclusive configured (leaves {c} p) (k, inr m) = absurd (omega arith)
Step-IsExclusive configured (acquires {c} {d} h) k =
    elim (Bool-cases (ltb 0 c.active || c.maintenance)) [
      | inl e ↦ absurd (ground arith)
      | inr e ↦ subst (IsExclusive configured) (eq_of_some (rw e at h)) (k.0, inr (ground arith))
    ]
Step-IsExclusive configured (releases {c} true) k = k
Step-IsExclusive configured (releases {c} false) k = (k.0, inl refl)
