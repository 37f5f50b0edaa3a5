-- ===== src/Security/Compute.antt =====
-- src/security/compute.ts: the slots of running computations, and the maintenance that keeps new ones
-- out. The capacity is what the environment gives, already a number.
mod Exclusive
use gstdbot.Common.{
  ℕ, suc, ◌-◌, ◌<◌, ◌≡◌, max, min, ltb, eqb, Bool, true, false, not, ◌&&◌, ◌||◌, if◌then◌else◌,
  Option, none, some, List, [], ◌∷◌,
}

pub record Compute : Type 0 where
  pub active : ℕ
  pub maintenance : Bool

-- `max(1, min(4, trunc(configured) || 1))`.
abbrev pub capacity_of : ℕ → ℕ
capacity_of configured = max 1 (min 4 (if eqb configured 0 then 1 else configured))

abbrev pub compute_capacity_available : ℕ → Compute → Bool
compute_capacity_available configured c = not c.maintenance && ltb c.active (capacity_of configured)

-- The start of `withComputeSlot`, where `none` is its ComputeCapacityError, and its end.
abbrev pub enter_slot : ℕ → Compute → Option Compute
enter_slot configured c =
    if compute_capacity_available configured c
    then some (record c { active = suc c.active })
    else none

abbrev pub leave_slot : Compute → Compute
leave_slot c = record c { active = c.active - 1 }

abbrev pub acquire_compute_maintenance : Compute → Option Compute
acquire_compute_maintenance c =
    if ltb 0 c.active || c.maintenance then none else some (record c { maintenance = true })

-- The release that `acquireComputeMaintenance` returns: it works the first time.
abbrev pub release_maintenance : Bool → Compute → Bool × Compute
release_maintenance released c =
    if not released then (true, record c { maintenance = false }) else (released, c)

pub data Step (configured : ℕ) : Compute → Compute → Type 0 where
  enters : {c d : Compute} → enter_slot configured c ≡ some d → Step configured c d
  leaves : {c : Compute} → 0 < c.active → Step configured c (leave_slot c)
  acquires : {c d : Compute} → acquire_compute_maintenance c ≡ some d → Step configured c d
  releases : {c : Compute} (released : Bool) → Step configured c (release_maintenance released c).1
