-- ===== src/Security/LoginLimit/Lockout.antt =====
-- src/security/login-limit.ts: five failures of an address lock it out.
use gstdbot.Common.{
  lookup, remove, lookup-remove_other, lookup-put_other, lookup-put, ℕ, suc, ◌+◌, ◌-◌, ◌<◌, ◌≤◌,
  ltb, leb, String, ◌==◌, eq_iff, Bool, true, false, if◌then◌else◌, Option, none, some, List, [],
  ◌∷◌, arith, ◌≡◌, refl, sym, ◌∙◌, subst, ◌⊎◌, inl, inr, Bool-cases, Option-cases,
}
use gstdbot.Security.LoginLimit.Lookups.{NotOver, lookup-check, lookup-current, current-found}
use gstdbot.Security.LoginLimit.{
  Attempt, Attempts, current, Allowance, refuses, grants, check, failed, record_attempt, Event,
  checks, records, step, run,
}

-- The failures of an address among some events.
abbrev pub failures : String → List (ℕ × Event) → ℕ
failures ip [] = 0
failures ip ((now, checks k) ∷ es) = failures ip es
failures ip ((now, records k true) ∷ es) = failures ip es
failures ip ((now, records k false) ∷ es) = if k == ip then suc (failures ip es) else failures ip es

abbrev pub succeeds : String → Event → Bool
succeeds ip (checks k) = false
succeeds ip (records k true) = k == ip
succeeds ip (records k false) = false

-- The time is within 15 minutes of the start.
abbrev pub IsWithin : ℕ → ℕ → Type 0
IsWithin start now = (start ≤ now) × (now < start + 900000)

-- All the events are, and none is a success of the address.
abbrev pub AreWithin : ℕ → String → List (ℕ × Event) → Type 0
AreWithin start ip [] = Unit
AreWithin start ip ((now, e) ∷ es) =
    IsWithin start now × (succeeds ip e ≡ false) × AreWithin start ip es

-- What the entry of an address is after that many failures.
abbrev IsCounted : ℕ → ℕ → Option Attempt → Type 0
IsCounted start n none = n ≡ 0
IsCounted start n (some a) =
    (a.count ≡ n)
    × (0 < n)
    × (start ≤ a.first_failure_at)
    × ((n < 5) × (a.locked_until ≡ 0) ⊎ (5 ≤ n) × (start + 900000 ≤ a.locked_until))

IsCounted-NotOver :
    (start now n : ℕ) (o : Option Attempt)
    → IsWithin start now
    → IsCounted start n o
    → NotOver now o
IsCounted-NotOver start now n none w c = tt
IsCounted-NotOver start now n (some a) (low, high) (x, y, z, inl (u, v)) = ground arith
IsCounted-NotOver start now n (some a) (low, high) (x, y, z, inr (u, v)) = ground arith

failed-IsCounted :
    (start now n : ℕ) (o : Option Attempt)
    → IsWithin start now
    → IsCounted start n o
    → IsCounted start (suc n) (some (failed now o))
failed-IsCounted start now n none (low, high) c =
    (omega arith, omega arith, low, inl (omega arith, refl))
failed-IsCounted start now n (some a) (low, high) (x, y, z, d) =
    elim (Bool-cases (leb 5 (suc a.count))) [
      | inl e ↦ rw e (omega arith, omega arith, z, inr (ground arith, omega arith))
      | inr e ↦ rw e (
        omega arith,
        omega arith,
        z,
        elim d [ inl (u, v) ↦ inl (ground arith, v) | inr (u, v) ↦ absurd (ground arith) ],
      )
    ]

step-IsCounted :
    (start now n : ℕ) (ip : String) (e : Event) (es : List (ℕ × Event)) (l : Attempts)
    → IsWithin start now
    → succeeds ip e ≡ false
    → IsCounted start n (lookup ip l)
    → IsCounted start (failures ip ((now, e) ∷ []) + n) (lookup ip (step now e l))
unfolding record_attempt
step-IsCounted start now n ip (checks k) es l w s c =
    let live = IsCounted-NotOver start now n (lookup ip l) w c in
    subst (λ m. IsCounted start m (lookup ip (check now k l).1)) (omega arith)
      (subst (IsCounted start n) (sym (lookup-check now ip k l live)) c)
step-IsCounted start now n ip (records k true) es l w s c =
    subst (λ m. IsCounted start m (lookup ip (remove k l))) (omega arith)
      (subst (IsCounted start n) (sym (lookup-remove_other ip k l s)) c)
step-IsCounted start now n ip (records k false) es l w s c =
    let live = IsCounted-NotOver start now n (lookup ip l) w c in
    elim (Bool-cases (k == ip)) [
      | inr e ↦ rw e (
          subst (λ m. IsCounted start m (lookup ip (record_attempt now k false l))) (omega arith)
            (subst (IsCounted start n)
              (sym (
                lookup-put_other ip k (failed now (current now k l).0) (current now k l).1 e
                ∙ lookup-current now ip k l live))
              c))
      | inl e ↦
          let same : ip ≡ k = sym ((eq_iff k ip).0 e) in
          let found = current-found now ip l live in
          let grown : IsCounted start (suc n) (lookup ip (record_attempt now ip false l)) =
            subst (IsCounted start (suc n))
              (sym (lookup-put ip (failed now (current now ip l).0) (current now ip l).1))
              (failed-IsCounted start now n (current now ip l).0 w
                (subst (IsCounted start n) (sym found) c)) in
          rw e (
            subst (λ m. IsCounted start m (lookup ip (record_attempt now k false l))) (omega arith)
              (subst (λ x. IsCounted start (suc n) (lookup ip (record_attempt now x false l))) same
                grown))
    ]

failures-cons :
    (ip : String) (x : ℕ × Event) (es : List (ℕ × Event))
    → failures ip (x ∷ es) ≡ failures ip (x ∷ []) + failures ip es
failures-cons ip (now, checks k) es = omega arith
failures-cons ip (now, records k true) es = omega arith
failures-cons ip (now, records k false) es = elim (Bool-cases (k == ip)) [
  | inl e ↦ rw e (omega arith)
  | inr e ↦ rw e (omega arith)
]

run-IsCounted :
    (start n : ℕ) (ip : String) (es : List (ℕ × Event)) (l : Attempts)
    → AreWithin start ip es
    → IsCounted start n (lookup ip l)
    → IsCounted start (failures ip es + n) (lookup ip (run es l))
unfolding run
run-IsCounted start n ip [] l a c = subst (λ m. IsCounted start m (lookup ip l)) (omega arith) c
run-IsCounted start n ip ((now, e) ∷ es) l (w, s, a) c =
    subst (λ m. IsCounted start m (lookup ip (run es (step now e l))))
      (omega (arith, failures-cons ip (now, e) es))
      (run-IsCounted start (failures ip ((now, e) ∷ []) + n) ip es (step now e l) a
        (step-IsCounted start now n ip e es l w s c))

-- What `check` answers after n failures.
abbrev pub Allows : ℕ → Allowance × Attempts → Type 0
Allows n r = (r.0.allowed ≡ ltb n 5) × (r.0.remaining ≡ 5 - n)

counted-allowance :
    (start now n : ℕ) (a : Attempt) (after : Attempts)
    → IsWithin start now
    → IsCounted start n (some a)
    → Allows n (
        if ltb now a.locked_until
        then (refuses (a.locked_until - now), after)
        else (grants (some a), after))
counted-allowance start now n a after (low, high) (x, y, z, inl (u, v)) =
    let open_now : ltb now a.locked_until ≡ false = ground arith in
    rw open_now (ground arith, omega arith)
counted-allowance start now n a after (low, high) (x, y, z, inr (u, v)) =
    let locked : ltb now a.locked_until ≡ true = ground arith in
    rw locked (ground arith, omega arith)

-- Of an address that has no entry at the start, let any events of any addresses come within 15
-- minutes, of which n, at least one, are failures of this address and none is a success of it. A check
-- of the address within the same 15 minutes then allows it exactly where n is less than 5, with 5 - n
-- attempts remaining (none where it is refused).
pub check-failures :
    (start now : ℕ) (ip : String) (es : List (ℕ × Event)) (l : Attempts)
    → lookup ip l ≡ none
    → AreWithin start ip es
    → IsWithin start now
    → 0 < failures ip es
    → Allows (failures ip es) (check now ip (run es l))
unfolding check
check-failures start now ip es l fresh a w some_failed =
    let c : IsCounted start (failures ip es) (lookup ip (run es l)) =
      subst (λ m. IsCounted start m (lookup ip (run es l))) (omega arith)
        (run-IsCounted start 0 ip es l a (subst (IsCounted start 0) (sym fresh) refl)) in
    let found =
      current-found now ip (run es l)
        (IsCounted-NotOver start now (failures ip es) (lookup ip (run es l)) w c) in
    elim (Option-cases (lookup ip (run es l))) [
      | inl e ↦
          let n : failures ip es ≡ 0 = subst (IsCounted start (failures ip es)) e c in
          absurd (omega arith)
      | inr (x, e) ↦
          let there : (current now ip (run es l)).0 ≡ some x = found ∙ e in
          rw (check, there)
            (counted-allowance start now (failures ip es) x (current now ip (run es l)).1 w
              (subst (IsCounted start (failures ip es)) e c))
    ]
