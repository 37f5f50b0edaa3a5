-- ===== src/Security/LoginLimit/Lookups.antt =====
-- src/security/login-limit.ts: what the operations leave of the entry of an address.
use gstdbot.Common.{
  lookup, lookup-remove_other, ℕ, ltb, leb, String, ◌==◌, eq_iff, false, Option, none, some, List,
  [], ◌∷◌, map, length, ◌≡◌, refl, sym, ◌∙◌, subst, inl, inr, Bool-cases, Option-cases, if_cases,
}
use gstdbot.Security.LoginLimit.{
  Attempt, Attempts, is_over, current, sweep, Allowance, check_new, check,
}

abbrev pub NotOver : ℕ → Option Attempt → Type 0
NotOver now none = Unit
NotOver now (some a) = is_over now a ≡ false

pub lookup-current :
    (now : ℕ) (ip k : String) (l : Attempts)
    → NotOver now (lookup ip l)
    → lookup ip (current now k l).1 ≡ lookup ip l
unfolding current
lookup-current now ip k l h = elim (Option-cases (lookup k l)) [
  | inl e ↦ rw (current, e) refl
  | inr (a, e) ↦ elim (Bool-cases (is_over now a)) [
    | inr f ↦ rw (current, e, f) refl
    | inl f ↦ elim (Bool-cases (k == ip)) [
      | inr g ↦ rw (current, e, f) (lookup-remove_other ip k l g)
      | inl g ↦
          let there : lookup ip l ≡ some a =
            subst (λ x. lookup x l ≡ some a) ((eq_iff k ip).0 g) e in
          let live : is_over now a ≡ false = subst (NotOver now) there h in absurd (cc)
    ]
  ]
]

lookup-sweep :
    (now : ℕ) (ip : String) (ks : List String) (l : Attempts)
    → NotOver now (lookup ip l)
    → lookup ip (sweep now ks l) ≡ lookup ip l
unfolding sweep
lookup-sweep now ip [] l h = refl
lookup-sweep now ip (k ∷ ks) l h =
    let one = lookup-current now ip k l h in
    lookup-sweep now ip ks (current now k l).1 (subst (NotOver now) (sym one) h) ∙ one

lookup-check_new :
    (now : ℕ) (ip : String) (l : Attempts)
    → NotOver now (lookup ip l)
    → lookup ip (check_new now l).1 ≡ lookup ip l
unfolding check_new
lookup-check_new now ip l h =
    let swept = lookup-sweep now ip (map (λ (p : String × Attempt). p.0) l) l h in
    if_cases (λ (r : Allowance × Attempts). lookup ip r.1 ≡ lookup ip l) (leb 4096 (length l))
      (λ _.
        if_cases (λ (r : Allowance × Attempts). lookup ip r.1 ≡ lookup ip l)
          (leb 4096 (length (sweep now (map (λ (p : String × Attempt). p.0) l) l))) (λ _. swept)
          (λ _. swept))
      (λ _. refl)

pub lookup-check :
    (now : ℕ) (ip k : String) (l : Attempts)
    → NotOver now (lookup ip l)
    → lookup ip (check now k l).1 ≡ lookup ip l
unfolding check
lookup-check now ip k l h =
    let kept = lookup-current now ip k l h in
    elim (Option-cases (current now k l).0) [
      | inl e ↦
          rw (check, e)
            (lookup-check_new now ip (current now k l).1 (subst (NotOver now) (sym kept) h) ∙ kept)
      | inr (a, e) ↦
          rw (check, e)
            (if_cases (λ (r : Allowance × Attempts). lookup ip r.1 ≡ lookup ip l)
              (ltb now a.locked_until) (λ _. kept) (λ _. kept))
    ]

-- The entry of an address that is not over is what `current` finds.
pub current-found :
    (now : ℕ) (ip : String) (l : Attempts)
    → NotOver now (lookup ip l)
    → (current now ip l).0 ≡ lookup ip l
unfolding current
current-found now ip l h = elim (Option-cases (lookup ip l)) [
  | inl e ↦ rw (current, e) refl
  | inr (a, e) ↦
      let live : is_over now a ≡ false = subst (NotOver now) e h in rw (current, e, live) refl
]
