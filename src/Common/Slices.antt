-- ===== src/Common/Slices.antt =====
-- `drop`, `take` and `++` over native numbers.
use Prim.Native.Nat.{ℕ, zero, suc, ◌+◌, ◌-◌, ◌≤◌, ◌<◌}
use mathlib.Core.Path.{◌≡◌, refl, ap, sym, ◌∙◌}
use mathlib.Core.Logic.{inl, inr}
use mathlib.Core.Option.{some}
use mathlib.Core.List.{List, [], ◌∷◌, ◌++◌, map, Memᴰ, Permᴰ}
use native.Mathlib.Omega.{arith}
use gstdbot.Common.Tests.{eq_of_some, Bool-cases, ltb, if◌then◌else◌}
use gstdbot.Common.Lists.{length-append, length, take, drop, head?, Memᴰ-cons}
use gstdbot.Common.Repeats.{Distinct}

suc_add : (n m : ℕ) → suc (n + m) ≡ suc n + m
suc_add n m = omega arith

module _ {ℓ} {A : Type ℓ} where
  pub length-drop : (n : ℕ) (l : List A) → length (drop n l) ≡ length l - n
  length-drop zero l = omega arith
  length-drop (suc n) [] = omega arith
  length-drop (suc n) (x ∷ l) = omega (arith, length-drop n l)

  pub drop-append : (n : ℕ) (l k : List A) → n ≤ length l → drop n (l ++ k) ≡ drop n l ++ k
  drop-append zero l k h = refl
  drop-append (suc n) [] k h = absurd (omega arith)
  drop-append (suc n) (x ∷ l) k h = drop-append n l k (omega arith)

  pub drop-nil : (n : ℕ) → drop {A = A} n [] ≡ []
  drop-nil zero = refl
  drop-nil (suc n) = refl

  pub drop-drop : (m n : ℕ) (l : List A) → drop m (drop n l) ≡ drop (n + m) l
  drop-drop m zero l = ap (λ k. drop k l) (omega arith)
  drop-drop m (suc n) [] = drop-nil m ∙ sym (drop-nil (suc n + m))
  drop-drop m (suc n) (x ∷ l) = drop-drop m n l ∙ ap (λ k. drop k (x ∷ l)) (suc_add n m)

  pub append_assoc : (l k j : List A) → (l ++ k) ++ j ≡ l ++ (k ++ j)
  append_assoc [] k j = refl
  append_assoc (x ∷ l) k j = ap (λ z. x ∷ z) (append_assoc l k j)

  pub append-nil : (l : List A) → l ++ [] ≡ l
  append-nil [] = refl
  append-nil (x ∷ l) = ap (λ z. x ∷ z) (append-nil l)

  pub take-drop : (n : ℕ) (l : List A) → take n l ++ drop n l ≡ l
  take-drop zero l = refl
  take-drop (suc n) [] = refl
  take-drop (suc n) (x ∷ l) = ap (λ z. x ∷ z) (take-drop n l)

  pub Memᴰ-take : (n : ℕ) (l : List A) {x : A} → Memᴰ x (take n l) → Memᴰ x l
  Memᴰ-take zero l m = elim m [ ]
  Memᴰ-take (suc n) [] m = m
  Memᴰ-take (suc n) (y ∷ l) m = elim (Memᴰ-cons m) [
    | inl e ↦ Memᴰ.head e
    | inr k ↦ Memᴰ.tail (Memᴰ-take n l k)
  ]

  pub Distinct-take : (n : ℕ) (l : List A) → Distinct l → Distinct (take n l)
  Distinct-take zero l d = tt
  Distinct-take (suc n) [] d = tt
  Distinct-take (suc n) (y ∷ l) d = (λ m. d.0 (Memᴰ-take n l m), Distinct-take n l d.1)

  pub Memᴰ-head : (l : List A) {x : A} → head? l ≡ some x → Memᴰ x l
  Memᴰ-head [] h = absurd (cc)
  Memᴰ-head (y ∷ l) h = Memᴰ.head (sym (eq_of_some h))

  -- The last n elements.
  abbrev pub latest : ℕ → List A → List A
  latest n l = drop (length l - n) l

  pub latest-latest : (n m : ℕ) (l : List A) → n ≤ m → latest n (latest m l) ≡ latest n l
  latest-latest n m l h =
      drop-drop (length (latest m l) - n) (length l - m) l
      ∙ ap (λ k. drop k l) (omega (arith, length-drop (length l - m) l))

  -- One more element, and a cut where there are then more than n.
  abbrev pub push_latest : ℕ → A → List A → List A
  push_latest n p l = if ltb n (length (l ++ p ∷ [])) then latest n (l ++ p ∷ []) else l ++ p ∷ []

  pub push_latest_lem :
      (n : ℕ) (p : A) (l : List A) → push_latest n p (latest n l) ≡ latest n (l ++ p ∷ [])
  push_latest_lem n p l =
      let whole : latest n l ++ p ∷ [] ≡ drop (length l - n) (l ++ p ∷ []) =
        sym (drop-append (length l - n) l (p ∷ []) (omega arith)) in
      let size : length (l ++ p ∷ []) ≡ length l + 1 = length-append l (p ∷ []) in
      let cut : length (drop (length l - n) (l ++ p ∷ [])) ≡ length l + 1 - (length l - n) =
        length-drop (length l - n) (l ++ p ∷ []) ∙ ap (λ k. k - (length l - n)) size in
      let same : length (latest n l ++ p ∷ []) ≡ length l + 1 - (length l - n) =
        ap length whole ∙ cut in
      elim (Bool-cases (ltb n (length (latest n l ++ p ∷ [])))) [
        | inl e ↦
            let long : n < length (latest n l ++ p ∷ []) = ground arith in
            rw e (
              ap (latest n) whole
              ∙ drop-drop (length (drop (length l - n) (l ++ p ∷ [])) - n) (length l - n)
                  (l ++ p ∷ [])
              ∙ ap (λ k. drop k (l ++ p ∷ [])) (omega arith))
        | inr e ↦
            let short : length (latest n l ++ p ∷ []) ≤ n = ground arith in
            rw e (whole ∙ ap (λ k. drop k (l ++ p ∷ [])) (omega arith))
      ]

pub Permᴰ-map {ℓ κ} :
    {A : Type ℓ} {B : Type κ} (f : A → B) {xs ys : List A}
    → Permᴰ xs ys
    → Permᴰ (map f xs) (map f ys)
Permᴰ-map f Permᴰ.nil = Permᴰ.nil
Permᴰ-map f (Permᴰ.cons e p) = Permᴰ.cons (ap f e) (Permᴰ-map f p)
Permᴰ-map f (Permᴰ.swap e k) = Permᴰ.swap (ap f e) (ap f k)
Permᴰ-map f (Permᴰ.trans p q) = Permᴰ.trans (Permᴰ-map f p) (Permᴰ-map f q)
