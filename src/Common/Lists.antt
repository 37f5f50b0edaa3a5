-- ===== src/Common/Lists.antt =====
-- Lists measured by native numbers, Boolean quantifiers, searches, and membership.
use Prim.Native.Nat.{ℕ, zero, suc, ◌+◌, ◌≤◌}
use mathlib.Core.Path.{◌≡◌, refl, ap, sym, ◌∙◌}
use mathlib.Core.Logic.{◌⊎◌, inl, inr}
use mathlib.Core.Bool.{Bool, true, false, ◌&&◌, ◌||◌}
use mathlib.Core.Option.{Option, none, some}
use mathlib.Core.List.{List, [], ◌∷◌, ◌++◌, filter_map, Memᴰ, Permᴰ}
use mathlib.Core.List.{filter_map-cons-none, filter_map-cons-some}
use native.Mathlib.Omega.{arith}
use gstdbot.Common.Tests.{Option-cases, Bool-cases, when}

module _ {ℓ} {A : Type ℓ} where
  abbrev pub length : List A → ℕ
  length [] = 0
  length (x ∷ xs) = suc (length xs)

  pub length-append : (xs ys : List A) → length (xs ++ ys) ≡ length xs + length ys
  length-append [] ys = omega arith
  length-append (x ∷ xs) ys = omega (arith, length-append xs ys)

  pub length-perm : {xs ys : List A} → Permᴰ xs ys → length xs ≡ length ys
  length-perm Permᴰ.nil = refl
  length-perm (Permᴰ.cons e p) = ap suc (length-perm p)
  length-perm (Permᴰ.swap e f) = refl
  length-perm (Permᴰ.trans p q) = length-perm p ∙ length-perm q

  abbrev pub any : (A → Bool) → List A → Bool
  any p [] = false
  any p (x ∷ xs) = p x || any p xs

  abbrev pub all : (A → Bool) → List A → Bool
  all p [] = true
  all p (x ∷ xs) = p x && all p xs

  -- `filter` with a Boolean test.
  abbrev pub select : (A → Bool) → List A → List A
  select p = filter_map (λ x. when (p x) x)

  -- `find`: the first element that passes the test.
  abbrev pub find : (A → Bool) → List A → Option A
  find p [] = none
  find p (x ∷ xs) = elim (p x) [ true ↦ some x | false ↦ find p xs ]

  -- A loop that returns at the first element for which it has a value.
  abbrev pub find_map {κ} : {B : Type κ} → (A → Option B) → List A → Option B
  find_map f [] = none
  find_map f (x ∷ xs) = elim (f x) [ some y ↦ some y | none ↦ find_map f xs ]

  abbrev pub head? : List A → Option A
  head? [] = none
  head? (x ∷ xs) = some x

  abbrev pub get_last? : List A → Option A
  get_last? [] = none
  get_last? (x ∷ []) = some x
  get_last? (x ∷ y ∷ l) = get_last? (y ∷ l)

  abbrev pub take : ℕ → List A → List A
  take zero xs = []
  take (suc n) [] = []
  take (suc n) (x ∷ xs) = x ∷ take n xs

  abbrev pub drop : ℕ → List A → List A
  drop zero xs = xs
  drop (suc n) [] = []
  drop (suc n) (x ∷ xs) = drop n xs

  pub length-take-le : (n : ℕ) (xs : List A) → length (take n xs) ≤ n
  length-take-le zero xs = omega arith
  length-take-le (suc n) [] = omega arith
  length-take-le (suc n) (x ∷ xs) = omega (arith, length-take-le n xs)

  pub Memᴰ-cons : {x y : A} {l : List A} → Memᴰ x (y ∷ l) → (x ≡ y) ⊎ Memᴰ x l
  Memᴰ-cons (Memᴰ.head e) = inl e
  Memᴰ-cons (Memᴰ.tail m) = inr m

  pub Memᴰ-of_perm : {x : A} {xs ys : List A} → Permᴰ xs ys → Memᴰ x ys → Memᴰ x xs
  Memᴰ-of_perm Permᴰ.nil m = m
  Memᴰ-of_perm (Permᴰ.cons e p) (Memᴰ.head h) = Memᴰ.head (h ∙ sym e)
  Memᴰ-of_perm (Permᴰ.cons e p) (Memᴰ.tail m) = Memᴰ.tail (Memᴰ-of_perm p m)
  Memᴰ-of_perm (Permᴰ.swap e f) (Memᴰ.head h) = Memᴰ.tail (Memᴰ.head (h ∙ sym f))
  Memᴰ-of_perm (Permᴰ.swap e f) (Memᴰ.tail (Memᴰ.head h)) = Memᴰ.head (h ∙ sym e)
  Memᴰ-of_perm (Permᴰ.swap e f) (Memᴰ.tail (Memᴰ.tail m)) = Memᴰ.tail (Memᴰ.tail m)
  Memᴰ-of_perm (Permᴰ.trans p q) m = Memᴰ-of_perm p (Memᴰ-of_perm q m)

  pub any_sound : (p : A → Bool) (l : List A) → any p l ≡ true → (x : A) × Memᴰ x l × (p x ≡ true)
  any_sound p [] h = absurd (cc)
  any_sound p (x ∷ l) h = elim (Bool-cases (p x)) [
    | inl e ↦ (x, Memᴰ.head refl, e)
    | inr e ↦ let (y, m, k) = any_sound p l (ground arith) in (y, Memᴰ.tail m, k)
  ]

  pub any_complete : (p : A → Bool) {x : A} {l : List A} → Memᴰ x l → p x ≡ true → any p l ≡ true
  any_complete p (Memᴰ.head e) h = rw (← e, h)
  any_complete p (Memᴰ.tail {x = y} m) h = ground (arith, any_complete p m h)

  pub find_sound : (p : A → Bool) (l : List A) {x : A} → find p l ≡ some x → Memᴰ x l × (p x ≡ true)
  find_sound p [] h = absurd (cc)
  find_sound p (y ∷ l) {x} h = elim (Bool-cases (p y)) [
    | inl e ↦ let same : y ≡ x = ground arith in (Memᴰ.head (sym same), rw same at e)
    | inr e ↦ let (m, k) = find_sound p l {x = x} (ground arith) in (Memᴰ.tail m, k)
  ]

  pub find-none : (p : A → Bool) {x : A} {l : List A} → find p l ≡ none → Memᴰ x l → p x ≡ false
  find-none p h (Memᴰ.head e) = rw e (ground arith)
  find-none p h (Memᴰ.tail {x = y} {xs} m) = find-none p {l = xs} (ground arith) m

  pub find_map_sound {κ} :
      {B : Type κ} (f : A → Option B) (l : List A) {y : B}
      → find_map f l ≡ some y
      → (x : A) × Memᴰ x l × (f x ≡ some y)
  find_map_sound f [] h = absurd (cc)
  find_map_sound f (x ∷ l) {y} h = elim (Option-cases (f x)) [
    | inl e ↦ let (z, m, k) = find_map_sound f l {y = y} (ground arith) in (z, Memᴰ.tail m, k)
    | inr (z, e) ↦ (x, Memᴰ.head refl, ground arith)
  ]

  pub find_map-none {κ} :
      {B : Type κ} (f : A → Option B) {x : A} {l : List A}
      → find_map f l ≡ none
      → Memᴰ x l
      → f x ≡ none
  find_map-none f h (Memᴰ.head {x = y} e) = rw e (ground arith)
  find_map-none f h (Memᴰ.tail {x = y} {xs} m) = find_map-none f {l = xs} (ground arith) m

  pub Memᴰ-append_left : {x : A} {l : List A} (k : List A) → Memᴰ x l → Memᴰ x (l ++ k)
  Memᴰ-append_left k (Memᴰ.head e) = Memᴰ.head e
  Memᴰ-append_left k (Memᴰ.tail m) = Memᴰ.tail (Memᴰ-append_left k m)

  pub Memᴰ-append_right : {x : A} (l : List A) {k : List A} → Memᴰ x k → Memᴰ x (l ++ k)
  Memᴰ-append_right [] m = m
  Memᴰ-append_right (y ∷ l) m = Memᴰ.tail (Memᴰ-append_right l m)

  pub Memᴰ-append : {x : A} (l : List A) {k : List A} → Memᴰ x (l ++ k) → Memᴰ x l ⊎ Memᴰ x k
  Memᴰ-append [] m = inr m
  Memᴰ-append (y ∷ l) (Memᴰ.head e) = inl (Memᴰ.head e)
  Memᴰ-append (y ∷ l) (Memᴰ.tail m) = elim (Memᴰ-append l m) [
    | inl a ↦ inl (Memᴰ.tail a)
    | inr b ↦ inr b
  ]

module _ {ℓ κ} {A : Type ℓ} {B : Type κ} (f : A → Option B) where
  pub Memᴰ-filter_map :
      (l : List A) {y : B} → Memᴰ y (filter_map f l) → (x : A) × Memᴰ x l × (f x ≡ some y)
  unfolding filter_map
  Memᴰ-filter_map [] m = elim m [ ]
  Memᴰ-filter_map (x ∷ l) {y} m = elim (Option-cases (f x)) [
    | inl e ↦
        let (z, k, h) = Memᴰ-filter_map l (rw (filter_map-cons-none f x l e) at m) in
        (z, Memᴰ.tail k, h)
    | inr (b, e) ↦ elim (Memᴰ-cons (rw (filter_map-cons-some f x l e) at m)) [
      | inl h ↦ (x, Memᴰ.head refl, e ∙ ap some (sym h))
      | inr k ↦ let (z, k', h) = Memᴰ-filter_map l k in (z, Memᴰ.tail k', h)
    ]
  ]

  pub Memᴰ-filter_map_of :
      {x : A} {l : List A} {y : B} → Memᴰ x l → f x ≡ some y → Memᴰ y (filter_map f l)
  Memᴰ-filter_map_of (Memᴰ.head {x = z} {xs} e) h =
      rw (filter_map-cons-some f z xs (ap f (sym e) ∙ h)) (Memᴰ.head refl)
  Memᴰ-filter_map_of (Memᴰ.tail {x = z} {xs} m) h = elim (Option-cases (f z)) [
    | inl e ↦ rw (filter_map-cons-none f z xs e) (Memᴰ-filter_map_of m h)
    | inr (b, e) ↦ rw (filter_map-cons-some f z xs e) (Memᴰ.tail (Memᴰ-filter_map_of m h))
  ]

pub Memᴰ-singleton {ℓ} : {A : Type ℓ} {x y : A} → Memᴰ x (y ∷ []) → x ≡ y
Memᴰ-singleton m = elim (Memᴰ-cons m) [ inl e ↦ e | inr k ↦ elim k [ ] ]

pub Memᴰ-get_last {ℓ} : {A : Type ℓ} (l : List A) {x : A} → get_last? l ≡ some x → Memᴰ x l
Memᴰ-get_last [] h = absurd (cc)
Memᴰ-get_last (y ∷ []) h = Memᴰ.head (sym (ground arith))
Memᴰ-get_last (y ∷ z ∷ l) h = Memᴰ.tail (Memᴰ-get_last (z ∷ l) h)
