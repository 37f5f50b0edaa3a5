-- ===== src/Common/Repeats.antt =====
-- Lists without repetition, and membership under `map`, `select` and permutations.
use mathlib.Core.Path.{◌≡◌, refl, sym, ap, ◌∙◌}
use mathlib.Core.Logic.{inl, inr, ◌↔◌}
use mathlib.Core.Bool.{Bool, true, false}
use mathlib.Core.List.{
  List, [], ◌∷◌, ◌++◌, map, filter_map, Memᴰ, Permᴰ, filter_map-cons-none, filter_map-cons-some,
}
use mathlib.Core.List.Permᴰ
use gstdbot.Common.Tests.{when, when-eq-some, Bool-cases}
use gstdbot.Common.Lists.{
  select, Memᴰ-cons, Memᴰ-append, Memᴰ-of_perm, Memᴰ-filter_map, Memᴰ-filter_map_of,
}

module _ {ℓ} {A : Type ℓ} where
  abbrev pub Distinct : List A → Type ℓ
  Distinct [] = Unit
  Distinct (x ∷ xs) = (Memᴰ x xs → ⊥) × Distinct xs

  pub Distinct-perm : {xs ys : List A} → Permᴰ xs ys → Distinct xs → Distinct ys
  Distinct-perm Permᴰ.nil d = d
  Distinct-perm (Permᴰ.cons {a} {b} {l₁} {l₂} e p) d =
      (λ m. d.0 (rw (← e) at (Memᴰ-of_perm p m)), Distinct-perm p d.1)
  Distinct-perm (Permᴰ.swap {a} {b} {a'} {b'} {l} e f) d = (
    λ m. elim (Memᴰ-cons m) [
      | inl h ↦ d.0 (Memᴰ.head (e ∙ sym h ∙ sym f))
      | inr k ↦ d.1.0 (rw (← f) at k)
    ],
    (λ m. d.0 (Memᴰ.tail (rw (← e) at m)), d.1.1),
  )
  Distinct-perm (Permᴰ.trans p q) d = Distinct-perm q (Distinct-perm p d)

  pub Distinct-concat : (l : List A) (x : A) → Distinct l → (Memᴰ x l → ⊥) → Distinct (l ++ x ∷ [])
  Distinct-concat [] x d new = (λ m. elim m [ ], tt)
  Distinct-concat (y ∷ l) x d new = (
    λ m. elim (Memᴰ-append l m) [
      | inl k ↦ d.0 k
      | inr k ↦ elim (Memᴰ-cons k) [ inl e ↦ new (Memᴰ.head (sym e)) | inr z ↦ elim z [ ] ]
    ],
    Distinct-concat l x d.1 (λ m. new (Memᴰ.tail m)),
  )

  -- An element of a list can be brought to its front.
  pub Permᴰ-of_mem : {x : A} {l : List A} → Memᴰ x l → (l' : List A) × Permᴰ l (x ∷ l')
  Permᴰ-of_mem (Memᴰ.head {x = y} {xs} e) = (xs, Permᴰ.cons (sym e) (Permᴰ.refl xs))
  Permᴰ-of_mem (Memᴰ.tail {x = y} m) =
      let (l', p) = Permᴰ-of_mem m in
      (y ∷ l', Permᴰ.trans (Permᴰ.cons refl p) (Permᴰ.swap refl refl))

  -- Lists without repetition that have the same elements are permutations of one another.
  pub Permᴰ-of_same :
      (xs ys : List A) → Distinct xs → Distinct ys → ((x : A) → Memᴰ x xs ↔ Memᴰ x ys) → Permᴰ xs ys
  Permᴰ-of_same [] [] d d' same = Permᴰ.nil
  Permᴰ-of_same [] (y ∷ ys) d d' same = elim ((same y).1 (Memᴰ.head refl)) [ ]
  Permᴰ-of_same (x ∷ xs) ys d d' same =
      let (ys', p) = Permᴰ-of_mem ((same x).0 (Memᴰ.head refl)) in
      let apart : Distinct (x ∷ ys') = Distinct-perm p d' in
      Permᴰ.trans
        (Permᴰ.cons refl (
          Permᴰ-of_same xs ys' d.1 apart.1 (λ z. (
            λ m. elim (Memᴰ-cons (Memᴰ-of_perm (Permᴰ.symm p) ((same z).0 (Memᴰ.tail m)))) [
              | inl e ↦ absurd (d.0 (rw e at m))
              | inr k ↦ k
            ],
            λ m. elim (Memᴰ-cons ((same z).1 (Memᴰ-of_perm p (Memᴰ.tail m)))) [
              | inl e ↦ absurd (apart.0 (rw e at m))
              | inr k ↦ k
            ],
          ))))
        (Permᴰ.symm p)

  pub Memᴰ-select :
      (p : A → Bool) (l : List A) {x : A} → Memᴰ x (select p l) → Memᴰ x l × (p x ≡ true)
  Memᴰ-select p l {x} m =
      let (y, my, h) = Memᴰ-filter_map (λ z. when (p z) z) l m in
      let (k, e) = when-eq-some (p y) y h in (rw e at my, rw e at k)

  pub Memᴰ-select_of :
      (p : A → Bool) {l : List A} {x : A} → Memᴰ x l → p x ≡ true → Memᴰ x (select p l)
  Memᴰ-select_of p {x} m h = Memᴰ-filter_map_of (λ z. when (p z) z) m (rw h)

  pub select-cons_true :
      (p : A → Bool) (x : A) (l : List A) → p x ≡ true → select p (x ∷ l) ≡ x ∷ select p l
  select-cons_true p x l h = filter_map-cons-some (λ z. when (p z) z) x l (rw h)

  pub select-cons_false :
      (p : A → Bool) (x : A) (l : List A) → p x ≡ false → select p (x ∷ l) ≡ select p l
  select-cons_false p x l h = filter_map-cons-none (λ z. when (p z) z) x l (rw h)

  pub Distinct-select : (p : A → Bool) (l : List A) → Distinct l → Distinct (select p l)
  unfolding filter_map
  Distinct-select p [] d = tt
  Distinct-select p (x ∷ l) d = elim (Bool-cases (p x)) [
    | inl e ↦
        rw (select-cons_true p x l e) (λ m. d.0 (Memᴰ-select p l m).0, Distinct-select p l d.1)
    | inr e ↦ rw (select-cons_false p x l e) (Distinct-select p l d.1)
  ]

module _ {ℓ κ} {A : Type ℓ} {B : Type κ} (f : A → B) where
  pub Memᴰ-map : (l : List A) {y : B} → Memᴰ y (map f l) → (x : A) × Memᴰ x l × (y ≡ f x)
  Memᴰ-map [] m = elim m [ ]
  Memᴰ-map (x ∷ l) m = elim (Memᴰ-cons m) [
    | inl e ↦ (x, Memᴰ.head refl, e)
    | inr k ↦ let (z, n, h) = Memᴰ-map l k in (z, Memᴰ.tail n, h)
  ]

  pub Memᴰ-map_of : {x : A} {l : List A} → Memᴰ x l → Memᴰ (f x) (map f l)
  Memᴰ-map_of (Memᴰ.head e) = Memᴰ.head (ap f e)
  Memᴰ-map_of (Memᴰ.tail m) = Memᴰ.tail (Memᴰ-map_of m)

  pub Distinct-map-select :
      (p : A → Bool) (l : List A) → Distinct (map f l) → Distinct (map f (select p l))
  unfolding filter_map
  Distinct-map-select p [] d = tt
  Distinct-map-select p (x ∷ l) d = elim (Bool-cases (p x)) [
    | inr e ↦ rw (select-cons_false p x l e) (Distinct-map-select p l d.1)
    | inl e ↦ rw (select-cons_true p x l e) (
      λ m.
          let (z, n, h) = Memᴰ-map (select p l) m in
          d.0 (rw (← h) at (Memᴰ-map_of (Memᴰ-select p l n).0)),
      Distinct-map-select p l d.1,
    )
  ]
