-- ===== src/Common/Sorted.antt =====
-- Lists that a strict order leaves as they are.
use mathlib.Core.Path.{◌≡◌, refl, sym, ap, ◌∙◌, subst}
use mathlib.Core.Logic.{inl, inr, ◌⊎◌}
use mathlib.Core.Bool.{Bool, true, false}
use mathlib.Core.Option.{Option, none, some}
use mathlib.Core.List.{
  List, [], ◌∷◌, ◌++◌, map, filter_map, filter_map-cons-none, filter_map-cons-some, Memᴰ,
}
use gstdbot.Common.Tests.{Bool-cases, Option-cases, eq_of_some}
use gstdbot.Common.Lists.{Memᴰ-cons, Memᴰ-singleton, Memᴰ-get_last, get_last?, select}
use gstdbot.Common.Sort.{insert_by, sort, IsStrictOrder}
use gstdbot.Common.Repeats.{select-cons_true, select-cons_false, Memᴰ-select}

module _ {ℓ} {A : Type ℓ} (before : A → A → Bool) where
  abbrev pub NoneBefore : A → List A → Type ℓ
  NoneBefore x l = (y : A) → Memᴰ y l → before y x ≡ false

  abbrev pub IsSorted : List A → Type ℓ
  IsSorted [] = Unit
  IsSorted (x ∷ l) = NoneBefore x l × IsSorted l

  Memᴰ-insert_by : (x : A) (l : List A) {y : A} → Memᴰ y (insert_by before x l) → Memᴰ y (x ∷ l)
  unfolding insert_by
  Memᴰ-insert_by x [] m = m
  Memᴰ-insert_by x (z ∷ l) m = elim (Bool-cases (before z x)) [
    | inl e ↦ elim (Memᴰ-cons (rw e at m)) [
      | inl p ↦ Memᴰ.tail (Memᴰ.head p)
      | inr k ↦ elim (Memᴰ-cons (Memᴰ-insert_by x l k)) [
        | inl q ↦ Memᴰ.head q
        | inr j ↦ Memᴰ.tail (Memᴰ.tail j)
      ]
    ]
    | inr e ↦ rw e at m
  ]

  insert_by-IsSorted :
      IsStrictOrder before → (x : A) (l : List A) → IsSorted l → IsSorted (insert_by before x l)
  unfolding insert_by
  insert_by-IsSorted order x [] s = (λ y m. elim m [ ], tt)
  insert_by-IsSorted order x (z ∷ l) (none_before, s) = elim (Bool-cases (before z x)) [
    | inl e ↦ rw e (
      λ y m. elim (Memᴰ-cons (Memᴰ-insert_by x l m)) [
        | inl p ↦ subst (λ w. before w z ≡ false) (sym p) (order.asym z x e)
        | inr k ↦ none_before y k
      ],
      insert_by-IsSorted order x l s,
    )
    | inr e ↦ rw e (
      λ y m. elim (Memᴰ-cons m) [
        | inl p ↦ subst (λ w. before w x ≡ false) (sym p) e
        | inr k ↦ elim (Bool-cases (before y x)) [
          | inl h ↦ absurd (cc (order.weak y x z h e, none_before y k))
          | inr h ↦ h
        ]
      ],
      (none_before, s),
    )
  ]

  pub sort-IsSorted : IsStrictOrder before → (l : List A) → IsSorted (sort before l)
  unfolding sort
  sort-IsSorted order [] = tt
  sort-IsSorted order (x ∷ l) = insert_by-IsSorted order x (sort before l) (sort-IsSorted order l)

  insert_by-first : (x : A) (l : List A) → NoneBefore x l → insert_by before x l ≡ x ∷ l
  unfolding insert_by
  insert_by-first x [] h = refl
  insert_by-first x (y ∷ l) h = rw (h y (Memᴰ.head refl)) refl

  pub sort-sorted : (l : List A) → IsSorted l → sort before l ≡ l
  unfolding sort
  sort-sorted [] s = refl
  sort-sorted (x ∷ l) (none_before, s) =
      ap (insert_by before x) (sort-sorted l s) ∙ insert_by-first x l none_before

pub select_all {ℓ} :
    {A : Type ℓ} (p : A → Bool) (l : List A) → ((x : A) → Memᴰ x l → p x ≡ true) → select p l ≡ l
unfolding filter_map
select_all p [] h = refl
select_all p (x ∷ l) h =
    select-cons_true p x l (h x (Memᴰ.head refl))
    ∙ ap (λ k. x ∷ k) (select_all p l (λ y m. h y (Memᴰ.tail m)))

module _ {ℓ κ} {A : Type ℓ} {B : Type κ} (f : A → Option B) where
  pub filter_map-append : (l k : List A) → filter_map f (l ++ k) ≡ filter_map f l ++ filter_map f k
  unfolding filter_map
  filter_map-append [] k = refl
  filter_map-append (x ∷ l) k = elim (Option-cases (f x)) [
    | inl e ↦
        filter_map-cons-none f x (l ++ k) e
        ∙ filter_map-append l k
        ∙ ap (λ m. m ++ filter_map f k) (sym (filter_map-cons-none f x l e))
    | inr (y, e) ↦
        filter_map-cons-some f x (l ++ k) e
        ∙ ap (λ m. y ∷ m) (filter_map-append l k)
        ∙ ap (λ m. m ++ filter_map f k) (sym (filter_map-cons-some f x l e))
  ]

  module _ {C : Type ℓ} (g : C → A) where
    pub filter_map-map-none :
        ((c : C) → f (g c) ≡ none) → (l : List C) → filter_map f (map g l) ≡ []
    unfolding filter_map
    filter_map-map-none h [] = refl
    filter_map-map-none h (c ∷ l) =
        filter_map-cons-none f (g c) (map g l) (h c) ∙ filter_map-map-none h l

pub filter_map-map-some {ℓ κ} :
    {A : Type ℓ} {B : Type κ} (f : A → Option B) (g : B → A)
    → ((c : B) → f (g c) ≡ some c)
    → (l : List B) → filter_map f (map g l) ≡ l
unfolding filter_map
filter_map-map-some f g h [] = refl
filter_map-map-some f g h (c ∷ l) =
    filter_map-cons-some f (g c) (map g l) (h c) ∙ ap (λ k. c ∷ k) (filter_map-map-some f g h l)

pub append_nil {ℓ} : {A : Type ℓ} (l : List A) → l ++ [] ≡ l
append_nil [] = refl
append_nil (x ∷ l) = ap (λ k. x ∷ k) (append_nil l)

module _ {ℓ} {A : Type ℓ} (before : A → A → Bool) where
  pub IsSorted-select :
      (p : A → Bool) (l : List A) → IsSorted before l → IsSorted before (select p l)
  unfolding filter_map
  IsSorted-select p [] s = tt
  IsSorted-select p (x ∷ l) (none_before, s) = elim (Bool-cases (p x)) [
    | inl e ↦
        rw (select-cons_true p x l e)
          (λ y m. none_before y (Memᴰ-select p l m).0, IsSorted-select p l s)
    | inr e ↦ rw (select-cons_false p x l e) (IsSorted-select p l s)
  ]

  -- Nothing comes after the last.
  pub get_last?-IsSorted :
      (l : List A) {x z : A}
      → IsSorted before l
      → get_last? l ≡ some z
      → Memᴰ x l
      → (x ≡ z) ⊎ (before z x ≡ false)
  get_last?-IsSorted [] s e m = elim m [ ]
  get_last?-IsSorted (y ∷ []) s e m = inl (Memᴰ-singleton m ∙ eq_of_some e)
  get_last?-IsSorted (y ∷ w ∷ l) {x} {z} (none_before, s) e m = elim (Memᴰ-cons m) [
    | inr k ↦ get_last?-IsSorted (w ∷ l) s e k
    | inl h ↦
        inr (subst (λ v. before z v ≡ false) (sym h) (none_before z (Memᴰ-get_last (w ∷ l) e)))
  ]
