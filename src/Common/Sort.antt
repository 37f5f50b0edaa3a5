-- ===== src/Common/Sort.antt =====
-- `Array.prototype.sort` with a comparator: a stable sort. `before x y` says that the comparator is
-- negative at `x` and `y`. Any stable sort gives this list where the comparator is a strict order.
use mathlib.Core.Path.{◌≡◌, refl, sym, ◌∙◌}
use mathlib.Core.Logic.{◌⊎◌, inl, inr}
use mathlib.Core.Bool.{Bool, true, false}
use mathlib.Core.List.{List, [], ◌∷◌, Memᴰ, Permᴰ}
use native.Mathlib.Omega.{arith}
use mathlib.Core.List.Permᴰ
use gstdbot.Common.Lists.{Memᴰ-of_perm}
use gstdbot.Common.Tests.{if◌then◌else◌, Bool-cases}

module _ {ℓ} {A : Type ℓ} where
  unfoldable pub insert_by : (A → A → Bool) → A → List A → List A
  insert_by before x [] = x ∷ []
  insert_by before x (y ∷ ys) = if before y x then y ∷ insert_by before x ys else x ∷ y ∷ ys

  unfoldable pub sort : (A → A → Bool) → List A → List A
  unfolding insert_by
  sort before [] = []
  sort before (x ∷ xs) = insert_by before x (sort before xs)

  pub record IsStrictOrder (before : A → A → Bool) : Type ℓ where
    pub asym : (x y : A) → before x y ≡ true → before y x ≡ false
    pub trans : (x y z : A) → before x y ≡ true → before y z ≡ true → before x z ≡ true
    -- incomparability is transitive with the order
    pub weak : (x y z : A) → before x y ≡ true → before z y ≡ false → before x z ≡ true

  -- Any two elements of a list are told apart by the order, or equal.
  abbrev pub IsSeparated : (A → A → Bool) → List A → Type ℓ
  IsSeparated before xs =
      (x y : A) → Memᴰ x xs → Memᴰ y xs → (x ≡ y) ⊎ (before x y ≡ true) ⊎ (before y x ≡ true)

  module _ (before : A → A → Bool) (order : IsStrictOrder before) where
    insert_by_comm :
        (x y : A) (l : List A)
        → before x y ≡ true
        → insert_by before x (insert_by before y l) ≡ insert_by before y (insert_by before x l)
    unfolding insert_by
    insert_by_comm x y [] h = ground (arith, order.asym x y)
    insert_by_comm x y (z ∷ l) h = ground (
      arith,
      order.asym x y,
      order.asym y x,
      order.weak x y z h,
      order.trans z x y,
      insert_by_comm x y l h,
    )

    swap-case :
        (x y : A) (l : List A)
        → (x ≡ y) ⊎ (before x y ≡ true) ⊎ (before y x ≡ true)
        → insert_by before x (insert_by before y l) ≡ insert_by before y (insert_by before x l)
    swap-case x y l (inl e) = rw e
    swap-case x y l (inr (inl h)) = insert_by_comm x y l h
    swap-case x y l (inr (inr h)) = sym (insert_by_comm y x l h)

    -- The sorted list depends on the elements alone, not on the order in which they came.
    pub sort-perm :
        {xs ys : List A} → Permᴰ xs ys → IsSeparated before xs → sort before xs ≡ sort before ys
    unfolding sort
    sort-perm Permᴰ.nil sep = refl
    sort-perm (Permᴰ.cons {a} {l₁} e p) sep =
        cc (e, sort-perm p (λ x y mx my. sep x y (Memᴰ.tail mx) (Memᴰ.tail my)))
    sort-perm (Permᴰ.swap {a} {b} {l} e e') sep =
        swap-case a b (sort before l) (sep a b (Memᴰ.head refl) (Memᴰ.tail (Memᴰ.head refl)))
        ∙ cc (e, e')
    sort-perm (Permᴰ.trans p q) sep =
        sort-perm p sep ∙ sort-perm q (λ x y mx my. sep x y (Memᴰ-of_perm p mx) (Memᴰ-of_perm p my))

  insert_by-perm :
      (before : A → A → Bool) (x : A) (l : List A) → Permᴰ (insert_by before x l) (x ∷ l)
  unfolding insert_by
  insert_by-perm before x [] = Permᴰ.refl _
  insert_by-perm before x (y ∷ l) = elim (Bool-cases (before y x)) [
    | inl e ↦
        rw (e, insert_by)
          (Permᴰ.trans (Permᴰ.cons refl (insert_by-perm before x l)) (Permᴰ.swap refl refl))
    | inr e ↦ rw (e, insert_by) (Permᴰ.refl _)
  ]

  pub sort-perm_self : (before : A → A → Bool) (l : List A) → Permᴰ (sort before l) l
  unfolding sort
  sort-perm_self before [] = Permᴰ.nil
  sort-perm_self before (x ∷ l) =
      Permᴰ.trans (insert_by-perm before x _) (Permᴰ.cons refl (sort-perm_self before l))

  pub Memᴰ-sort : (before : A → A → Bool) {x : A} (l : List A) → Memᴰ x (sort before l) → Memᴰ x l
  Memᴰ-sort before l m = Memᴰ-of_perm (Permᴰ.symm (sort-perm_self before l)) m

  pub Memᴰ-sort_of :
      (before : A → A → Bool) {x : A} (l : List A) → Memᴰ x l → Memᴰ x (sort before l)
  Memᴰ-sort_of before l m = Memᴰ-of_perm (sort-perm_self before l) m
