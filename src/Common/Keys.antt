-- ===== src/Common/Keys.antt =====
-- The comparators that the program sorts by: a number, and a text where the numbers agree.
use Prim.Native.Nat.{ℕ, ◌<◌}
use Prim.Native.String.{String}
use mathlib.Core.Path.{◌≡◌}
use mathlib.Core.Logic.{◌⊎◌, inl, inr}
use mathlib.Core.Bool.{Bool, true, false, ◌&&◌, ◌||◌}
use mathlib.Core.List.{List}
use native.Mathlib.Omega.{arith}
use gstdbot.Common.Tests.{ltb, eqb, Bool-cases}
use gstdbot.Common.Text.{str_lt, str_lt_asym, str_lt_trans, str_lt_connex}
use gstdbot.Common.Sort.{IsStrictOrder, IsSeparated}

pub str_lt_weak : (s t u : String) → str_lt s t ≡ true → str_lt u t ≡ false → str_lt s u ≡ true
str_lt_weak s t u h k = elim (Bool-cases (str_lt s u)) [
  | inl e ↦ e
  | inr e ↦ elim (Bool-cases (str_lt u s)) [
    | inl f ↦ absurd (cc (str_lt_trans u s t f h))
    | inr f ↦ absurd (cc (str_lt_connex s u e f))
  ]
]

pub str_lt-IsStrictOrder : IsStrictOrder str_lt
str_lt-IsStrictOrder = record { asym = str_lt_asym; trans = str_lt_trans; weak = str_lt_weak }

pub str_lt_cases : (x y : String) → (x ≡ y) ⊎ (str_lt x y ≡ true) ⊎ (str_lt y x ≡ true)
str_lt_cases x y = elim (Bool-cases (str_lt x y)) [
  | inl e ↦ inr (inl e)
  | inr e ↦ elim (Bool-cases (str_lt y x)) [
    | inl f ↦ inr (inr f)
    | inr f ↦ inl (str_lt_connex x y e f)
  ]
]

pub str_lt-IsSeparated : (l : List String) → IsSeparated str_lt l
str_lt-IsSeparated l x y _ _ = str_lt_cases x y

compare_cases : (m n : ℕ) → (m ≡ n) ⊎ (m < n) ⊎ (n < m)
compare_cases m n = elim (Bool-cases (ltb m n)) [
  | inl e ↦ inr (inl (ground arith))
  | inr e ↦ elim (Bool-cases (ltb n m)) [
    | inl f ↦ inr (inr (ground arith))
    | inr f ↦ inl (ground arith)
  ]
]

module _ {ℓ} {A : Type ℓ} (rank : A → ℕ) (name : A → String) where
  -- `rank(a) - rank(b) || (name(a) < name(b) ? -1 : 1)` is negative.
  unfoldable pub by_rank : A → A → Bool
  by_rank a b = ltb (rank a) (rank b) || eqb (rank a) (rank b) && str_lt (name a) (name b)

  pub by_rank-IsStrictOrder : IsStrictOrder by_rank
  unfolding by_rank
  by_rank-IsStrictOrder = record {
    asym = λ x y h. ground (arith, str_lt_asym (name x) (name y));
    trans = λ x y z h k. ground (arith, str_lt_trans (name x) (name y) (name z));
    weak = λ x y z h k. ground (arith, str_lt_weak (name x) (name y) (name z));
  }

  -- Elements with different names are told apart.
  pub by_rank_cases : (x y : A) → (name x ≡ name y) ⊎ (by_rank x y ≡ true) ⊎ (by_rank y x ≡ true)
  unfolding by_rank
  by_rank_cases x y = elim (str_lt_cases (name x) (name y)) [
    | inl e ↦ inl e
    | inr d ↦ inr (ranked d)
  ]
    where
      ranked :
          (str_lt (name x) (name y) ≡ true) ⊎ (str_lt (name y) (name x) ≡ true)
          → (by_rank x y ≡ true) ⊎ (by_rank y x ≡ true)
      ranked d = elim (compare_cases (rank x) (rank y)) [
        | inl e ↦ elim d [ inl h ↦ inl (ground arith) | inr h ↦ inr (ground arith) ]
        | inr (inl h) ↦ inl (ground arith)
        | inr (inr h) ↦ inr (ground arith)
      ]
