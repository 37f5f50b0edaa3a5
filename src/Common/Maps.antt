-- ===== src/Common/Maps.antt =====
-- A `Map` with text keys, in insertion order, and what its operations leave of a key.
use Prim.Native.String.{String}
use mathlib.Core.Path.{◌≡◌, refl, sym, subst}
use mathlib.Core.Logic.{inl, inr}
use mathlib.Core.Bool.{false}
use mathlib.Core.Option.{Option, none, some}
use mathlib.Core.List.{List, [], ◌∷◌}
use text.Mathlib.Text.{◌==◌}
use text.Mathlib.TextEquality.{eq_iff}
use text.Mathlib.TextPositions.{eq_refl}
use gstdbot.Common.Tests.{if◌then◌else◌, Bool-cases}

module _ {ℓ} {V : Type ℓ} where
  unfoldable pub lookup : String → List (String × V) → Option V
  lookup k [] = none
  lookup k ((j, v) ∷ l) = if j == k then some v else lookup k l

  -- `set`: a key that is held keeps its place.
  unfoldable pub put : String → V → List (String × V) → List (String × V)
  put k v [] = (k, v) ∷ []
  put k v ((j, w) ∷ l) = if j == k then (k, v) ∷ l else (j, w) ∷ put k v l

  unfoldable pub remove : String → List (String × V) → List (String × V)
  remove k [] = []
  remove k ((j, v) ∷ l) = if j == k then remove k l else (j, v) ∷ remove k l

  pub lookup-remove_other :
      (k j : String) (l : List (String × V)) → (j == k) ≡ false → lookup k (remove j l) ≡ lookup k l
  unfolding lookup remove
  lookup-remove_other k j [] h = refl
  lookup-remove_other k j ((i, v) ∷ l) h = elim (Bool-cases (i == j)) [
    | inr e ↦ elim (Bool-cases (i == k)) [
      | inl f ↦ rw (e, f) refl
      | inr f ↦ rw (e, f) (lookup-remove_other k j l h)
    ]
    | inl e ↦
        let same : i ≡ j = (eq_iff i j).0 e in
        let f : (i == k) ≡ false = subst (λ x. (x == k) ≡ false) (sym same) h in
        rw (e, f) (lookup-remove_other k j l h)
  ]

  pub lookup-put_other :
      (k j : String) (v : V) (l : List (String × V))
      → (j == k) ≡ false
      → lookup k (put j v l) ≡ lookup k l
  unfolding lookup put
  lookup-put_other k j v [] h = rw h refl
  lookup-put_other k j v ((i, w) ∷ l) h = elim (Bool-cases (i == j)) [
    | inl e ↦
        let same : i ≡ j = (eq_iff i j).0 e in
        let f : (i == k) ≡ false = subst (λ x. (x == k) ≡ false) (sym same) h in rw (e, f, h) refl
    | inr e ↦ elim (Bool-cases (i == k)) [
      | inl f ↦ rw (e, f) refl
      | inr f ↦ rw (e, f) (lookup-put_other k j v l h)
    ]
  ]

  pub lookup-put : (k : String) (v : V) (l : List (String × V)) → lookup k (put k v l) ≡ some v
  unfolding lookup put
  lookup-put k v [] = rw (eq_refl k) refl
  lookup-put k v ((i, w) ∷ l) = elim (Bool-cases (i == k)) [
    | inl e ↦ rw (e, eq_refl k) refl
    | inr e ↦ rw e (rw e (lookup-put k v l))
  ]
