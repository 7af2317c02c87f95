-- ===== src/Base/Maps.antt =====
-- Go's maps as association lists, in some order of iteration.
use Prim.Native.Nat.{ℕ, ◌+◌}
use mathlib.Core.Path.{◌≡◌, refl, subst₂}
use mathlib.Core.Logic.{inl, inr}
use mathlib.Core.List.{List, [], ◌∷◌}
use mathlib.Core.Option.{Option, none, some}
use native.Mathlib.Omega.{arith}
use functions_invoker.Base.Tests.{if◌then◌else◌, Bool-cases}
use functions_invoker.Base.Keys.{Eq}

module _ {ℓ κ} {K : Type ℓ} {V : Type κ} ⦃e : Eq K⦄ where
  -- `v, ok := m[k]`
  unfoldable pub lookup : K → List (K × V) → Option V
  lookup k [] = none
  lookup k ((j, v) ∷ m) = if e.beq j k then some v else lookup k m

  -- `m[k] = v`
  unfoldable pub insert : K → V → List (K × V) → List (K × V)
  insert k v [] = (k, v) ∷ []
  insert k v ((j, w) ∷ m) = if e.beq j k then (j, v) ∷ m else (j, w) ∷ insert k v m

  pub lookup-insert :
      (k j : K) (v : V) (m : List (K × V))
      → lookup j (insert k v m) ≡ (if e.beq k j then some v else lookup j m)
  unfolding lookup insert
  lookup-insert k j v [] = refl
  lookup-insert k j v ((i, w) ∷ m) =
      ground (arith, e.beq_iff k j, e.beq_iff i k, e.beq_iff i j, lookup-insert k j v m)

  -- No key occurs twice.
  abbrev pub Distinct : List (K × V) → Type κ
  Distinct [] = Unit
  Distinct ((k, v) ∷ m) = (lookup k m ≡ none) × Distinct m

  pub insert-Distinct : (k : K) (v : V) (m : List (K × V)) → Distinct m → Distinct (insert k v m)
  unfolding lookup insert
  insert-Distinct k v [] d = (refl, tt)
  insert-Distinct k v ((i, w) ∷ m) d =
      ground (arith, e.beq_iff i k, e.beq_iff k i, lookup-insert k i v m, insert-Distinct k v m d.1)

-- A predicate on every entry.
abbrev pub Entries {ℓ κ μ} : {K : Type ℓ} {V : Type κ} → (K → V → Type μ) → List (K × V) → Type μ
Entries P [] = Unit
Entries P ((k, v) ∷ m) = P k v × Entries P m

module _ {ℓ κ μ} {K : Type ℓ} {V : Type κ} ⦃e : Eq K⦄ (P : K → V → Type μ) where
  pub insert-Entries :
      (k : K) (v : V) (m : List (K × V)) → P k v → Entries P m → Entries P (insert k v m)
  unfolding insert
  insert-Entries k v [] h es = (h, tt)
  insert-Entries k v ((j, w) ∷ m) h es = elim (Bool-cases (e.beq j k)) [
    | inl same ↦ rw same (rw ((e.beq_iff j k).0 same) h, es.1)
    | inr other ↦ rw other (es.0, insert-Entries k v m h es.1)
  ]

  pub lookup-Entries :
      (k : K) (v : V) (m : List (K × V)) → lookup k m ≡ some v → Entries P m → P k v
  unfolding lookup
  lookup-Entries k v [] h es = cc
  lookup-Entries k v ((j, w) ∷ m) h es = elim (Bool-cases (e.beq j k)) [
    | inl same ↦
        let here : w ≡ v = ground arith in
        let key : j ≡ k = (e.beq_iff j k).0 same in subst₂ P key here es.0
    | inr other ↦ lookup-Entries k v m (rw other at h) es.1
  ]

-- `m[k]`, where a missing key reads as the empty slice.
abbrev pub slice {ℓ} : {A : Type ℓ} → Option (List A) → List A
slice none = []
slice (some xs) = xs

-- A measure of slices, summed over a map.
unfoldable pub sum_slices {ℓ κ} : {K : Type ℓ} {A : Type κ} → (List A → ℕ) → List (K × List A) → ℕ
sum_slices f [] = 0
sum_slices f ((k, xs) ∷ m) = f xs + sum_slices f m

module _ {ℓ κ} {K : Type ℓ} {A : Type κ} ⦃e : Eq K⦄ (f : List A → ℕ) (empty : f [] ≡ 0) where
  -- Replacing a slice changes the sum by the difference.
  pub sum_slices-insert :
      (k : K) (xs : List A) (m : List (K × List A))
      → sum_slices f (insert k xs m) + f (slice (lookup k m)) ≡ sum_slices f m + f xs
  unfolding sum_slices insert lookup
  sum_slices-insert k xs [] = omega arith
  sum_slices-insert k xs ((j, ys) ∷ m) = elim (Bool-cases (e.beq j k)) [
    | inl same ↦ rw same (omega arith)
    | inr other ↦ rw other (omega (arith, sum_slices-insert k xs m))
  ]
