-- ===== src/Base/Lists.antt =====
-- Lists measured by native numbers, the last element of a slice, and predicates on all elements.
use Prim.Native.Nat.{ℕ, zero, suc, ◌+◌}
use mathlib.Core.Path.{◌≡◌, refl}
use mathlib.Core.List.{List, [], ◌∷◌, ◌++◌}
use mathlib.Core.Option.{Option, none, some}
use native.Mathlib.Omega.{arith}

module _ {ℓ} {A : Type ℓ} where
  abbrev pub length : List A → ℕ
  length [] = 0
  length (x ∷ xs) = suc (length xs)

  pub length-append : (xs ys : List A) → length (xs ++ ys) ≡ length xs + length ys
  length-append [] ys = omega arith
  length-append (x ∷ xs) ys = omega (arith, length-append xs ys)

  abbrev pub replicate : ℕ → A → List A
  replicate zero a = []
  replicate (suc n) a = a ∷ replicate n a

  abbrev pub take : ℕ → List A → List A
  take zero xs = []
  take (suc n) [] = []
  take (suc n) (x ∷ xs) = x ∷ take n xs

  abbrev pub drop : ℕ → List A → List A
  drop zero xs = xs
  drop (suc n) [] = []
  drop (suc n) (x ∷ xs) = drop n xs

  -- The sum of a measure over a list.
  abbrev pub sum_by : (A → ℕ) → List A → ℕ
  sum_by f [] = 0
  sum_by f (x ∷ xs) = f x + sum_by f xs

  pub sum_by-append : (f : A → ℕ) (xs ys : List A) → sum_by f (xs ++ ys) ≡ sum_by f xs + sum_by f ys
  sum_by-append f [] ys = omega arith
  sum_by-append f (x ∷ xs) ys = omega (arith, sum_by-append f xs ys)

  -- `s[:len(s)-1]` and `s[len(s)-1]`.
  pub cons_last : A → Option (List A × A) → List A × A
  cons_last x none = ([], x)
  cons_last x (some (xs, y)) = (x ∷ xs, y)

  unfoldable pub split_last : List A → Option (List A × A)
  unfolding cons_last
  split_last [] = none
  split_last (x ∷ xs) = some (cons_last x (split_last xs))

module _ {ℓ} {A : Type ℓ} where
  pub split_last-append : (xs : List A) (y : A) → split_last (xs ++ y ∷ []) ≡ some (xs, y)
  unfolding split_last
  split_last-append [] y = refl
  split_last-append (x ∷ xs) y = rw (split_last-append xs y)

  pub split_last-none : (xs : List A) → split_last xs ≡ none → xs ≡ []
  unfolding split_last
  split_last-none [] h = refl
  split_last-none (x ∷ xs) h = ground arith

  cons_last-join :
      (x : A) (xs : List A) (o : Option (List A × A)) (ys : List A) (y : A)
      → (o ≡ none → xs ≡ [])
      → ((zs : List A) (z : A) → o ≡ some (zs, z) → xs ≡ zs ++ z ∷ [])
      → cons_last x o ≡ (ys, y)
      → x ∷ xs ≡ ys ++ y ∷ []
  unfolding cons_last
  cons_last-join x xs none ys y hn hs e = ground (arith, hn refl)
  cons_last-join x xs (some (zs, z)) ys y hn hs e = ground (arith, hs zs z refl)

  -- What `split_last` returns is the list again.
  pub split_last-join : (xs ys : List A) (y : A) → split_last xs ≡ some (ys, y) → xs ≡ ys ++ y ∷ []
  unfolding split_last
  split_last-join [] ys y h = ground arith
  split_last-join (x ∷ xs) ys y h =
      cons_last-join x xs (split_last xs) ys y (split_last-none xs) (split_last-join xs)
        (ground arith)

module _ {ℓ κ} {A : Type ℓ} where
  abbrev pub All : (A → Type κ) → List A → Type κ
  All P [] = Unit
  All P (x ∷ xs) = P x × All P xs

  pub All-append : (P : A → Type κ) (xs ys : List A) → All P xs → All P ys → All P (xs ++ ys)
  All-append P [] ys hx hy = hy
  All-append P (x ∷ xs) ys hx hy = (hx.0, All-append P xs ys hx.1 hy)

  pub All-left : (P : A → Type κ) (xs ys : List A) → All P (xs ++ ys) → All P xs
  All-left P [] ys h = tt
  All-left P (x ∷ xs) ys h = (h.0, All-left P xs ys h.1)

  pub All-right : (P : A → Type κ) (xs ys : List A) → All P (xs ++ ys) → All P ys
  All-right P [] ys h = h
  All-right P (x ∷ xs) ys h = All-right P xs ys h.1

  pub All-map : (P Q : A → Type κ) → ((a : A) → P a → Q a) → (xs : List A) → All P xs → All Q xs
  All-map P Q f [] h = tt
  All-map P Q f (x ∷ xs) h = (f x h.0, All-map P Q f xs h.1)
