-- ===== src/Base/Keys.antt =====
-- Types whose values can be compared, as Go's comparable types.
use Prim.Native.Nat.{ℕ, compare, Ordering}
use Prim.Native.Char.{code}
use Prim.Native.String.{String}
use mathlib.Core.Path.{◌≡◌, refl, ap, ◌∙◌}
use mathlib.Core.Logic.{◌↔◌}
use mathlib.Core.Bool.{Bool, true, false, ◌&&◌, ◌||◌}
use mathlib.Core.List.{List, [], ◌∷◌}
use native.Mathlib.Omega.{arith}
use text.Mathlib.Text.{◌==◌ as text_eq}
use text.Mathlib.TextEquality.{eq_iff}

pub record Eq {ℓ} (A : Type ℓ) : Type ℓ where
  pub beq : A → A → Bool
  pub beq_iff : (a b : A) → (beq a b ≡ true) ↔ (a ≡ b)

abbrev pub str_eq : String → String → Bool
str_eq = text_eq

pub str_eq_iff : (s t : String) → (str_eq s t ≡ true) ↔ (s ≡ t)
str_eq_iff s t = eq_iff s t

instance abbrev pub string_eq : Eq String
string_eq = record { beq = str_eq; beq_iff = str_eq_iff }

-- The code points of a text.
abbrev pub codes : String → List ℕ
codes String.[] = []
codes (String.◌∷◌ c s) = code c ∷ codes s

abbrev pub nat_eq : ℕ → ℕ → Bool
nat_eq a b = elim (compare a b) [ Ordering.eq ↦ true | _ ↦ false ]

unfoldable pub codes_eq : List ℕ → List ℕ → Bool
codes_eq [] [] = true
codes_eq (x ∷ xs) (y ∷ ys) = nat_eq x y && codes_eq xs ys
codes_eq [] (y ∷ ys) = false
codes_eq (x ∷ xs) [] = false

pub both : (a b : Bool) → (a && b) ≡ true → (a ≡ true) × (b ≡ true)
both true true h = (refl, refl)
both true false h = cc
both false b h = cc

pub nat_eq-same : (a b : ℕ) → nat_eq a b ≡ true → a ≡ b
nat_eq-same a b h = ground arith

pub codes_eq-same : (s t : List ℕ) → codes_eq s t ≡ true → s ≡ t
unfolding codes_eq
codes_eq-same [] [] h = refl
codes_eq-same (x ∷ xs) (y ∷ ys) h =
    let (a, b) = both (nat_eq x y) (codes_eq xs ys) h in
    ap (λ z. z ∷ xs) (nat_eq-same x y a) ∙ ap (λ (l : List ℕ). y ∷ l) (codes_eq-same xs ys b)
codes_eq-same [] (y ∷ ys) h = cc
codes_eq-same (x ∷ xs) [] h = cc

pub codes_eq_refl : (s : List ℕ) → codes_eq s s ≡ true
unfolding codes_eq
codes_eq_refl [] = refl
codes_eq_refl (x ∷ xs) = ground (arith, codes_eq_refl xs)

-- `strings.HasPrefix`.
unfoldable pub has_prefix : List ℕ → List ℕ → Bool
has_prefix text [] = true
has_prefix [] (y ∷ ys) = false
has_prefix (x ∷ xs) (y ∷ ys) = nat_eq x y && has_prefix xs ys

unfoldable pub ends_with : List ℕ → List ℕ → Bool
ends_with [] suffix = codes_eq [] suffix
ends_with (x ∷ xs) suffix = codes_eq (x ∷ xs) suffix || ends_with xs suffix

-- `strings.HasSuffix`.
unfoldable pub has_suffix : String → String → Bool
unfolding ends_with codes_eq
has_suffix s suffix = ends_with (codes s) (codes suffix)

-- A set of names is a list.
unfoldable pub is_member : String → List String → Bool
is_member x [] = false
is_member x (y ∷ ys) = str_eq x y || is_member x ys
