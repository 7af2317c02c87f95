-- ===== src/Firewall/Finding.antt =====
-- The search for an object of the cluster, before and after a change (pkg/firewall/firewall.go).
use mathlib.Core.Option.{map as option_map, some-injective}
use functions_invoker.Base.{
  inr, ◌∙◌, ◌⊎◌, refl, sym, ap, inl, Bool-cases, true, Bool, false, List, [], ◌∷◌, ◌++◌, ◌≡◌,
  Option, none, some,
}
use functions_invoker.Firewall.Table.{Reconciler, reject_nodes, Node}
use functions_invoker.Firewall.Watching.{find_first}

module _ {ℓ κ} {A : Type ℓ} {B : Type κ} (p : A → Bool) (f : A → B) where
  pub find_first-insert :
      (before after : List A) (x : A)
      → p x ≡ false
      → find_first p (before ++ x ∷ after) ≡ find_first p (before ++ after)
  unfolding find_first
  find_first-insert [] after x h = rw h refl
  find_first-insert (y ∷ before) after x h = rw (find_first-insert before after x h) refl

  pub find_first-replace :
      (before after : List A) (x y : A)
      → p x ≡ p y
      → (p y ≡ true → f x ≡ f y)
      → option_map f (find_first p (before ++ x ∷ after))
        ≡ option_map f (find_first p (before ++ y ∷ after))
  unfolding find_first
  find_first-replace [] after x y same agree = elim (Bool-cases (p y)) [
    | inl found ↦ rw (same, found) (ap some (agree found))
    | inr n ↦ rw (same, n) refl
  ]
  find_first-replace (z ∷ before) after x y same agree = elim (Bool-cases (p z)) [
    | inl found ↦ rw found refl
    | inr n ↦ rw n (find_first-replace before after x y same agree)
  ]

  pub find_first-passes : (xs : List A) (x : A) → find_first p xs ≡ some x → p x ≡ true
  unfolding find_first
  find_first-passes [] x h = cc
  find_first-passes (y ∷ xs) x h = elim (Bool-cases (p y)) [
    | inl found ↦ ap p (sym (some-injective _ _ (rw found at h))) ∙ found
    | inr n ↦ find_first-passes xs x (rw n at h)
  ]

  -- Two options with the same image are both nothing, or have the same image inside.
  pub map-agree :
      (a b : Option A)
      → option_map f a ≡ option_map f b
      → ((a ≡ none) × (b ≡ none)) ⊎ ((x : A) × (y : A) × (a ≡ some x) × (b ≡ some y) × (f x ≡ f y))
  map-agree none none h = inl (refl, refl)
  map-agree none (some y) h = cc
  map-agree (some x) none h = cc
  map-agree (some x) (some y) h = inr (x, y, refl, refl, some-injective _ _ h)

pub nodes_agree :
    (r : Reconciler) (before after : List Node) (old changed : Node)
    → old.name ≡ changed.name
    → old.addresses ≡ changed.addresses
    → reject_nodes r (before ++ old ∷ after) ≡ reject_nodes r (before ++ changed ∷ after)
unfolding reject_nodes
nodes_agree r [] after old changed n a = rw (n, a) refl
nodes_agree r (x ∷ before) after old changed n a =
    rw (nodes_agree r before after old changed n a) refl
