-- ===== src/Cache/Entries.antt =====
-- Keys and entries of the cache (pkg/entities/function_cache.go).
use mathlib.Core.Logic.{◌≢◌}
use functions_invoker.Base.{
  refl, ℕ, Bool, true, false, Option, none, some, ◌≡◌, ◌⊎◌, inl, inr, refl, ◌==◌, ==_iff,
  str_eq_iff, both, Bool-cases, fine, erred,
}
use functions_invoker.Cache.{CacheKey, same_key, Entry, unused, fresh, running, over, set}

pub same_key-same : (j k : CacheKey) → same_key j k ≡ true → j ≡ k
unfolding same_key
same_key-same j k h =
    let (names, revisions) = both _ _ h in
    λ i. record {
      name = (str_eq_iff j.name k.name).0 names i;
      revision = (str_eq_iff j.revision k.revision).0 revisions i;
    }

pub same_key_refl : (k : CacheKey) → same_key k k ≡ true
unfolding same_key
same_key_refl k =
    rw ((str_eq_iff k.name k.name).1 refl, (str_eq_iff k.revision k.revision).1 refl) refl

-- The number that was set, or one of the others.
pub set-cases {ℓ} :
    {A : Type ℓ} (i : ℕ) (a : A) (f : ℕ → A) (j : ℕ)
    → ((j ≡ i) × (set i a f j ≡ a)) ⊎ ((j ≢ i) × (set i a f j ≡ f j))
unfolding set
set-cases i a f j = elim (Bool-cases (j == i)) [
  | inl y ↦ rw y (inl ((==_iff j i).0 y, refl))
  | inr n ↦ rw n (inr (λ e. let y : (j == i) ≡ true = (==_iff j i).1 e in cc, refl))
]

pub set-same {ℓ} : {A : Type ℓ} (i : ℕ) (a : A) (f : ℕ → A) → set i a f i ≡ a
unfolding set
set-same i a f = rw ((==_iff i i).1 refl) refl

abbrev pub key_of : Entry → Option CacheKey
key_of unused = none
key_of (fresh k) = some k
key_of (running k) = some k
key_of (over k result) = some k

abbrev pub is_failed : Entry → Bool
is_failed unused = false
is_failed (fresh k) = false
is_failed (running k) = false
is_failed (over k (fine f)) = false
is_failed (over k (erred error)) = true
