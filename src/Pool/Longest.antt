-- ===== src/Pool/Longest.antt =====
-- The search for the longest unused idle container (the inner loop of `getContainer`,
-- pkg/exec/pool.go): what it finds stands first in the list of its key, and is the oldest of all.
use native.Mathlib.Nat.{le_refl}
use functions_invoker.Base.{
  ℕ, ◌≤◌, ◌≡◌, refl, sym, ◌⊎◌, inl, inr, true, Option, none, some, List, [], ◌∷◌, All, All-map,
  lookup, Distinct, Entries, slice, sum_slices, arith, ltb, Bool-cases,
}
use functions_invoker.Container.{
  PooledContainer, WarmContainerKey, warm_key_eq, warm_eq_iff, warm_eq,
}
use functions_invoker.Pool.State.{Idles, idle_at, held}
use functions_invoker.Pool.Space.{older, longest_unused}
use functions_invoker.Pool.Books.{Homed, Lined, Ascending}

-- `c` stands first in some list of the map.
abbrev pub Heads : PooledContainer → Idles → Type 0
Heads c [] = ⊥
Heads c ((k, cs) ∷ m) = ((rest : List PooledContainer) × (cs ≡ c ∷ rest)) ⊎ Heads c m

older_cases :
    (best : Option PooledContainer) (cs : List PooledContainer)
    → (older best cs ≡ best)
      ⊎ ((c : PooledContainer) × (rest : List PooledContainer) × (cs ≡ c ∷ rest)
          × (older best cs ≡ some c))
unfolding older
older_cases best [] = inl refl
older_cases none (c ∷ cs) = inr (c, cs, refl, refl)
older_cases (some b) (c ∷ cs) = elim (Bool-cases (ltb c.last_used b.last_used)) [
  | inl t ↦ inr (c, cs, refl, rw t)
  | inr f ↦ inl (rw f)
]

-- What the search returns is its first candidate or the head of a list.
pub longest_unused-Heads :
    (best : Option PooledContainer) (m : Idles) (c : PooledContainer)
    → longest_unused best m ≡ some c
    → (best ≡ some c) ⊎ Heads c m
unfolding longest_unused
longest_unused-Heads best [] c e = inl e
longest_unused-Heads best ((k, cs) ∷ m) c e = elim (longest_unused-Heads (older best cs) m c e) [
  | inr later ↦ inr (inr later)
  | inl found ↦ elim (older_cases best cs) [
    | inl kept ↦ inl (rw kept at found)
    | inr (d, rest, split, chosen) ↦ inr (inl (rest, ground arith))
  ]
]

-- In a map whose lists belong to their keys, such a container is the head of its own list.
pub Heads-at :
    (sizes : WarmContainerKey → ℕ) (now : ℕ) (c : PooledContainer) (m : Idles)
    → Distinct m
    → Entries (Lined sizes now) m
    → Heads c m
    → (rest : List PooledContainer) × (idle_at c.initialized_for m ≡ c ∷ rest)
unfolding lookup
Heads-at sizes now c [] d es h = elim h [ ]
Heads-at sizes now c ((k, cs) ∷ m) d es (inl (rest, e)) =
    let all : All (Homed sizes now k) (c ∷ rest) = rw e at es.0.0 in
    let here : warm_eq k c.initialized_for ≡ true =
      (warm_eq_iff k c.initialized_for).1 (sym all.0.key) in
    (rest, rw here e)
Heads-at sizes now c ((k, cs) ∷ m) d es (inr h) =
    let (rest, e) = Heads-at sizes now c m d.1 es.1 h in
    elim (Bool-cases (warm_eq k c.initialized_for)) [
      | inr other ↦ (rest, rw other e)
      | inl same ↦
          let key : k ≡ c.initialized_for = (warm_eq_iff k c.initialized_for).0 same in
          let gone : lookup c.initialized_for m ≡ none = rw key at d.0 in absurd (nothing gone e)
    ]
  where
    nothing :
        {o : Option (List PooledContainer)} {rest : List PooledContainer}
        → o ≡ none
        → slice o ≡ c ∷ rest
        → ⊥
    nothing p q = ground arith

-- The search fails only where nothing is left.
older-some :
    (b : PooledContainer) (cs : List PooledContainer)
    → (c : PooledContainer) × (older (some b) cs ≡ some c)
unfolding older
older-some b [] = (b, refl)
older-some b (c ∷ cs) = elim (Bool-cases (ltb c.last_used b.last_used)) [
  | inl t ↦ (c, rw t)
  | inr f ↦ (b, rw f)
]

longest_unused-some : (b : PooledContainer) (m : Idles) → longest_unused (some b) m ≡ none → ⊥
unfolding longest_unused
longest_unused-some b [] e = cc
longest_unused-some b ((k, cs) ∷ m) e =
    let (c, q) = older-some b cs in longest_unused-some c m (rw q at e)

pub longest_unused-none : (m : Idles) → longest_unused none m ≡ none → held m ≡ 0
unfolding longest_unused older sum_slices
longest_unused-none [] e = refl
longest_unused-none ((k, []) ∷ m) e = omega (arith, longest_unused-none m e)
longest_unused-none ((k, c ∷ cs) ∷ m) e = absurd (longest_unused-some c m e)

-- The result is no younger than any list's head, nor than its first candidate.
abbrev NoYounger : PooledContainer → Option PooledContainer → Type 0
NoYounger c none = Unit
NoYounger c (some b) = c.last_used ≤ b.last_used

older-NoYounger :
    (sizes : WarmContainerKey → ℕ) (now : ℕ) (k : WarmContainerKey) (c : PooledContainer)
    (best : Option PooledContainer) (cs : List PooledContainer)
    → Ascending cs
    → NoYounger c (older best cs)
    → NoYounger c best × All (λ d. c.last_used ≤ d.last_used) cs
unfolding older
older-NoYounger sizes now k c best [] a h = (h, tt)
older-NoYounger sizes now k c none (d ∷ cs) a h = (
  tt,
  (
    h,
    All-map (λ x. d.last_used ≤ x.last_used) (λ x. c.last_used ≤ x.last_used) (λ x q. omega arith)
        cs a.0,
  ),
)
older-NoYounger sizes now k c (some b) (d ∷ cs) a h =
    let low : (c.last_used ≤ b.last_used) × (c.last_used ≤ d.last_used) = ground arith in
    (
      low.0,
      (
        low.1,
        All-map (λ x. d.last_used ≤ x.last_used) (λ x. c.last_used ≤ x.last_used)
            (λ x q. omega (arith, low.1)) cs a.0,
      ),
    )

pub longest_unused-oldest :
    (sizes : WarmContainerKey → ℕ) (now : ℕ) (best : Option PooledContainer) (m : Idles)
    (c : PooledContainer)
    → Entries (Lined sizes now) m
    → longest_unused best m ≡ some c
    → NoYounger c best × Entries (λ k. All (λ d. c.last_used ≤ d.last_used)) m
unfolding longest_unused
longest_unused-oldest sizes now best [] c es e = (rw e (le_refl c.last_used), tt)
longest_unused-oldest sizes now best ((k, cs) ∷ m) c es e =
    let (low, rest) = longest_unused-oldest sizes now (older best cs) m c es.1 e in
    let (first, here) = older-NoYounger sizes now k c best cs es.0.1 low in (first, (here, rest))
