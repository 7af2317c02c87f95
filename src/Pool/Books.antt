-- ===== src/Pool/Books.antt =====
-- What holds of the pool's books between the steps of an operation (pkg/exec/pool.go). `sizes` is
-- the memory limit of each function revision, with which every call for it comes.
use functions_invoker.Base.{
  ℕ, ◌+◌, ◌-◌, ◌^◌, ◌≤◌, ◌<◌, ◌≡◌, refl, Option, none, some, List, [], ◌∷◌, All, sum_by, lookup,
  insert, Distinct, Entries, slice, insert-Distinct, insert-Entries, lookup-Entries,
  sum_slices-insert, sub64_exact, sub64, arith, length, ap,
}
use functions_invoker.Container.{PooledContainer, WarmContainerKey, warm_key_eq}
use functions_invoker.Pool.State.{
  Pool, Idles, idle_at, drop_first, tail, held, population, memory_of,
}

-- Ordered by last use, the longest unused first.
abbrev pub Ascending : List PooledContainer → Type 0
Ascending [] = Unit
Ascending (c ∷ cs) = All (λ d. c.last_used ≤ d.last_used) cs × Ascending cs

-- A container in the list of a key was initialized for it, has its size, and was last used by now.
pub record Homed (sizes : WarmContainerKey → ℕ) (now : ℕ) (k : WarmContainerKey)
    (c : PooledContainer) : Type 0 where
  pub key : c.initialized_for ≡ k
  pub size : c.memory ≡ sizes k
  pub past : c.last_used ≤ now

abbrev pub Lined : (WarmContainerKey → ℕ) → ℕ → WarmContainerKey → List PooledContainer → Type 0
Lined sizes now k cs = All (Homed sizes now k) cs × Ascending cs

pub record Books (sizes : WarmContainerKey → ℕ) (now : ℕ) (p : Pool) : Type 0 where
  pub accounted : held p.idles ≡ p.idles_memory
  pub agreed : p.in_flight_memory ≡ p.in_flight
  pub small : p.max_memory < 2 ^ 63
  pub admitted : p.in_flight ≤ p.max_memory
  pub idle_within : p.idles_memory ≤ p.max_memory
  pub distinct : Distinct p.idles
  pub entries : Entries (Lined sizes now) p.idles

module _ (sizes : WarmContainerKey → ℕ) (now : ℕ) where
  pub slice-Lined :
      (k : WarmContainerKey) (m : Idles)
      → Entries (Lined sizes now) m
      → Lined sizes now k (idle_at k m)
  slice-Lined k m es = go (lookup k m) refl
    where
      go : (o : Option (List PooledContainer)) → lookup k m ≡ o → Lined sizes now k (slice o)
      go none e = (tt, tt)
      go (some cs) e = lookup-Entries (Lined sizes now) k cs m e es

pub held-insert :
    (k : WarmContainerKey) (cs : List PooledContainer) (m : Idles)
    → held (insert k cs m) + sum_by memory_of (idle_at k m) ≡ held m + sum_by memory_of cs
held-insert = sum_slices-insert (sum_by memory_of) refl

pub population-insert :
    (k : WarmContainerKey) (cs : List PooledContainer) (m : Idles)
    → population (insert k cs m) + length (idle_at k m) ≡ population m + length cs
population-insert = sum_slices-insert length refl

-- Writing a list back keeps the shape of the map.
module _ (sizes : WarmContainerKey → ℕ) (now : ℕ) where
  pub insert-Lined :
      (k : WarmContainerKey) (cs : List PooledContainer) (m : Idles)
      → Lined sizes now k cs
      → Entries (Lined sizes now) m
      → Entries (Lined sizes now) (insert k cs m)
  insert-Lined = insert-Entries (Lined sizes now)

  -- Taking the first container out of its list.
  pub drop_first-Books :
      (c : PooledContainer) (cs : List PooledContainer) (p : Pool)
      → Books sizes now p
      → idle_at c.initialized_for p.idles ≡ c ∷ cs
      → Books sizes now (drop_first c p)
        × ((drop_first c p).idles_memory + c.memory ≡ p.idles_memory)
        × (population (drop_first c p).idles + 1 ≡ population p.idles)
  unfolding drop_first
  drop_first-Books c cs p b e = (
    record {
      accounted = omega (arith, memory, left);
      agreed = b.agreed;
      small = b.small;
      admitted = b.admitted;
      idle_within = omega (arith, left, b.idle_within);
      distinct = insert-Distinct c.initialized_for (tail slot) p.idles b.distinct;
      entries = insert-Lined c.initialized_for (tail slot) p.idles lined b.entries;
    },
    omega (arith, left, memory),
    omega (
      arith,
      ap length e,
      ap (λ (l : List PooledContainer). length (tail l)) e,
      population-insert c.initialized_for (tail slot) p.idles,
    ),
  )
    where
      slot : List PooledContainer
      slot = idle_at c.initialized_for p.idles

      memory : held (insert c.initialized_for (tail slot) p.idles) + c.memory ≡ held p.idles
      memory = omega (
        arith,
        ap (sum_by memory_of) e,
        ap (λ (l : List PooledContainer). sum_by memory_of (tail l)) e,
        held-insert c.initialized_for (tail slot) p.idles,
      )

      left : sub64 p.idles_memory c.memory ≡ p.idles_memory - c.memory
      left =
          sub64_exact p.idles_memory c.memory (omega (arith, memory, b.accounted))
            (omega (arith, b.small, b.idle_within))

      lined : Lined sizes now c.initialized_for (tail slot)
      lined = rw e (
          let l = rw e at (slice-Lined sizes now c.initialized_for p.idles b.entries) in
          (l.0.1, l.1.1))
