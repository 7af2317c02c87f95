-- ===== src/Pool/Reaping.antt =====
-- What the reaper does (`reap` of pkg/exec/pool.go): exactly the containers that were last used by
-- the given time go, and the books stay right.
use functions_invoker.Base.{
  ℕ, ◌+◌, ◌-◌, ◌≤◌, ◌<◌, ◌≡◌, refl, sym, ap, ◌∙◌, List, [], ◌∷◌, ◌++◌, All, All-map, All-right,
  arith, inl, inr, Bool-cases, sum_by, sum_by-append, sub64, sub64_exact, u64_mod, sum_slices, ltb,
  ltb→lt, ltb-false, List-cases,
}
use functions_invoker.Container.{PooledContainer, WarmContainerKey, warm_key_eq}
use functions_invoker.Pool.State.{Idles, held, memory_of}
use functions_invoker.Pool.Books.{Homed, Lined, Ascending}
use functions_invoker.Pool.Reap.{cutoff, sub_memory, reap_map}

pub cutoff-append : (t : ℕ) (cs : List PooledContainer) → (cutoff t cs).0 ++ (cutoff t cs).1 ≡ cs
unfolding cutoff
cutoff-append t [] = refl
cutoff-append t (c ∷ cs) = ground (arith, cutoff-append t cs)

pub cutoff-old : (t : ℕ) (cs : List PooledContainer) → All (λ c. c.last_used ≤ t) (cutoff t cs).0
unfolding cutoff
cutoff-old t [] = tt
cutoff-old t (c ∷ cs) = elim (Bool-cases (ltb t c.last_used)) [
  | inl young ↦ rw young tt
  | inr old ↦ rw old (ltb-false _ _ old, cutoff-old t cs)
]

pub cutoff-young :
    (t : ℕ) (cs : List PooledContainer) → Ascending cs → All (λ c. t < c.last_used) (cutoff t cs).1
unfolding cutoff
cutoff-young t [] a = tt
cutoff-young t (c ∷ cs) a = elim (Bool-cases (ltb t c.last_used)) [
  | inl young ↦ rw young (
    ltb→lt _ _ young,
    All-map (λ d. c.last_used ≤ d.last_used) (λ d. t < d.last_used)
        (λ d h. omega (arith, ltb→lt _ _ young)) cs a.0,
  )
  | inr old ↦ rw old (cutoff-young t cs a.1)
]

pub Ascending-right : (cs ds : List PooledContainer) → Ascending (cs ++ ds) → Ascending ds
Ascending-right [] ds a = a
Ascending-right (c ∷ cs) ds a = Ascending-right cs ds a.1

pub cutoff-Lined :
    (sizes : WarmContainerKey → ℕ) (now t : ℕ) (k : WarmContainerKey) (cs : List PooledContainer)
    → Lined sizes now k cs
    → Lined sizes now k (cutoff t cs).1
cutoff-Lined sizes now t k cs l =
    let l' : Lined sizes now k ((cutoff t cs).0 ++ (cutoff t cs).1) = rw (cutoff-append t cs) l in
    (
      All-right (Homed sizes now k) (cutoff t cs).0 (cutoff t cs).1 l'.0,
      Ascending-right (cutoff t cs).0 _ l'.1,
    )

pub sub_memory_exact :
    (total : ℕ) (cs : List PooledContainer)
    → sum_by memory_of cs ≤ total
    → total < u64_mod
    → sub_memory total cs ≡ total - sum_by memory_of cs
unfolding sub_memory
sub_memory_exact total [] h l = omega arith
sub_memory_exact total (c ∷ cs) h l =
    let first : sub64 total c.memory ≡ total - c.memory =
      sub64_exact total c.memory (omega arith) l in
    rw first (omega (arith, sub_memory_exact (total - c.memory) cs (omega arith) (omega arith)))

-- One entry of the map: the rest without the entry if nothing of it stays.
abbrev pub keep_entry : WarmContainerKey → List PooledContainer → Idles → Idles
keep_entry k [] m = m
keep_entry k (y ∷ ys) m = (k, y ∷ ys) ∷ m

-- The entries that stay.
unfoldable pub kept_map : ℕ → Idles → Idles
kept_map t [] = []
kept_map t ((k, cs) ∷ m) = keep_entry k (cutoff t cs).1 (kept_map t m)

unfoldable pub deleted_list : ℕ → Idles → List PooledContainer
deleted_list t [] = []
deleted_list t ((k, cs) ∷ m) = (cutoff t cs).0 ++ deleted_list t m

reap_entry :
    (t memory : ℕ) (k : WarmContainerKey) (cs : List PooledContainer) (m : Idles)
    → reap_map t memory ((k, cs) ∷ m) ≡ (
        let rest = reap_map t (sub_memory memory (cutoff t cs).0) m in
        record {
          kept = keep_entry k (cutoff t cs).1 rest.kept;
          deleted = (cutoff t cs).0 ++ rest.deleted;
          memory = rest.memory;
        })
unfolding reap_map
reap_entry t memory k cs m = elim (List-cases (cutoff t cs).1) [
  | inl e ↦ rw (e, reap_map)
  | inr (y, ys, e) ↦ rw (e, reap_map)
]

-- The loop over the map computes these, whatever the memory.
pub reap_map-parts :
    (t memory : ℕ) (m : Idles)
    → ((reap_map t memory m).kept ≡ kept_map t m)
      × ((reap_map t memory m).deleted ≡ deleted_list t m)
unfolding kept_map deleted_list
reap_map-parts t memory [] = (unfold reap_map in refl, unfold reap_map in refl)
reap_map-parts t memory ((k, cs) ∷ m) =
    let (kept, deleted) = reap_map-parts t (sub_memory memory (cutoff t cs).0) m in
    (rw (reap_entry t memory k cs m, kept), rw (reap_entry t memory k cs m, deleted))

pub held-kept :
    (t : ℕ) (m : Idles) → held (kept_map t m) + sum_by memory_of (deleted_list t m) ≡ held m
unfolding kept_map deleted_list sum_slices
held-kept t [] = omega arith
held-kept t ((k, cs) ∷ m) = elim (List-cases (cutoff t cs).1) [
  | inl e ↦ rw e (omega (arith, held-kept t m, split, ap (sum_by memory_of) e, join))
  | inr (y, ys, e) ↦ rw e (omega (arith, held-kept t m, split, ap (sum_by memory_of) e, join))
]
  where
    split :
        sum_by memory_of (cutoff t cs).0 + sum_by memory_of (cutoff t cs).1 ≡ sum_by memory_of cs
    split =
        sym (sum_by-append memory_of (cutoff t cs).0 (cutoff t cs).1)
        ∙ ap (sum_by memory_of) (cutoff-append t cs)

    join :
        sum_by memory_of ((cutoff t cs).0 ++ deleted_list t m)
        ≡ sum_by memory_of (cutoff t cs).0 + sum_by memory_of (deleted_list t m)
    join = sum_by-append memory_of (cutoff t cs).0 (deleted_list t m)

pub reap_map-memory :
    (t memory : ℕ) (m : Idles)
    → held m ≤ memory
    → memory < u64_mod
    → (reap_map t memory m).memory ≡ memory - sum_by memory_of (deleted_list t m)
unfolding deleted_list sum_slices
reap_map-memory t memory [] h l = unfold reap_map in omega arith
reap_map-memory t memory ((k, cs) ∷ m) h l =
    let old = (cutoff t cs).0 in
    let young = (cutoff t cs).1 in
    let split : sum_by memory_of old + sum_by memory_of young ≡ sum_by memory_of cs =
      sym (sum_by-append memory_of old young) ∙ ap (sum_by memory_of) (cutoff-append t cs) in
    let first = sub_memory_exact memory old (omega (arith, split)) l in
    let rest =
      reap_map-memory t (sub_memory memory old) m (omega (arith, first, split))
        (omega (arith, first)) in
    rw (reap_entry t memory k cs m)
      (rest ∙ omega (arith, first, sum_by-append memory_of old (deleted_list t m)))
