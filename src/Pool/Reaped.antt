-- ===== src/Pool/Reaped.antt =====
-- `reap` as a whole (pkg/exec/pool.go).
use mathlib.Core.List.{append_assoc, Perm, perm_append_comm}
use mathlib.Core.List.Perm
use functions_invoker.Base.{
  ℕ, ◌≤◌, ◌<◌, ◌≡◌, ◌≢◌, refl, subst, none, List, [], ◌∷◌, ◌++◌, All, All-append, Entries, lookup,
  Distinct, arith,
}
use functions_invoker.Container.{PooledContainer, WarmContainerKey, World, warm_key_eq}
use functions_invoker.Pool.State.{Pool, Idles, lock, unlock, record_calls}
use functions_invoker.Pool.Books.{Lined}
use functions_invoker.Pool.Valid.{IsValid}
use functions_invoker.Pool.Reap.{cutoff, reap, dispose_all, all_idle}
use functions_invoker.Pool.Reaping.{
  cutoff-append, cutoff-old, cutoff-young, cutoff-Lined, kept_map, deleted_list, keep_entry,
  reap_map-parts, reap_map-memory, held-kept,
}

keep_entry-lookup :
    (j k : WarmContainerKey) (cs : List PooledContainer) (m n : Idles)
    → (lookup j m ≡ none → lookup j n ≡ none)
    → lookup j ((k, cs) ∷ m) ≡ none
    → (ys : List PooledContainer) → lookup j (keep_entry k ys n) ≡ none
unfolding lookup
keep_entry-lookup j k cs m n ih e [] = ih (ground arith)
keep_entry-lookup j k cs m n ih e (y ∷ ys) = ground (arith, ih (ground arith))

kept-lookup :
    (t : ℕ) (j : WarmContainerKey) (m : Idles) → lookup j m ≡ none → lookup j (kept_map t m) ≡ none
unfolding kept_map
kept-lookup t j [] e = unfold lookup in refl
kept-lookup t j ((k, cs) ∷ m) e =
    keep_entry-lookup j k cs m (kept_map t m) (kept-lookup t j m) e (cutoff t cs).1

kept-Distinct : (t : ℕ) (m : Idles) → Distinct m → Distinct (kept_map t m)
unfolding kept_map
kept-Distinct t [] d = tt
kept-Distinct t ((k, cs) ∷ m) d = go (cutoff t cs).1 (kept-Distinct t m d.1)
  where
    go :
        (ys : List PooledContainer)
        → Distinct (kept_map t m)
        → Distinct (keep_entry k ys (kept_map t m))
    go [] rest = rest
    go (y ∷ ys) rest = (kept-lookup t k m d.0, rest)

kept-Lined :
    (sizes : WarmContainerKey → ℕ) (now t : ℕ) (m : Idles)
    → Entries (Lined sizes now) m
    → Entries (Lined sizes now) (kept_map t m)
unfolding kept_map
kept-Lined sizes now t [] es = tt
kept-Lined sizes now t ((k, cs) ∷ m) es =
    go (cutoff t cs).1 (cutoff-Lined sizes now t k cs es.0) (kept-Lined sizes now t m es.1)
  where
    go :
        (ys : List PooledContainer)
        → Lined sizes now k ys
        → Entries (Lined sizes now) (kept_map t m)
        → Entries (Lined sizes now) (keep_entry k ys (kept_map t m))
    go [] l r = r
    go (y ∷ ys) l r = (l, r)

-- Every list that stays has a container, and all its containers are younger than the cutoff.
abbrev pub AllYounger : ℕ → Idles → Type 0
AllYounger t = Entries (λ k cs. (cs ≢ []) × All (λ c. t < c.last_used) cs)

kept-AllYounger :
    (sizes : WarmContainerKey → ℕ) (now t : ℕ) (m : Idles)
    → Entries (Lined sizes now) m
    → AllYounger t (kept_map t m)
unfolding kept_map
kept-AllYounger sizes now t [] es = tt
kept-AllYounger sizes now t ((k, cs) ∷ m) es =
    go (cutoff t cs).1 (cutoff-young t cs es.0.1) (kept-AllYounger sizes now t m es.1)
  where
    go :
        (ys : List PooledContainer)
        → All (λ c. t < c.last_used) ys
        → AllYounger t (kept_map t m)
        → AllYounger t (keep_entry k ys (kept_map t m))
    go [] l r = r
    go (y ∷ ys) l r = (((λ e. cc), l), r)

deleted-old : (t : ℕ) (m : Idles) → All (λ c. c.last_used ≤ t) (deleted_list t m)
unfolding deleted_list
deleted-old t [] = tt
deleted-old t ((k, cs) ∷ m) =
    All-append (λ c. c.last_used ≤ t) (cutoff t cs).0 (deleted_list t m) (cutoff-old t cs)
      (deleted-old t m)

all_idle-keep_entry :
    (k : WarmContainerKey) (ys : List PooledContainer) (m : Idles)
    → all_idle (keep_entry k ys m) ≡ ys ++ all_idle m
unfolding all_idle
all_idle-keep_entry k [] m = refl
all_idle-keep_entry k (y ∷ ys) m = refl

swap_middle {ℓ} :
    {A : Type ℓ} (a b c d : List A) → Perm ((a ++ b) ++ (c ++ d)) ((a ++ c) ++ (b ++ d))
swap_middle a b c d =
    rw
      (
        append_assoc a b (c ++ d),
        append_assoc a c (b ++ d),
        ← append_assoc b c d,
        ← append_assoc c b d,
      )
      (Perm.append_left a (Perm.append_right d (perm_append_comm b c)))

kept-perm : (t : ℕ) (m : Idles) → Perm (all_idle m) (deleted_list t m ++ all_idle (kept_map t m))
unfolding all_idle deleted_list kept_map
kept-perm t [] = Perm.refl []
kept-perm t ((k, cs) ∷ m) =
    let old = (cutoff t cs).0 in
    let young = (cutoff t cs).1 in
    let rest = Perm.append_left (old ++ young) (kept-perm t m) in
    rw (all_idle-keep_entry k young (kept_map t m)) (
      subst
        (λ (l : List PooledContainer).
          Perm (l ++ all_idle m) ((old ++ deleted_list t m) ++ (young ++ all_idle (kept_map t m))))
        (cutoff-append t cs)
        (Perm.trans rest (swap_middle old young (deleted_list t m) (all_idle (kept_map t m)))))

module _ (sizes : WarmContainerKey → ℕ) (now : ℕ) (w : World) (t : ℕ) (p : Pool) where
  -- Reaping keeps the invariant and leaves the containers in flight alone.
  pub reap-IsValid :
      IsValid sizes now p
      → IsValid sizes now (reap w t p).0 × ((reap w t p).0.in_flight ≡ p.in_flight)
  unfolding reap lock unlock record_calls
  reap-IsValid v =
      let b = v.books in
      let parts = reap_map-parts t p.idles_memory p.idles in
      let memory =
        reap_map-memory t p.idles_memory p.idles (omega (arith, b.accounted))
          (omega (arith, b.small, b.idle_within)) in
      (
        record {
          books = record {
            accounted = rw (parts.0, memory) (omega (arith, held-kept t p.idles, b.accounted));
            agreed = b.agreed;
            small = b.small;
            admitted = b.admitted;
            idle_within = omega (arith, memory, b.idle_within);
            distinct = rw parts.0 (kept-Distinct t p.idles b.distinct);
            entries = rw parts.0 (kept-Lined sizes now t p.idles b.entries);
          };
          within = omega (arith, memory, v.within);
          unlocked = refl;
          stock = v.stock;
        },
        refl,
      )

  -- The reaper takes apart the idle containers: those last used by the cutoff are disposed of, in
  -- one go and each once, those used later stay, and no list is left empty.
  pub reap-split :
      IsValid sizes now p
      → (old : List PooledContainer) × Perm
          (all_idle p.idles)
          (old ++ all_idle (reap w t p).0.idles)
        × All (λ c. c.last_used ≤ t) old
        × AllYounger t (reap w t p).0.idles
        × ((reap w t p).0.calls ≡ (dispose_all w old).0 ++ p.calls)
  unfolding reap lock unlock record_calls
  reap-split v =
      let parts = reap_map-parts t p.idles_memory p.idles in
      (
        deleted_list t p.idles,
        rw parts.0 (kept-perm t p.idles),
        deleted-old t p.idles,
        rw parts.0 (kept-AllYounger sizes now t p.idles v.books.entries),
        rw parts.1,
      )
