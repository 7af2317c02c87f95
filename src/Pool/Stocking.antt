-- ===== src/Pool/Stocking.antt =====
-- What `reconcilePrewarm` does (pkg/exec/pool.go).
use functions_invoker.Base.{
  ℕ, zero, suc, ◌+◌, ◌≡◌, refl, ap, ◌∙◌, true, Option, none, some, List, [], ◌∷◌, ◌++◌, All,
  All-append, lookup, lookup-insert, insert, insert-Entries, lookup-Entries, slice, arith,
  Bool-cases, Option-cases, inl, inr, length, length-append, add64, if◌then◌else◌,
}
use functions_invoker.Container.{
  PooledContainer, PrewarmContainerKey, WarmContainerKey, World, prewarm,
}
use functions_invoker.Pool.State.{Pool, Prewarmed, record_calls}
use functions_invoker.Pool.Get.{prewarm_key_eq, prewarm_eq, prewarm_eq_iff}
use functions_invoker.Pool.Prewarm.{
  prewarmed_at, Creations, create_prewarmed, create_many, create_all, reconcile_prewarm,
}
use functions_invoker.Pool.Valid.{IsValid, Stock, Stocked, Books-other}

slice-Stocked :
    (pk : PrewarmContainerKey) (m : Prewarmed) → Stock m → All (Stocked pk) (prewarmed_at pk m)
slice-Stocked pk m s = go (lookup pk m) refl
  where
    go : (o : Option (List PooledContainer)) → lookup pk m ≡ o → All (Stocked pk) (slice o)
    go none e = tt
    go (some cs) e = lookup-Entries (λ k. All (Stocked k)) pk cs m e s

-- The list of a key grows by one, the others stay.
abbrev pub Grown : PrewarmContainerKey → ℕ → Pool → Pool → Type 0
Grown pk n p q =
    (j : PrewarmContainerKey)
    → length (prewarmed_at j q.prewarmed)
      ≡ length (prewarmed_at j p.prewarmed) + (if prewarm_eq pk j then n else 0)

create_prewarmed-frame :
    (w : World) (pk : PrewarmContainerKey) (p : Pool)
    → let q = (create_prewarmed w pk p).0 in
      q ≡ record p {
        containers_created = q.containers_created;
        prewarmed = q.prewarmed;
        calls = q.calls;
      }
unfolding create_prewarmed record_calls
create_prewarmed-frame w pk p = ground arith

create_prewarmed-Stock :
    (w : World) (pk : PrewarmContainerKey) (p : Pool)
    → Stock p.prewarmed
    → Stock (create_prewarmed w pk p).0.prewarmed
unfolding create_prewarmed record_calls
create_prewarmed-Stock w pk p s =
    elim (Option-cases
      (w.create pk.kind pk.memory (prewarm (add64 p.containers_created 1) pk.kind))) [
        | inl e ↦ rw (e, create_prewarmed) s
        | inr (h, e) ↦
            rw (e, create_prewarmed)
              (insert-Entries (λ k. All (Stocked k)) pk _ p.prewarmed
                (All-append (Stocked pk) (prewarmed_at pk p.prewarmed) _
                  (slice-Stocked pk p.prewarmed s) (record { size = refl; bare = refl }, tt))
                s)
      ]

-- Appending to one list of a map of slices.
length-insert :
    (pk j : PrewarmContainerKey) (xs : List PooledContainer) (m : Prewarmed)
    → length (prewarmed_at j (insert pk (prewarmed_at pk m ++ xs) m))
      ≡ length (prewarmed_at j m) + (if prewarm_eq pk j then length xs else 0)
length-insert pk j xs m = elim (Bool-cases (prewarm_eq pk j)) [
  | inl same ↦
      let key : pk ≡ j = (prewarm_eq_iff pk j).0 same in
      rw (lookup-insert pk j (prewarmed_at pk m ++ xs) m)
        (rw same (rw (length-append (prewarmed_at pk m) xs) (rw key)))
  | inr other ↦ rw (lookup-insert pk j (prewarmed_at pk m ++ xs) m) (rw other (omega arith))
]

create_prewarmed-Grown :
    (w : World) (pk : PrewarmContainerKey) (p : Pool)
    → (create_prewarmed w pk p).1 ≡ true
    → Grown pk 1 p (create_prewarmed w pk p).0
unfolding create_prewarmed record_calls
create_prewarmed-Grown w pk p done j =
    elim (Option-cases
      (w.create pk.kind pk.memory (prewarm (add64 p.containers_created 1) pk.kind))) [
        | inl e ↦ cc (rw (e, create_prewarmed) at done)
        | inr (h, e) ↦ rw (e, create_prewarmed) (length-insert pk j _ p.prewarmed)
      ]

-- What a creation leaves alone.
pub record Stocks (sizes : WarmContainerKey → ℕ) (now : ℕ) (p q : Pool) : Type 0 where
  pub valid : IsValid sizes now p → IsValid sizes now q
  pub flight : q.in_flight ≡ p.in_flight
  pub limit : q.max_memory ≡ p.max_memory

module _ (sizes : WarmContainerKey → ℕ) (now : ℕ) where
  create_prewarmed-Stocks :
      (w : World) (pk : PrewarmContainerKey) (p : Pool)
      → Stocks sizes now p (create_prewarmed w pk p).0
  create_prewarmed-Stocks w pk p =
      let frame = create_prewarmed-frame w pk p in
      record {
        valid = λ v.
            let stock = create_prewarmed-Stock w pk p v.stock in
            rw frame (record {
              books = Books-other sizes now p _ _ _ _ _ _ v.books;
              within = v.within;
              unlocked = v.unlocked;
              stock = stock;
            });
        flight = ap (λ (r : Pool). r.in_flight) frame;
        limit = ap (λ (r : Pool). r.max_memory) frame;
      }

  create_many-Stocks :
      (w : World) (pk : PrewarmContainerKey) (n : ℕ) (p : Pool)
      → Stocks sizes now p (create_many w pk n p).0
  unfolding create_many
  create_many-Stocks w pk zero p = record { valid = λ v. v; flight = refl; limit = refl }
  create_many-Stocks w pk (suc n) p =
      let one = create_prewarmed-Stocks w pk p in
      let rest = create_many-Stocks w pk n (create_prewarmed w pk p).0 in
      elim (Bool-cases (create_prewarmed w pk p).1) [
        | inl t ↦ rw t (record {
          valid = λ v. rest.valid (one.valid v);
          flight = rest.flight ∙ one.flight;
          limit = rest.limit ∙ one.limit;
        })
        | inr f ↦ rw f one
      ]

  create_all-Stocks :
      (w : World) (todo : Creations) (p : Pool) → Stocks sizes now p (create_all w todo p).0
  unfolding create_all
  create_all-Stocks w [] p = record { valid = λ v. v; flight = refl; limit = refl }
  create_all-Stocks w ((pk, n) ∷ todo) p =
      let one = create_many-Stocks w pk n p in
      let rest = create_all-Stocks w todo (create_many w pk n p).0 in
      elim (Bool-cases (create_many w pk n p).1) [
        | inl t ↦ rw t (record {
          valid = λ v. rest.valid (one.valid v);
          flight = rest.flight ∙ one.flight;
          limit = rest.limit ∙ one.limit;
        })
        | inr f ↦ rw f one
      ]

  -- A reconciliation keeps the invariant and leaves the containers in flight alone, also where it
  -- fails half-way.
  pub reconcile_prewarm-Stocks :
      (w : World) (p : Pool) → Stocks sizes now p (reconcile_prewarm w p).0
  unfolding reconcile_prewarm
  reconcile_prewarm-Stocks w p = create_all-Stocks w _ p

create_many-Grown :
    (w : World) (pk : PrewarmContainerKey) (n : ℕ) (p : Pool)
    → (create_many w pk n p).1 ≡ true
    → Grown pk n p (create_many w pk n p).0
unfolding create_many
create_many-Grown w pk zero p done j = ground arith
create_many-Grown w pk (suc n) p done j =
    let q = (create_prewarmed w pk p).0 in
    elim (Bool-cases (create_prewarmed w pk p).1) [
      | inr f ↦ cc (rw f at done)
      | inl t ↦
          let rest = create_many-Grown w pk n q (rw t at done) j in
          let one = create_prewarmed-Grown w pk p t j in rw t (ground arith)
    ]

unfoldable pub requested : PrewarmContainerKey → Creations → ℕ
requested j [] = 0
requested j ((pk, n) ∷ todo) = (if prewarm_eq pk j then n else 0) + requested j todo

pub create_all-length :
    (w : World) (todo : Creations) (p : Pool) (j : PrewarmContainerKey)
    → (create_all w todo p).1 ≡ true
    → length (prewarmed_at j (create_all w todo p).0.prewarmed)
      ≡ length (prewarmed_at j p.prewarmed) + requested j todo
unfolding create_all requested
create_all-length w [] p j done = omega arith
create_all-length w ((pk, n) ∷ todo) p j done =
    let q = (create_many w pk n p).0 in
    elim (Bool-cases (create_many w pk n p).1) [
      | inr f ↦ cc (rw f at done)
      | inl t ↦
          let rest = create_all-length w todo q j (rw t at done) in
          let one = create_many-Grown w pk n p t j in rw t (omega (arith, rest, one))
    ]
