-- ===== src/Pool/Cold.antt =====
-- The path of `getContainer` that takes a prewarmed container or creates one (pkg/exec/pool.go).
use functions_invoker.Base.{
  ℕ, ◌≡◌, refl, true, false, Option, none, some, List, [], ◌∷◌, All, lookup, insert, insert-Entries,
  lookup-Entries, arith, Bool-cases, String, inl, inr, ap,
}
use functions_invoker.Container.{PooledContainer, WarmContainerKey, PrewarmContainerKey, World}
use functions_invoker.Pool.State.{Pool, record_calls}
use functions_invoker.Pool.Get.{set_up, from_prewarmed, create_cold, fresh, prewarm_key_eq}
use functions_invoker.Pool.Valid.{Served, Stock, Stocked}
use functions_invoker.Pool.Warm.{set_up-OnlyCalls}

-- The stock of prewarmed containers, its poke, the counter and the calls differ at most.
pub record Fresh (p q : Pool) : Type 0 where
  pub frame : q ≡ record p {
    containers_created = q.containers_created;
    prewarmed = q.prewarmed;
    prewarm_poke = q.prewarm_poke;
    calls = q.calls;
  }
  pub stocked : Stock p.prewarmed → Stock q.prewarmed

set_up-Fresh :
    (w : World) (ns : String) (c : PooledContainer) (p q : Pool)
    → Fresh p q
    → Fresh p (set_up w ns c false q).0
set_up-Fresh w ns c p q f =
    let frame = set_up-OnlyCalls w ns c false q in
    record {
      frame = ground (arith, f.frame, frame);
      stocked = λ s. rw (ap (λ (r : Pool). r.prewarmed) frame) (f.stocked s);
    }

from_prewarmed-Fresh :
    (w : World) (key : WarmContainerKey) (pk : PrewarmContainerKey) (c : PooledContainer)
    (rest : List PooledContainer) (p : Pool)
    → (Stock p.prewarmed → All (Stocked pk) rest)
    → Fresh p (from_prewarmed w key pk c rest p).0
unfolding from_prewarmed
from_prewarmed-Fresh w key pk c rest p h =
    let p' : Pool = record p { prewarmed = insert pk rest p.prewarmed; prewarm_poke = true } in
    let taken : Fresh p p' = record {
      frame = refl;
      stocked = λ s. insert-Entries (λ k. All (Stocked k)) pk rest p.prewarmed (h s) s;
    } in
    elim (Bool-cases (w.needs_firewall key.invocation_namespace)) [
      | inl t ↦
          rw t (
            set_up-Fresh w key.invocation_namespace (record c { initialized_for = key }) p p' taken)
      | inr f ↦ rw f taken
    ]

create_cold-prewarmed :
    (w : World) (key : WarmContainerKey) (kind : String) (memory : ℕ) (p : Pool)
    → (create_cold w key kind memory p).0.prewarmed ≡ p.prewarmed
unfolding create_cold record_calls set_up
create_cold-prewarmed w key kind memory p = ground arith

create_cold-Fresh :
    (w : World) (key : WarmContainerKey) (kind : String) (memory : ℕ) (p : Pool)
    → Fresh p (create_cold w key kind memory p).0
unfolding create_cold record_calls set_up
create_cold-Fresh w key kind memory p = record {
  frame = ground arith;
  stocked = λ s. rw (create_cold-prewarmed w key kind memory p) s;
}

pub fresh-Fresh :
    (w : World) (key : WarmContainerKey) (kind : String) (memory : ℕ) (p : Pool)
    → Fresh p (fresh w key kind memory p).0
unfolding fresh
fresh-Fresh w key kind memory p = go (lookup pk p.prewarmed) refl
  where
    pk : PrewarmContainerKey
    pk = record { kind = kind; memory = memory }

    go :
        (o : Option (List PooledContainer))
        → lookup pk p.prewarmed ≡ o
        → Fresh p (fresh w key kind memory p).0
    go none e = rw (e, fresh) (create_cold-Fresh w key kind memory p)
    go (some []) e = rw (e, fresh) (create_cold-Fresh w key kind memory p)
    go (some (c ∷ rest)) e =
        rw (e, fresh)
          (from_prewarmed-Fresh w key pk c rest p
            (λ s. (lookup-Entries (λ k. All (Stocked k)) pk (c ∷ rest) p.prewarmed e s).1))

from_prewarmed-Served :
    (w : World) (key : WarmContainerKey) (pk : PrewarmContainerKey) (c : PooledContainer)
    (rest : List PooledContainer) (p : Pool)
    → Stocked pk c
    → Served w key pk.memory (from_prewarmed w key pk c rest p).1
unfolding from_prewarmed set_up
from_prewarmed-Served w key pk c rest p s = ground arith

create_cold-Served :
    (w : World) (key : WarmContainerKey) (kind : String) (memory : ℕ) (p : Pool)
    → Served w key memory (create_cold w key kind memory p).1
unfolding create_cold set_up
create_cold-Served w key kind memory p = ground arith

pub fresh-Served :
    (w : World) (key : WarmContainerKey) (kind : String) (memory : ℕ) (p : Pool)
    → Stock p.prewarmed
    → Served w key memory (fresh w key kind memory p).1
unfolding fresh
fresh-Served w key kind memory p s = go (lookup pk p.prewarmed) refl
  where
    pk : PrewarmContainerKey
    pk = record { kind = kind; memory = memory }

    go :
        (o : Option (List PooledContainer))
        → lookup pk p.prewarmed ≡ o
        → Served w key memory (fresh w key kind memory p).1
    go none e = rw (e, fresh) (create_cold-Served w key kind memory p)
    go (some []) e = rw (e, fresh) (create_cold-Served w key kind memory p)
    go (some (c ∷ rest)) e =
        rw (e, fresh)
          (from_prewarmed-Served w key pk c rest p
            (lookup-Entries (λ k. All (Stocked k)) pk (c ∷ rest) p.prewarmed e s).0)
