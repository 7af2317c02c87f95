-- ===== src/Pool/Bound.antt =====
-- The bound on the invoker's memory, for the pool with its clients (pkg/exec/pool.go).
use functions_invoker.Base.{
  true, sum_slices, Bool-cases, inl, inr, false, ℕ, ◌+◌, ◌^◌, ◌≤◌, ◌<◌, ◌≡◌, refl, sym, ap, ◌∙◌,
  List, [], ◌∷◌, ◌++◌, All, All-append, All-left, All-right, sum_by, sum_by-append, arith, String,
}
use functions_invoker.Container.{PooledContainer, WarmContainerKey, World}
use functions_invoker.Pool.System.{
  System, Step, Reach, Sound, gets, puts, destroys, reaps, prewarms, deletes, here, next, lend,
  new_container_pool,
}
use functions_invoker.Pool.State.{
  Pool, Outcome, got, failed, memory_of, RuntimeManifest, record_calls, held,
}
use functions_invoker.Pool.Put.{put, put_to_destroy}
use functions_invoker.Pool.Get.{leave}
use functions_invoker.Pool.Prewarm.{reconcile_prewarm}
use functions_invoker.Pool.State.{lock, unlock}
use functions_invoker.Pool.Reap.{reap, delete_for_space}
use functions_invoker.Pool.Prewarm.{serve_poke}
use functions_invoker.Pool.Valid.{IsValid-other, IsValid}
use functions_invoker.Pool.Calls.{Delivered, get-Delivered, put-IsValid, put_to_destroy-IsValid}
use functions_invoker.Pool.Reaped.{reap-IsValid}
use functions_invoker.Pool.Stocking.{Stocks, reconcile_prewarm-Stocks}

-- Taking one element out of a list.
sum_by-middle :
    (before : List PooledContainer) (c : PooledContainer) (after lent : List PooledContainer)
    → lent ≡ before ++ c ∷ after
    → sum_by memory_of lent ≡ sum_by memory_of (before ++ after) + c.memory
sum_by-middle before c after lent e = omega (
  arith,
  ap (sum_by memory_of) e,
  sum_by-append memory_of before (c ∷ after),
  sum_by-append memory_of before after,
)

-- The maximum is never written.
put-limit : (later : ℕ) (c : PooledContainer) (p : Pool) → (put later c p).max_memory ≡ p.max_memory
unfolding put lock unlock record_calls leave
put-limit later c p = refl

put_to_destroy-limit :
    (w : World) (c : PooledContainer) (p : Pool)
    → (put_to_destroy w c p).0.max_memory ≡ p.max_memory
unfolding put_to_destroy record_calls leave
put_to_destroy-limit w c p = refl

reap-limit : (w : World) (t : ℕ) (p : Pool) → (reap w t p).0.max_memory ≡ p.max_memory
unfolding reap lock unlock record_calls
reap-limit w t p = refl

module _ (sizes : WarmContainerKey → ℕ) (user_memory : ℕ) where
  abbrev Sized : PooledContainer → Type 0
  Sized c = c.memory ≡ sizes c.initialized_for

  Sized-middle :
      (before : List PooledContainer) (c : PooledContainer) (after lent : List PooledContainer)
      → lent ≡ before ++ c ∷ after
      → All Sized lent
      → Sized c × All Sized (before ++ after)
  Sized-middle before c after lent e h =
      let all : All Sized (before ++ c ∷ after) = rw e at h in
      let rest = All-right Sized before (c ∷ after) all in
      (rest.0, All-append Sized before after (All-left Sized before (c ∷ after) all) rest.1)

  lend-Sound :
      (w : World) (key : WarmContainerKey) (p q : Pool) (o : Outcome) (lent : List PooledContainer)
      (now : ℕ)
      → IsValid sizes now q
      → Delivered w key (sizes key) p q o
      → q.max_memory ≡ user_memory
      → p.in_flight ≡ sum_by memory_of lent
      → All Sized lent
      → Sound sizes user_memory (record { pool = q; lent = lend o lent; now = now })
  lend-Sound w key p q (got c reused) lent now v d m f h = record {
    limit = m;
    valid = v;
    flight = omega (arith, d.1, f, d.0.size_ok);
    sized = (d.0.size_ok ∙ ap sizes (sym d.0.key_ok), h);
  }
  lend-Sound w key p q (failed e) lent now v d m f h = record {
    limit = m;
    valid = v;
    flight = d.1 ∙ f;
    sized = h;
  }

  serve_poke-Stocks : (w : World) (now : ℕ) (p : Pool) → Stocks sizes now p (serve_poke w p)
  unfolding serve_poke
  serve_poke-Stocks w now p =
      let r = reconcile_prewarm-Stocks sizes now w (record p { prewarm_poke = false }) in
      let start = IsValid-other sizes now p false p.to_delete p.calls in
      elim (Bool-cases (reconcile_prewarm w (record p { prewarm_poke = false })).1) [
        | inl t ↦
            rw t (record { valid = λ v. r.valid (start v); flight = r.flight; limit = r.limit })
        | inr f ↦ rw f (record {
          valid = λ v. IsValid-other sizes now _ true _ _ (r.valid (start v));
          flight = r.flight;
          limit = r.limit;
        })
      ]

  deleted-Sound :
      (w : World) (s : System)
      → Sound sizes user_memory s
      → Sound sizes user_memory (record s { pool = delete_for_space w s.pool })
  unfolding delete_for_space record_calls
  deleted-Sound w s h = record {
    limit = h.limit;
    valid = IsValid-other sizes s.now s.pool s.pool.prewarm_poke [] _ h.valid;
    flight = h.flight;
    sized = h.sized;
  }

  Step-Sound :
      {s u : System} → Step sizes s u → Sound sizes user_memory s → Sound sizes user_memory u
  Step-Sound {s} (gets w granted key kind u room e) h =
      let (v, d, m) =
        get-Delivered sizes s.now w granted key kind (sizes key) s.pool h.valid refl room in
      rw e (lend-Sound w key s.pool _ _ s.lent s.now v d (m ∙ h.limit) h.flight h.sized)
  Step-Sound {s} (puts before c after later u out time e) h =
      let total = sum_by-middle before c after s.lent out in
      let (size, rest) = Sized-middle before c after s.lent out h.sized in
      let (v, f) =
        put-IsValid sizes s.now later c s.pool h.valid time size (omega (arith, total, h.flight)) in
      rw e (record {
        limit = put-limit later c s.pool ∙ h.limit;
        valid = v;
        flight = omega (arith, f, total, h.flight);
        sized = rest;
      })
  Step-Sound {s} (destroys w before c after u out e) h =
      let total = sum_by-middle before c after s.lent out in
      let (size, rest) = Sized-middle before c after s.lent out h.sized in
      let (v, f) =
        put_to_destroy-IsValid sizes s.now w c s.pool h.valid (omega (arith, total, h.flight)) in
      rw e (record {
        limit = put_to_destroy-limit w c s.pool ∙ h.limit;
        valid = v;
        flight = omega (arith, f, total, h.flight);
        sized = rest;
      })
  Step-Sound {s} (reaps w older_than u e) h =
      let (v, f) = reap-IsValid sizes s.now w older_than s.pool h.valid in
      rw e (record {
        limit = reap-limit w older_than s.pool ∙ h.limit;
        valid = v;
        flight = f ∙ h.flight;
        sized = h.sized;
      })
  Step-Sound {s} (prewarms w u e) h =
      let r = serve_poke-Stocks w s.now s.pool in
      rw e (record {
        limit = r.limit ∙ h.limit;
        valid = r.valid h.valid;
        flight = r.flight ∙ h.flight;
        sized = h.sized;
      })
  Step-Sound {s} (deletes w u e) h = rw e (deleted-Sound w s h)

  pub Reach-Sound :
      {s t : System} → Sound sizes user_memory s → Reach sizes s t → Sound sizes user_memory t
  Reach-Sound h here = h
  Reach-Sound h (next r st) = Step-Sound st (Reach-Sound h r)

  new_container_pool-Sound :
      (manifests : List (String × RuntimeManifest)) (start : ℕ)
      → user_memory < 2 ^ 63
      → Sound sizes user_memory
          (record { pool = new_container_pool user_memory manifests; lent = []; now = start })
  unfolding new_container_pool sum_slices
  new_container_pool-Sound manifests start small = record {
    limit = refl;
    valid = record {
      books = record {
        accounted = refl;
        agreed = refl;
        small = small;
        admitted = omega arith;
        idle_within = omega arith;
        distinct = tt;
        entries = tt;
      };
      within = omega arith;
      unlocked = refl;
      stock = tt;
    };
    flight = refl;
    sized = tt;
  }

  -- Whatever calls are made of a new pool with a maximum below 2^63, in whatever order: the memory
  -- of the idle containers and of those that clients hold is within the maximum, the pool's
  -- counters are exactly these sums, and the mutex of the idle containers is free after each call.
  pub Reach-within :
      (manifests : List (String × RuntimeManifest)) (start : ℕ) {t : System}
      → user_memory < 2 ^ 63
      → Reach sizes
          (record { pool = new_container_pool user_memory manifests; lent = []; now = start })
          t
      → (held t.pool.idles + sum_by memory_of t.lent ≤ user_memory)
        × (t.pool.idles_memory ≡ held t.pool.idles)
        × (t.pool.in_flight_memory ≡ sum_by memory_of t.lent)
        × (t.pool.idles_locked ≡ false)
  Reach-within manifests start {t} small r =
      let h = Reach-Sound (new_container_pool-Sound manifests start small) r in
      (
        omega (arith, h.valid.within, h.valid.books.accounted, h.flight, h.limit),
        sym h.valid.books.accounted,
        h.valid.books.agreed ∙ h.flight,
        h.valid.unlocked,
      )
