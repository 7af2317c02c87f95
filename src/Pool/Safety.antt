-- ===== src/Pool/Safety.antt =====
-- `Get`, `Put` and `PutToDestroy` keep the invariant (pkg/exec/pool.go).
use functions_invoker.Base.{
  ℕ, ◌+◌, ◌≤◌, ◌≡◌, refl, sym, ap, ◌∙◌, true, false, some, List, ◌++◌, arith, Option-cases, inl,
  inr, split_last, split_last-join, String,
}
use functions_invoker.Container.{PooledContainer, WarmContainerKey, World, warm_key_eq}
use functions_invoker.Pool.State.{Pool, idle_at, lock, unlock, population}
use functions_invoker.Pool.Space.{Space, made, exhausted, out_of_fuel, ensure_space}
use functions_invoker.Pool.Get.{reuse, take_idle, after_space, get_container, fresh}
use functions_invoker.Pool.Books.{Books}
use functions_invoker.Pool.Valid.{IsValid, Served, Stock, Books-other}
use functions_invoker.Pool.Warm.{reuse-OnlyCalls, reuse-Served}
use functions_invoker.Pool.Cold.{Fresh, fresh-Fresh, fresh-Served}
use functions_invoker.Pool.Memory.{take_idle-Books, Ensured, ensure_space-Ensured}

module _ (sizes : WarmContainerKey → ℕ) (now : ℕ) where
  -- The pool after `getContainer`: valid, with the same memory in flight.
  pub record After (p q : Pool) : Type 0 where
    pub valid : IsValid sizes now q
    pub flight : q.in_flight ≡ p.in_flight
    pub limit : q.max_memory ≡ p.max_memory

  take_idle-After :
      (w : World) (key : WarmContainerKey) (memory : ℕ) (rest : List PooledContainer)
      (c : PooledContainer) (p : Pool)
      → Books sizes now p
      → Stock p.prewarmed
      → memory ≡ sizes key
      → p.idles_memory + p.in_flight ≤ p.max_memory + memory
      → split_last (idle_at key p.idles) ≡ some (rest, c)
      → let r = reuse w key.invocation_namespace c (unlock (take_idle key rest c (lock p))) in
        After p r.0 × Served w key memory r.1
  unfolding lock unlock take_idle
  take_idle-After w key memory rest c p b s size h e =
      let (books, left, home) =
        take_idle-Books sizes now key rest c (lock p) (Books-other sizes now p _ true _ _ _ _ b)
          (split_last-join _ rest c e) in
      let start = unlock (take_idle key rest c (lock p)) in
      (
        rw (reuse-OnlyCalls w key.invocation_namespace c start) (record {
          valid = record {
            books =
                Books-other sizes now start _ _ _ _ _ _
                  (Books-other sizes now (take_idle key rest c (lock p)) _ false _ _ _ _ books);
            within = omega (arith, left, home.size);
            unlocked = refl;
            stock = s;
          };
          flight = refl;
          limit = refl;
        }),
        reuse-Served w key memory c start home.key (home.size ∙ sym size),
      )

  Fresh-After :
      (p q : Pool)
      → Books sizes now p
      → Stock p.prewarmed
      → p.idles_memory + p.in_flight ≤ p.max_memory
      → p.idles_locked ≡ false
      → Fresh p q
      → After p q
  Fresh-After p q b s h l f =
      let stock = f.stocked s in
      rw f.frame (record {
        valid = record {
          books = Books-other sizes now p _ _ _ _ _ _ b;
          within = h;
          unlocked = l;
          stock = stock;
        };
        flight = refl;
        limit = refl;
      })

  after_space-After :
      (w : World) (key : WarmContainerKey) (kind : String) (memory in_flight : ℕ) (p : Pool)
      (r : Space)
      → Stock p.prewarmed
      → in_flight ≡ p.in_flight
      → Ensured sizes now in_flight p r
      → After p (after_space w key kind memory p r).0
        × Served w key memory (after_space w key kind memory p r).1
  unfolding after_space unlock
  after_space-After w key kind memory in_flight p (made out q) s e h =
      let q' = unlock (record q { to_delete = q.to_delete ++ out }) in
      let stock : Stock q.prewarmed = rw (ap (λ (r : Pool). r.prewarmed) h.frame) s in
      let flight : q.in_flight ≡ p.in_flight = ap (λ (r : Pool). r.in_flight) h.frame in
      let limit : q.max_memory ≡ p.max_memory = ap (λ (r : Pool). r.max_memory) h.frame in
      let a =
        Fresh-After q' (fresh w key kind memory q').0 (Books-other sizes now q _ _ _ _ _ _ h.books)
          stock (omega (arith, h.fits, flight)) refl (fresh-Fresh w key kind memory q') in
      (
        record { valid = a.valid; flight = a.flight ∙ flight; limit = a.limit ∙ limit },
        fresh-Served w key kind memory q' stock,
      )
  after_space-After w key kind memory in_flight p (exhausted q) s e h = elim h [ ]
  after_space-After w key kind memory in_flight p out_of_fuel s e h = elim h [ ]

  pub get_container-After :
      (w : World) (key : WarmContainerKey) (kind : String) (memory : ℕ) (p : Pool)
      → Books sizes now p
      → Stock p.prewarmed
      → memory ≡ sizes key
      → p.idles_memory + p.in_flight ≤ p.max_memory + memory
      → After p (get_container w key kind memory p.in_flight_memory p).0
        × Served w key memory (get_container w key kind memory p.in_flight_memory p).1
  unfolding get_container lock
  get_container-After w key kind memory p b s size h =
      elim (Option-cases (split_last (idle_at key p.idles))) [
        | inr ((rest, c), e) ↦
            rw (e, get_container) (take_idle-After w key memory rest c p b s size h e)
        | inl e ↦
            let r = ensure_space (population p.idles + 1) p.in_flight_memory (lock p) in
            let a = after_space-After w key kind memory p.in_flight_memory (lock p) r s b.agreed (
              ensure_space-Ensured sizes now p.in_flight_memory (lock p)
                (Books-other sizes now p _ true _ _ _ _ b) (omega (arith, b.agreed, b.admitted))) in
            rw (e, get_container)
              (record { valid = a.0.valid; flight = a.0.flight; limit = a.0.limit }, a.1)
      ]
