-- ===== src/Pool/Calls.antt =====
-- `Get`, `Put` and `PutToDestroy` as wholes (pkg/exec/pool.go): the invariant, the memory in
-- flight, and what the caller gets.
use native.Mathlib.Nat.{le_trans, le_refl}
use functions_invoker.Base.{
  ℕ, ◌+◌, ◌-◌, ◌≤◌, ◌≡◌, ◌≢◌, refl, ap, ◌∙◌, Bool, true, false, List, [], ◌∷◌, ◌++◌, All,
  All-append, All-map, Entries, insert, insert-Distinct, arith, sum_by-append, add64, add64_exact,
  sub64_exact, String,
}
use functions_invoker.Container.{
  pauses_eventually, PooledContainer, WarmContainerKey, World, warm_key_eq,
}
use functions_invoker.Pool.State.{
  Pool, Idles, Outcome, got, failed, no_space, idle_at, memory_of, lock, unlock, record_calls,
}
use functions_invoker.Pool.Get.{enter, leave, settle, get}
use functions_invoker.Pool.Put.{put, put_to_destroy}
use functions_invoker.Pool.Books.{
  Books, Homed, Lined, Ascending, slice-Lined, held-insert, insert-Lined,
}
use functions_invoker.Pool.Valid.{IsValid, Suits, Served, Stock, Books-other}
use functions_invoker.Pool.Safety.{After, get_container-After}

-- What a call of `Get` leaves behind beside the invariant.
abbrev pub Delivered : World → WarmContainerKey → ℕ → Pool → Pool → Outcome → Type 0
Delivered w key memory p q (got c reused) =
    Suits w key memory c × (q.in_flight ≡ p.in_flight + memory)
Delivered w key memory p q (failed e) = (e ≢ no_space) × (q.in_flight ≡ p.in_flight)

module _ (sizes : WarmContainerKey → ℕ) (now : ℕ) where
  enter-Books :
      (memory : ℕ) (p : Pool)
      → Books sizes now p
      → p.in_flight + memory ≤ p.max_memory
      → Books sizes now (enter memory p)
  unfolding enter
  enter-Books memory p b h = record {
    accounted = b.accounted;
    agreed =
        add64_exact p.in_flight_memory memory (omega (arith, b.agreed, b.small))
        ∙ ap (λ (n : ℕ). n + memory) b.agreed;
    small = b.small;
    admitted = h;
    idle_within = b.idle_within;
    distinct = b.distinct;
    entries = b.entries;
  }

  pub leave-IsValid :
      (memory : ℕ) (p : Pool)
      → Books sizes now p
      → p.idles_memory + p.in_flight ≤ p.max_memory + memory
      → p.idles_locked ≡ false
      → Stock p.prewarmed
      → memory ≤ p.in_flight
      → IsValid sizes now (leave memory p)
  unfolding leave
  leave-IsValid memory p b fits unlocked s h = record {
    books = record {
      accounted = b.accounted;
      agreed =
          sub64_exact p.in_flight_memory memory (omega (arith, b.agreed))
            (omega (arith, b.agreed, b.small, b.admitted))
          ∙ ap (λ (n : ℕ). n - memory) b.agreed;
      small = b.small;
      admitted = omega (arith, b.admitted);
      idle_within = b.idle_within;
      distinct = b.distinct;
      entries = b.entries;
    };
    within = omega arith;
    unlocked = unlocked;
    stock = s;
  }

  settle-Delivered :
      (w : World) (key : WarmContainerKey) (memory : ℕ) (p q : Pool) (o : Outcome)
      → After sizes now (enter memory p) q
      → Served w key memory o
      → IsValid sizes now (settle memory (q, o)).0
        × Delivered w key memory p (settle memory (q, o)).0 (settle memory (q, o)).1
        × ((settle memory (q, o)).0.max_memory ≡ p.max_memory)
  unfolding settle enter leave
  settle-Delivered w key memory p q (got c reused) a s = (a.valid, (s, a.flight), a.limit)
  settle-Delivered w key memory p q (failed e) a s = (
    leave-IsValid memory q a.valid.books (omega (arith, a.valid.within)) a.valid.unlocked
        a.valid.stock (omega (arith, a.flight)),
    (s, omega (arith, a.flight)),
    a.limit,
  )

  -- A call of `Get` for a function of its size, which the semaphore lets in only if there is
  -- room, keeps the invariant. It hands out a container initialized for the key, of the asked
  -- size, with a firewall exactly if its namespace needs one, and its memory is in flight; or it
  -- fails, never for want of space, and leaves the memory in flight as it was. The maximum stays.
  pub get-Delivered :
      (w : World) (granted : Bool) (key : WarmContainerKey) (kind : String) (memory : ℕ) (p : Pool)
      → IsValid sizes now p
      → memory ≡ sizes key
      → (granted ≡ true → p.in_flight + memory ≤ p.max_memory)
      → IsValid sizes now (get w granted key kind memory p).0
        × Delivered w key memory p
            (get w granted key kind memory p).0
            (get w granted key kind memory p).1
        × ((get w granted key kind memory p).0.max_memory ≡ p.max_memory)
  unfolding get
  get-Delivered w false key kind memory p v size room = (v, ((λ e. cc), refl), refl)
  get-Delivered w true key kind memory p v size room =
      let (a, s) =
        get_container-After sizes now w key kind memory (enter memory p)
          (enter-Books memory p v.books (room refl)) (stock_of v.stock) size within in
      settle-Delivered w key memory p _ _ a s
    where
      stock_of : Stock p.prewarmed → Stock (enter memory p).prewarmed
      stock_of s = unfold enter in s

      within :
          (enter memory p).idles_memory + (enter memory p).in_flight
          ≤ (enter memory p).max_memory + memory
      within = unfold enter in omega (arith, v.within)

-- Time passes.
later-Lined :
    (sizes : WarmContainerKey → ℕ) (now later : ℕ) (m : Idles)
    → now ≤ later
    → Entries (Lined sizes now) m
    → Entries (Lined sizes later) m
later-Lined sizes now later [] h es = tt
later-Lined sizes now later ((k, cs) ∷ m) h es = (
  (
    All-map (Homed sizes now k) (Homed sizes later k)
        (λ c d. record { key = d.key; size = d.size; past = le_trans d.past h }) cs es.0.0,
    es.0.1,
  ),
  later-Lined sizes now later m h es.1,
)

-- A container that is younger than all goes to the end of an ordered list.
Ascending-append :
    (cs : List PooledContainer) (c : PooledContainer)
    → Ascending cs
    → All (λ d. d.last_used ≤ c.last_used) cs
    → Ascending (cs ++ c ∷ [])
Ascending-append [] c a h = (tt, tt)
Ascending-append (d ∷ cs) c a h = (
  All-append (λ x. d.last_used ≤ x.last_used) cs (c ∷ []) a.0 (h.0, tt),
  Ascending-append cs c a.1 h.1,
)

-- `Put` at a later time, of a container in flight that has its function's size, keeps the
-- invariant and takes exactly its memory out of flight.
pub put-IsValid :
    (sizes : WarmContainerKey → ℕ) (now later : ℕ) (c : PooledContainer) (p : Pool)
    → IsValid sizes now p
    → now ≤ later
    → c.memory ≡ sizes c.initialized_for
    → c.memory ≤ p.in_flight
    → IsValid sizes later (put later c p) × ((put later c p).in_flight + c.memory ≡ p.in_flight)
unfolding put lock unlock record_calls leave
put-IsValid sizes now later c p v time size out = (
  leave-IsValid sizes later c.memory stored books (omega (arith, total, v.within)) refl v.stock out,
  omega (arith, out),
)
  where
    c' : PooledContainer
    c' = record c { last_used = later }

    key : WarmContainerKey
    key = c.initialized_for

    stored : Pool
    stored = unlock (record (lock (record_calls (pauses_eventually c.handle ∷ []) p)) {
      idles_memory = add64 p.idles_memory c.memory;
      idles = insert key (idle_at key p.idles ++ c' ∷ []) p.idles;
    })

    entries : Entries (Lined sizes later) p.idles
    entries = later-Lined sizes now later p.idles time v.books.entries

    lined : Lined sizes later key (idle_at key p.idles)
    lined = slice-Lined sizes later key p.idles entries

    total : add64 p.idles_memory c.memory ≡ p.idles_memory + c.memory
    total = add64_exact p.idles_memory c.memory (omega (arith, v.within, v.books.small))

    books : Books sizes later stored
    books = record {
      accounted = omega (
        arith,
        total,
        v.books.accounted,
        held-insert key (idle_at key p.idles ++ c' ∷ []) p.idles,
        sum_by-append memory_of (idle_at key p.idles) (c' ∷ []),
      );
      agreed = v.books.agreed;
      small = v.books.small;
      admitted = v.books.admitted;
      idle_within = omega (arith, total, v.within);
      distinct = insert-Distinct key _ p.idles v.books.distinct;
      entries =
          insert-Lined sizes later key _ p.idles
            (
              All-append (Homed sizes later key) (idle_at key p.idles) (c' ∷ []) lined.0
                  (record { key = refl; size = size; past = le_refl later }, tt),
              Ascending-append (idle_at key p.idles) c' lined.1 (
                  All-map (Homed sizes later key) (λ d. d.last_used ≤ later) (λ d h. h.past)
                    (idle_at key p.idles) lined.0),
            )
            entries;
    }

-- `PutToDestroy` keeps the invariant and takes exactly the container's memory out of flight,
-- whether or not the removal succeeds.
pub put_to_destroy-IsValid :
    (sizes : WarmContainerKey → ℕ) (now : ℕ) (w : World) (c : PooledContainer) (p : Pool)
    → IsValid sizes now p
    → c.memory ≤ p.in_flight
    → IsValid sizes now (put_to_destroy w c p).0
      × ((put_to_destroy w c p).0.in_flight + c.memory ≡ p.in_flight)
unfolding put_to_destroy record_calls leave
put_to_destroy-IsValid sizes now w c p v h = (
  leave-IsValid sizes now c.memory _ (Books-other sizes now p _ _ _ _ _ _ v.books)
      (omega (arith, v.within)) v.unlocked v.stock h,
  omega arith,
)
