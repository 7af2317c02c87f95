-- ===== src/Pool/Memory.antt =====
-- The memory bound of the pool (pkg/exec/pool.go): every `Get`, successful or not, keeps the idle
-- containers and the containers in flight together within the configured maximum.
use functions_invoker.Base.{
  ℕ, ◌+◌, ◌-◌, ◌≤◌, ◌≡◌, refl, ap, List, [], ◌∷◌, ◌++◌, All-left, All-right, insert,
  insert-Distinct, arith, Bool-cases, inl, inr, sum_by, sum_by-append, ltb, ltb→lt, ltb-false,
  add64, add64_exact, sub64, sub64_exact,
}
use functions_invoker.Container.{PooledContainer, WarmContainerKey, warm_key_eq}
use functions_invoker.Pool.State.{Pool, idle_at, held, memory_of, population}
use functions_invoker.Pool.Space.{Space, made, exhausted, out_of_fuel, ensure_space}
use functions_invoker.Pool.Get.{take_idle}
use functions_invoker.Pool.Books.{
  Books, Homed, Lined, Ascending, slice-Lined, held-insert, insert-Lined,
}
use functions_invoker.Pool.Eviction.{Spaced, make_space-Spaced}

-- A list without its last element is still ordered.
pub Ascending-left : (cs ds : List PooledContainer) → Ascending (cs ++ ds) → Ascending cs
Ascending-left [] ds a = tt
Ascending-left (c ∷ cs) ds a =
    (All-left (λ d. c.last_used ≤ d.last_used) cs ds a.0, Ascending-left cs ds a.1)

module _ (sizes : WarmContainerKey → ℕ) (now : ℕ) where
  -- The books, once the last container of a list has been taken.
  pub take_idle-Books :
      (key : WarmContainerKey) (rest : List PooledContainer) (c : PooledContainer) (p : Pool)
      → Books sizes now p
      → idle_at key p.idles ≡ rest ++ c ∷ []
      → Books sizes now (take_idle key rest c p)
        × ((take_idle key rest c p).idles_memory + c.memory ≡ p.idles_memory)
        × Homed sizes now key c
  unfolding take_idle
  take_idle-Books key rest c p b e = (
    record {
      accounted = omega (arith, memory, left, b.accounted);
      agreed = b.agreed;
      small = b.small;
      admitted = b.admitted;
      idle_within = omega (arith, left, b.idle_within);
      distinct = insert-Distinct key rest p.idles b.distinct;
      entries =
          insert-Lined sizes now key rest p.idles
            (
              All-left (Homed sizes now key) rest (c ∷ []) lined.0,
              Ascending-left rest (c ∷ []) lined.1,
            )
            b.entries;
    },
    omega (arith, left, memory, b.accounted),
    (All-right (Homed sizes now key) rest (c ∷ []) lined.0).0,
  )
    where
      lined : Lined sizes now key (rest ++ c ∷ [])
      lined = rw e at (slice-Lined sizes now key p.idles b.entries)

      memory : held (insert key rest p.idles) + c.memory ≡ held p.idles
      memory = omega (
        arith,
        ap (sum_by memory_of) e,
        sum_by-append memory_of rest (c ∷ []),
        held-insert key rest p.idles,
      )

      left : sub64 p.idles_memory c.memory ≡ p.idles_memory - c.memory
      left =
          sub64_exact p.idles_memory c.memory (omega (arith, memory, b.accounted))
            (omega (arith, b.small, b.idle_within))

  -- The guard and the loop together: space is made, and no more is touched.
  pub record Roomy (in_flight : ℕ) (p q : Pool) : Type 0 where
    pub books : Books sizes now q
    pub fits : q.idles_memory + in_flight ≤ q.max_memory
    pub frame : q ≡ record p { idles = q.idles; idles_memory = q.idles_memory }

  abbrev pub Ensured : ℕ → Pool → Space → Type 0
  Ensured in_flight p (made out q) = Roomy in_flight p q
  Ensured in_flight p (exhausted q) = ⊥
  Ensured in_flight p out_of_fuel = ⊥

  Spaced-Ensured :
      (in_flight : ℕ) (p : Pool) (out : List PooledContainer) (r : Space)
      → Spaced sizes now in_flight p out r
      → Ensured in_flight p r
  Spaced-Ensured in_flight p out (made out' q) (victims, e, v) = record {
    books = v.books;
    fits = v.fits;
    frame = v.frame;
  }
  Spaced-Ensured in_flight p out (exhausted q) s = elim s [ ]
  Spaced-Ensured in_flight p out out_of_fuel s = elim s [ ]

  pub ensure_space-Ensured :
      (in_flight : ℕ) (p : Pool)
      → Books sizes now p
      → in_flight ≤ p.max_memory
      → Ensured in_flight p (ensure_space (population p.idles + 1) in_flight p)
  unfolding ensure_space
  ensure_space-Ensured in_flight p b h =
      let total : add64 p.idles_memory in_flight ≡ p.idles_memory + in_flight =
        add64_exact p.idles_memory in_flight (omega (arith, b.small, b.idle_within)) in
      elim (Bool-cases (ltb p.max_memory (add64 p.idles_memory in_flight))) [
        | inl t ↦
            rw (t, ensure_space)
              (Spaced-Ensured in_flight p [] _ (
                make_space-Spaced sizes now in_flight (population p.idles + 1) [] p b h
                  (rw total at (ltb→lt _ _ t)) (omega arith)))
        | inr f ↦
            rw (f, ensure_space)
              (record { books = b; fits = rw total at (ltb-false _ _ f); frame = refl })
      ]
