-- ===== src/Pool/Eviction.antt =====
-- The eviction loop of `getContainer` (pkg/exec/pool.go): it ends with enough space, takes the
-- longest unused containers, and no more of them than it needs.
use mathlib.Core.List.{append_assoc}
use functions_invoker.Base.{
  ℕ, zero, suc, ◌+◌, ◌≤◌, ◌<◌, ◌≡◌, refl, ap, inl, inr, Option, none, some, List, [], ◌∷◌, ◌++◌,
  All, Entries, insert-Entries, lookup-Entries, lookup, slice, sum_by, arith, leb, add64,
  add64_exact, Bool-cases, Option-cases, leb→le, leb-false, ◌∙◌, sym, if◌then◌else◌, lookup-insert,
}
use functions_invoker.Container.{
  PooledContainer, WarmContainerKey, warm_key_eq, warm_eq, warm_eq_iff,
}
use functions_invoker.Pool.State.{Pool, Idles, idle_at, drop_first, tail, population, memory_of}
use functions_invoker.Pool.Space.{longest_unused, Space, made, exhausted, out_of_fuel, make_space}
use functions_invoker.Pool.Books.{Ascending, Books, drop_first-Books}
use functions_invoker.Pool.Longest.{
  longest_unused-Heads, Heads-at, longest_unused-none, longest_unused-oldest,
}

-- All idle containers were last used at `t` or later.
abbrev pub Since : ℕ → Idles → Type 0
Since t = Entries (λ k. All (λ d. t ≤ d.last_used))

-- The containers of a key, in their order.
unfoldable pub of_key : WarmContainerKey → List PooledContainer → List PooledContainer
of_key k [] = []
of_key k (c ∷ cs) = let rest = of_key k cs in if warm_eq c.initialized_for k then c ∷ rest else rest

module _ (sizes : WarmContainerKey → ℕ) (now in_flight : ℕ) where
  -- The pool `q` after the eviction of `victims` from `p`. The last victim was needed.
  pub record Evicted (p q : Pool) (victims : List PooledContainer) : Type 0 where
    pub books : Books sizes now q
    pub fits : q.idles_memory + in_flight ≤ q.max_memory
    pub taken : (k : WarmContainerKey) → idle_at k p.idles ≡ of_key k victims ++ idle_at k q.idles
    pub ascending : Ascending victims
    pub since : (t : ℕ) → Since t p.idles → All (λ c. t ≤ c.last_used) victims
    pub frame : q ≡ record p { idles = q.idles; idles_memory = q.idles_memory }
    pub freed : sum_by memory_of victims + q.idles_memory ≡ p.idles_memory
    pub kept : (t : ℕ) → Since t p.idles → Since t q.idles
    pub oldest : All (λ c. Since c.last_used q.idles) victims
    pub before : List PooledContainer
    pub last : PooledContainer
    pub order : victims ≡ before ++ last ∷ []
    pub needed : p.max_memory < q.idles_memory + last.memory + in_flight

  abbrev pub Spaced : Pool → List PooledContainer → Space → Type 0
  Spaced p out (made out' q) =
      (victims : List PooledContainer) × (out' ≡ out ++ victims) × Evicted p q victims
  Spaced p out (exhausted q) = ⊥
  Spaced p out out_of_fuel = ⊥

idle_at-Since :
    (t : ℕ) (k : WarmContainerKey) (m : Idles)
    → Since t m
    → All (λ d. t ≤ d.last_used) (idle_at k m)
idle_at-Since t k m s = go (lookup k m) refl
  where
    go : (o : Option (List PooledContainer)) → lookup k m ≡ o → All (λ d. t ≤ d.last_used) (slice o)
    go none e = tt
    go (some cs) e = lookup-Entries (λ k. All (λ d. t ≤ d.last_used)) k cs m e s

slice-Since :
    (t : ℕ) (k : WarmContainerKey) (m : Idles)
    → Since t m
    → All (λ d. t ≤ d.last_used) (tail (idle_at k m))
slice-Since t k m s = cut (idle_at k m) (idle_at-Since t k m s)
  where
    cut :
        (cs : List PooledContainer)
        → All (λ d. t ≤ d.last_used) cs
        → All (λ d. t ≤ d.last_used) (tail cs)
    cut [] h = tt
    cut (c ∷ cs) h = h.1

drop_first-Since :
    (t : ℕ) (c : PooledContainer) (p : Pool) → Since t p.idles → Since t (drop_first c p).idles
unfolding drop_first
drop_first-Since t c p s =
    insert-Entries (λ k. All (λ d. t ≤ d.last_used)) c.initialized_for _ p.idles
      (slice-Since t c.initialized_for p.idles s) s

drop_first-frame :
    (c : PooledContainer) (p : Pool)
    → drop_first c p
      ≡ record p { idles = (drop_first c p).idles; idles_memory = (drop_first c p).idles_memory }
unfolding drop_first
drop_first-frame c p = refl

-- A victim is the first of its list, and the lists of the other keys stay.
drop_first-taken :
    (c : PooledContainer) (cs : List PooledContainer) (p : Pool)
    → idle_at c.initialized_for p.idles ≡ c ∷ cs
    → (k : WarmContainerKey)
    → idle_at k p.idles ≡ of_key k (c ∷ []) ++ idle_at k (drop_first c p).idles
unfolding drop_first of_key
drop_first-taken c cs p e k =
    rw (lookup-insert c.initialized_for k (tail (idle_at c.initialized_for p.idles)) p.idles)
      (elim (Bool-cases (warm_eq c.initialized_for k)) [
        | inr other ↦ rw other refl
        | inl same ↦
            rw (same, ← (warm_eq_iff c.initialized_for k).0 same)
              (e ∙ ap (λ (l : List PooledContainer). c ∷ tail l) (sym e))
      ])

of_key-append :
    (k : WarmContainerKey) (xs ys : List PooledContainer)
    → of_key k (xs ++ ys) ≡ of_key k xs ++ of_key k ys
unfolding of_key
of_key-append k [] ys = refl
of_key-append k (x ∷ xs) ys = ground (arith, of_key-append k xs ys)

module _ (sizes : WarmContainerKey → ℕ) (now in_flight : ℕ) where
  -- One victim is found and taken out as long as the space does not suffice.
  victim :
      (p : Pool)
      → Books sizes now p
      → in_flight ≤ p.max_memory
      → p.max_memory < p.idles_memory + in_flight
      → (c : PooledContainer) × (longest_unused none p.idles ≡ some c)
        × Books sizes now (drop_first c p)
        × ((drop_first c p).idles_memory + c.memory ≡ p.idles_memory)
        × (population (drop_first c p).idles + 1 ≡ population p.idles)
        × Since c.last_used p.idles
        × ((rest : List PooledContainer) × (idle_at c.initialized_for p.idles ≡ c ∷ rest))
  victim p b h over = elim (Option-cases (longest_unused none p.idles)) [
    | inl e ↦ absurd (omega (arith, longest_unused-none p.idles e, b.accounted))
    | inr (c, e) ↦ elim (longest_unused-Heads none p.idles c e) [
      | inl no_start ↦ cc
      | inr head ↦
          let (rest, at) = Heads-at sizes now c p.idles b.distinct b.entries head in
          let (books, memory, count) = drop_first-Books sizes now c rest p b at in
          (
            c,
            e,
            books,
            memory,
            count,
            (longest_unused-oldest sizes now none p.idles c b.entries e).1,
            (rest, at),
          )
    ]
  ]

  -- The loop may stop after one victim.
  stop :
      (out : List PooledContainer) (p : Pool) (c : PooledContainer)
      → p.max_memory < p.idles_memory + in_flight
      → Books sizes now (drop_first c p)
      → (drop_first c p).idles_memory + c.memory ≡ p.idles_memory
      → Since c.last_used p.idles
      → (rest : List PooledContainer) × (idle_at c.initialized_for p.idles ≡ c ∷ rest)
      → (drop_first c p).idles_memory + in_flight ≤ (drop_first c p).max_memory
      → Spaced sizes now in_flight p out (made (out ++ c ∷ []) (drop_first c p))
  stop out p c over books memory old (rest, at) fits = (
    c ∷ [],
    refl,
    record {
      books = books;
      fits = fits;
      taken = drop_first-taken c rest p at;
      ascending = (tt, tt);
      since = λ t s.
          let here : All (λ d. t ≤ d.last_used) (c ∷ rest) =
            rw at at (idle_at-Since t c.initialized_for p.idles s) in
          (here.0, tt);
      frame = drop_first-frame c p;
      freed = omega (arith, memory);
      kept = λ t s. drop_first-Since t c p s;
      oldest = (drop_first-Since c.last_used c p old, tt);
      before = [];
      last = c;
      order = refl;
      needed = omega (arith, memory, over);
    },
  )

  -- Or it goes on, and the first victim is put before the others.
  go_on :
      (out : List PooledContainer) (p : Pool) (c : PooledContainer) (r : Space)
      → (drop_first c p).idles_memory + c.memory ≡ p.idles_memory
      → Since c.last_used p.idles
      → (rest : List PooledContainer) × (idle_at c.initialized_for p.idles ≡ c ∷ rest)
      → Spaced sizes now in_flight (drop_first c p) (out ++ c ∷ []) r
      → Spaced sizes now in_flight p out r
  go_on out p c (exhausted q) memory old at s = elim s [ ]
  go_on out p c out_of_fuel memory old at s = elim s [ ]
  go_on out p c (made out' q) memory old (rest, at) (victims, e, v) = (
    c ∷ victims,
    e ∙ append_assoc out (c ∷ []) victims,
    record {
      books = v.books;
      fits = v.fits;
      taken = λ k.
          drop_first-taken c rest p at k
          ∙ (ap (λ (l : List PooledContainer). of_key k (c ∷ []) ++ l) (v.taken k)
              ∙ (sym (append_assoc (of_key k (c ∷ [])) (of_key k victims) (idle_at k q.idles))
                  ∙ ap (λ (l : List PooledContainer). l ++ idle_at k q.idles)
                      (sym (of_key-append k (c ∷ []) victims))));
      ascending = (v.since c.last_used (drop_first-Since c.last_used c p old), v.ascending);
      since = λ t s.
          let here : All (λ d. t ≤ d.last_used) (c ∷ rest) =
            rw at at (idle_at-Since t c.initialized_for p.idles s) in
          (here.0, v.since t (drop_first-Since t c p s));
      frame = v.frame ∙ frames;
      freed = omega (arith, memory, v.freed);
      kept = λ t s. v.kept t (drop_first-Since t c p s);
      oldest = (v.kept c.last_used (drop_first-Since c.last_used c p old), v.oldest);
      before = c ∷ v.before;
      last = v.last;
      order = ap (◌∷◌ c) v.order;
      needed = rw (← same) v.needed;
    },
  )
    where
      same : (drop_first c p).max_memory ≡ p.max_memory
      same = ap (λ (r : Pool). r.max_memory) (drop_first-frame c p)

      frames :
          record (drop_first c p) { idles = q.idles; idles_memory = q.idles_memory }
          ≡ record p { idles = q.idles; idles_memory = q.idles_memory }
      frames =
          ap (λ (r : Pool). record r { idles = q.idles; idles_memory = q.idles_memory })
            (drop_first-frame c p)

  -- If the books are right, the memory in flight is within the maximum but with the idle memory
  -- exceeds it, and the fuel is above the number of idle containers, the eviction loop ends, with
  -- space made: it takes the first containers of the lists of the keys, in the order of their last use,
  -- such that none that stays was used before a removed one; it frees exactly their memory, could not do
  -- without the last of them, and changes nothing else.
  pub make_space-Spaced :
      (fuel : ℕ) (out : List PooledContainer) (p : Pool)
      → Books sizes now p
      → in_flight ≤ p.max_memory
      → p.max_memory < p.idles_memory + in_flight
      → population p.idles < fuel
      → Spaced sizes now in_flight p out (make_space fuel in_flight out p)
  unfolding make_space
  make_space-Spaced zero out p b h over enough = absurd (omega arith)
  make_space-Spaced (suc fuel) out p b h over enough =
      let (c, e, books, memory, count, old, at) = victim p b h over in
      let q = drop_first c p in
      let same : q.max_memory ≡ p.max_memory =
        ap (λ (r : Pool). r.max_memory) (drop_first-frame c p) in
      let total : add64 q.idles_memory in_flight ≡ q.idles_memory + in_flight =
        add64_exact q.idles_memory in_flight (omega (arith, b.small, b.idle_within)) in
      elim (Bool-cases (leb (add64 q.idles_memory in_flight) q.max_memory)) [
        | inl t ↦
            rw (e, make_space)
              (rw t (stop out p c over books memory old at (rw total at (leb→le _ _ t))))
        | inr f ↦
            rw (e, make_space)
              (rw f (
                go_on out p c _ memory old at (
                  make_space-Spaced fuel (out ++ c ∷ []) q books (omega (arith, same))
                    (omega (arith, same, rw total at (leb-false _ _ f))) (omega (arith, count)))))
      ]
