-- ===== src/Invoker/Swapping.antt =====
-- The workers' loop ends (cmd/invoker/main.go): a failed swap means that another worker has stored its
-- offset and left the loop.
use functions_invoker.Base.{
  zero, refl, ℕ, zero, suc, List, [], ◌∷◌, ◌++◌, ◌+◌, ◌*◌, ◌≡◌, ◌≤◌, ◌<◌, refl, replicate, arith,
  length, length-append, Bool-cases, inl, inr, leb, ◌==◌, if◌then◌else◌,
}
use functions_invoker.Invoker.Offsets.{
  starts, reads, steps, next_offset, Worker, elsewhere, at_load, at_swap, load, compare_and_swap,
  Offsets, LoopStep, loads, swaps, Runs, starts, reads, steps,
}

-- That many steps of the loops, with no new message between them.
pub data Loops : ℕ → Offsets → Offsets → Type 0 where
  done : (s : Offsets) → Loops 0 s s
  more : (k : ℕ) (s t u : Offsets) → LoopStep s t → Loops k t u → Loops (suc k) s u

-- The steps that a worker takes before it leaves or another one does, on top of its share `c` for the
-- swaps that it can spoil.
weight : (c last : ℕ) → Worker → ℕ
weight c last elsewhere = 0
weight c last (at_load o) = c + 2
weight c last (at_swap o current) = if last == current then c + 1 else c + 3

budget : (c last : ℕ) → List Worker → ℕ
unfolding weight
budget c last [] = 0
budget c last (w ∷ ws) = weight c last w + budget c last ws

same_length :
    (before after : List Worker) (v w : Worker)
    → length (before ++ v ∷ after) ≡ length (before ++ w ∷ after)
same_length before after v w =
    omega (arith, length-append before (v ∷ after), length-append before (w ∷ after))

module _ (c : ℕ) where
  budget-append :
      (last : ℕ) (ws vs : List Worker)
      → budget c last (ws ++ vs) ≡ budget c last ws + budget c last vs
  unfolding budget
  budget-append last [] vs = omega arith
  budget-append last (w ∷ ws) vs = omega (arith, budget-append last ws vs)

  weight-spoiled : (last other : ℕ) (w : Worker) → weight c other w ≤ weight c last w + 2
  unfolding weight
  weight-spoiled last other elsewhere = omega arith
  weight-spoiled last other (at_load o) = omega arith
  weight-spoiled last other (at_swap o current) = ground arith

  -- Another stored offset costs every worker two more steps at most.
  budget-spoiled :
      (last other : ℕ) (ws : List Worker) → budget c other ws ≤ budget c last ws + 2 * length ws
  unfolding budget
  budget-spoiled last other [] = omega arith
  budget-spoiled last other (w ∷ ws) =
      omega (arith, budget-spoiled last other ws, weight-spoiled last other w)

  step-spends :
      (s t : Offsets)
      → 2 * length s.workers ≤ c
      → LoopStep s t
      → (budget c t.last t.workers < budget c s.last s.workers)
        × (length t.workers ≡ length s.workers)
  unfolding budget weight load compare_and_swap
  step-spends _ _ enough (loads before after o last) = elim (Bool-cases (leb o last)) [
    | inl y ↦ rw y (
      omega (
        arith,
        budget-append last before (elsewhere ∷ after),
        budget-append last before (at_load o ∷ after),
      ),
      same_length before after elsewhere (at_load o),
    )
    | inr n ↦ rw n (
      ground (
        arith,
        budget-append last before (at_swap o last ∷ after),
        budget-append last before (at_load o ∷ after),
      ),
      same_length before after (at_swap o last) (at_load o),
    )
  ]
  step-spends _ _ enough (swaps before after o current last) = elim (Bool-cases (last == current)) [
    | inl y ↦ rw y (
      ground (
        arith,
        budget-append o before (elsewhere ∷ after),
        budget-append last before (at_swap o current ∷ after),
        budget-spoiled last o before,
        budget-spoiled last o after,
        length-append before (at_swap o current ∷ after),
      ),
      same_length before after elsewhere (at_swap o current),
    )
    | inr n ↦ rw n (
      ground (
        arith,
        budget-append last before (at_load o ∷ after),
        budget-append last before (at_swap o current ∷ after),
      ),
      same_length before after (at_load o) (at_swap o current),
    )
  ]

  Loops-spend :
      (k : ℕ) (s t : Offsets)
      → 2 * length s.workers ≤ c
      → Loops k s t
      → k + budget c t.last t.workers ≤ budget c s.last s.workers
  Loops-spend _ _ _ enough (done s) = omega arith
  Loops-spend _ _ _ enough (more k s t u step rest) =
      let (spent, same) = step-spends s t enough step in
      omega (arith, spent, Loops-spend k t u (omega (arith, same, enough)) rest)

  budget-bound : (last : ℕ) (ws : List Worker) → budget c last ws ≤ length ws * (c + 3)
  unfolding budget weight
  budget-bound last [] = omega arith
  budget-bound last (elsewhere ∷ ws) = grind (arith, budget-bound last ws)
  budget-bound last (at_load o ∷ ws) = grind (arith, budget-bound last ws)
  budget-bound last (at_swap o current ∷ ws) = ground (arith, budget-bound last ws)

Runs-length : (n : ℕ) (s : Offsets) (highest : ℕ) → Runs n s highest → length s.workers ≡ n
Runs-length n _ _ starts = length-replicate n
  where
    length-replicate : (n : ℕ) → length (replicate n elsewhere) ≡ n
    length-replicate zero = refl
    length-replicate (suc n) = omega (arith, length-replicate n)
Runs-length n _ _ (reads before after last highest offset run) = omega (
  arith,
  Runs-length n _ _ run,
  same_length before after elsewhere (at_load (next_offset offset)),
)
Runs-length n _ _ (steps s t highest run step) = omega (
  arith,
  Runs-length n s highest run,
  (step-spends (2 * length s.workers) s t (omega arith) step).1,
)

-- The loops end: while `n` workers run and no new message is read, they take at most `n * (2 * n + 3)`
-- steps together, however they interleave.
pub Loops-bound :
    (n k : ℕ) (s t : Offsets) (highest : ℕ) → Runs n s highest → Loops k s t → k ≤ n * (2 * n + 3)
Loops-bound n k s t highest run loops =
    let same = Runs-length n s highest run in
    let bound : budget (2 * n) s.last s.workers ≤ length s.workers * (2 * n + 3) =
      budget-bound (2 * n) s.last s.workers in
    omega (arith, Loops-spend (2 * n) k s t (omega (arith, same)) loops, rw same at bound)
