-- ===== src/Invoker/Highest.antt =====
-- The workers' loop stores the maximum (cmd/invoker/main.go).
use functions_invoker.Base.{
  zero, refl, suc, replicate, ◌≤◌, ℕ, List, [], ◌∷◌, ◌++◌, ◌≡◌, arith, All, All-append, All-left,
  All-right, Bool-cases, inl, inr, leb, ◌==◌,
}
use functions_invoker.Invoker.Offsets.{
  starts, steps, next_offset, reads, IsOutside, Runs, Worker, elsewhere, at_load, at_swap, load,
  compare_and_swap, Offsets, LoopStep, loads, swaps, max, pending, Raises,
}

pending-append : (ws vs : List Worker) → pending (ws ++ vs) ≡ max (pending ws) (pending vs)
unfolding pending
pending-append [] vs = ground arith
pending-append (elsewhere ∷ ws) vs = pending-append ws vs
pending-append (at_load o ∷ ws) vs = ground (arith, pending-append ws vs)
pending-append (at_swap o c ∷ ws) vs = ground (arith, pending-append ws vs)

-- The stored offset and those that are still to be stored have the maximum that was seen.
abbrev Holds : Offsets → ℕ → Type 0
Holds s highest = (max s.last (pending s.workers) ≡ highest) × All Raises s.workers

step-Holds : (s t : Offsets) (highest : ℕ) → LoopStep s t → Holds s highest → Holds t highest
unfolding pending load compare_and_swap
step-Holds _ _ h (loads before after o last) (m, r) = elim (Bool-cases (leb o last)) [
  | inl y ↦ rw y (
    ground (
      arith,
      pending-append before (at_load o ∷ after),
      pending-append before (elsewhere ∷ after),
    ),
    All-append Raises before (elsewhere ∷ after) (All-left Raises before _ r)
        (tt, (All-right Raises before _ r).1),
  )
  | inr n ↦ rw n (
    ground (
      arith,
      pending-append before (at_load o ∷ after),
      pending-append before (at_swap o last ∷ after),
    ),
    All-append Raises before (at_swap o last ∷ after) (All-left Raises before _ r)
        (ground arith, (All-right Raises before _ r).1),
  )
]
step-Holds _ _ h (swaps before after o c last) (m, r) = elim (Bool-cases (last == c)) [
  | inl y ↦ rw y (
    ground (
      arith,
      pending-append before (at_swap o c ∷ after),
      pending-append before (elsewhere ∷ after),
      (All-right Raises before _ r).0,
    ),
    All-append Raises before (elsewhere ∷ after) (All-left Raises before _ r)
        (tt, (All-right Raises before _ r).1),
  )
  | inr n ↦ rw n (
    ground (
      arith,
      pending-append before (at_swap o c ∷ after),
      pending-append before (at_load o ∷ after),
    ),
    All-append Raises before (at_load o ∷ after) (All-left Raises before _ r)
        (tt, (All-right Raises before _ r).1),
  )
]

pending_outside : (ws : List Worker) → All IsOutside ws → pending ws ≡ 0
unfolding pending
pending_outside [] a = refl
pending_outside (elsewhere ∷ ws) (_, a) = pending_outside ws a
pending_outside (at_load o ∷ ws) (e, a) = cc
pending_outside (at_swap o c ∷ ws) (e, a) = cc

starting : (n : ℕ) → (pending (replicate n elsewhere) ≡ 0) × All Raises (replicate n elsewhere)
unfolding pending
starting zero = (refl, tt)
starting (suc n) = ((starting n).0, (tt, (starting n).1))

read-Holds :
    (before after : List Worker) (last highest offset : ℕ)
    → Holds (record { last = last; workers = before ++ elsewhere ∷ after }) highest
    → Holds
        (record { last = last; workers = before ++ at_load (next_offset offset) ∷ after })
        (max highest (next_offset offset))
unfolding pending
read-Holds before after last highest offset (m, r) = (
  ground (
    arith,
    pending-append before (elsewhere ∷ after),
    pending-append before (at_load (next_offset offset) ∷ after),
  ),
  All-append Raises before (at_load (next_offset offset) ∷ after) (All-left Raises before _ r)
      (tt, (All-right Raises before _ r).1),
)

Runs-Holds : (n : ℕ) (s : Offsets) (highest : ℕ) → Runs n s highest → Holds s highest
Runs-Holds n _ _ starts = (ground (arith, (starting n).0), (starting n).1)
Runs-Holds n _ _ (reads before after last highest offset run) =
    read-Holds before after last highest offset (Runs-Holds n _ highest run)
Runs-Holds n _ _ (steps s t highest run step) =
    step-Holds s t highest step (Runs-Holds n s highest run)

step-grows : (s t : Offsets) → All Raises s.workers → LoopStep s t → s.last ≤ t.last
unfolding compare_and_swap
step-grows _ _ r (loads before after o last) = omega arith
step-grows _ _ r (swaps before after o c last) = ground (arith, (All-right Raises before _ r).0)

-- However the workers' steps interleave: no step lowers the stored offset or raises it above the highest
-- offset after a message that was read.
pub Runs-grows :
    (n : ℕ) (s t : Offsets) (highest : ℕ)
    → Runs n s highest
    → LoopStep s t
    → (s.last ≤ t.last) × (t.last ≤ highest)
Runs-grows n s t highest run step =
    let before = Runs-Holds n s highest run in
    let after = step-Holds s t highest step before in
    (step-grows s t before.1 step, ground (arith, after.0))

-- Whenever no worker is inside the loop, the stored offset is the highest offset after a message that was
-- read, however the workers' steps interleaved.
pub Runs-highest :
    (n : ℕ) (s : Offsets) (highest : ℕ)
    → Runs n s highest
    → All IsOutside s.workers
    → s.last ≡ highest
Runs-highest n s highest run out =
    ground (arith, (Runs-Holds n s highest run).0, pending_outside s.workers out)
