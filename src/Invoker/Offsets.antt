-- ===== src/Invoker/Offsets.antt =====
-- The highest offset that the workers have seen (the loop over `lastOffset` in cmd/invoker/main.go):
-- each worker loads the offset, compares, and swaps, and the workers' steps interleave in any order.
use functions_invoker.Base.{
  replicate, ℕ, List, [], ◌∷◌, ◌++◌, ◌+◌, ◌≡◌, ◌<◌, leb, ◌==◌, if◌then◌else◌,
}

-- Where a worker is: outside the loop, before `Load`, and before `CompareAndSwap` with what it loaded.
pub data Worker : Type 0 where
  elsewhere : Worker
  at_load : (offset : ℕ) → Worker
  at_swap : (offset current : ℕ) → Worker

-- The offset of the message after one that was read.
abbrev pub next_offset : ℕ → ℕ
next_offset message_offset = message_offset + 1

-- `current := lastOffset.Load()`, and the comparison after it.
unfoldable pub load : (offset last : ℕ) → Worker
load offset last = if leb offset last then elsewhere else at_swap offset last

-- `lastOffset.CompareAndSwap(current, offset)`: the worker and the stored offset.
unfoldable pub compare_and_swap : (offset current last : ℕ) → Worker × ℕ
compare_and_swap offset current last =
    if last == current then (elsewhere, offset) else (at_load offset, last)

-- `lastOffset`, and the workers.
pub record Offsets : Type 0 where
  pub last : ℕ
  pub workers : List Worker

-- A step of one worker inside the loop.
pub data LoopStep : Offsets → Offsets → Type 0 where
  loads :
      (before after : List Worker) (offset last : ℕ)
      → LoopStep
          (record { last = last; workers = before ++ at_load offset ∷ after })
          (record { last = last; workers = before ++ load offset last ∷ after })
  swaps :
      (before after : List Worker) (offset current last : ℕ)
      → LoopStep
          (record { last = last; workers = before ++ at_swap offset current ∷ after })
          (record {
            last = (compare_and_swap offset current last).1;
            workers = before ++ (compare_and_swap offset current last).0 ∷ after;
          })

abbrev pub max : ℕ → ℕ → ℕ
max a b = if leb a b then b else a

-- A run of the workers, with the highest of the offsets after the messages that were read.
pub data Runs (workers : ℕ) : Offsets → (highest : ℕ) → Type 0 where
  starts : Runs workers (record { last = 0; workers = replicate workers elsewhere }) 0
  reads :
      (before after : List Worker) (last highest message_offset : ℕ)
      → Runs workers (record { last = last; workers = before ++ elsewhere ∷ after }) highest
      → Runs workers
          (record { last = last; workers = before ++ at_load (next_offset message_offset) ∷ after })
          (max highest (next_offset message_offset))
  steps :
      (s t : Offsets) (highest : ℕ) → Runs workers s highest → LoopStep s t → Runs workers t highest

-- The highest offset that the workers are still to store.
unfoldable pub pending : List Worker → ℕ
pending [] = 0
pending (elsewhere ∷ ws) = pending ws
pending (at_load offset ∷ ws) = max offset (pending ws)
pending (at_swap offset current ∷ ws) = max offset (pending ws)

-- A worker swaps only for a higher offset.
abbrev pub Raises : Worker → Type 0
Raises elsewhere = Unit
Raises (at_load offset) = Unit
Raises (at_swap offset current) = current < offset

-- No worker is inside the loop.
abbrev pub IsOutside : Worker → Type 0
IsOutside w = w ≡ elsewhere
