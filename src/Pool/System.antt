-- ===== src/Pool/System.antt =====
-- The pool with its clients (pkg/exec/pool.go): who holds which container. Calls of the pool are
-- steps, in any order; each is one step.
use functions_invoker.Base.{
  ℕ, ◌+◌, ◌≤◌, ◌≡◌, Bool, true, false, String, List, [], ◌∷◌, ◌++◌, All, sum_by,
}
use functions_invoker.Container.{PooledContainer, WarmContainerKey, World}
use functions_invoker.Pool.State.{Pool, RuntimeManifest, Outcome, got, failed, memory_of}
use functions_invoker.Pool.Get.{get}
use functions_invoker.Pool.Put.{put, put_to_destroy}
use functions_invoker.Pool.Reap.{reap, delete_for_space}
use functions_invoker.Pool.Prewarm.{serve_poke}
use functions_invoker.Pool.Valid.{IsValid}

-- `NewContainerPool`, with the first poke sent.
unfoldable pub new_container_pool : ℕ → List (String × RuntimeManifest) → Pool
new_container_pool user_memory manifests = record {
  max_memory = user_memory;
  runtime_manifests = manifests;
  containers_created = 0;
  in_flight = 0;
  in_flight_memory = 0;
  idles_memory = 0;
  idles = [];
  idles_locked = false;
  prewarmed = [];
  prewarm_poke = true;
  to_delete = [];
  calls = [];
}

pub record System : Type 0 where
  pub pool : Pool
  pub lent : List PooledContainer
  pub now : ℕ

-- The containers out with clients after a `Get`.
abbrev pub lend : Outcome → List PooledContainer → List PooledContainer
lend (got c reused) lent = c ∷ lent
lend (failed e) lent = lent

-- The semaphore lets a `Get` in only if there is room (golang.org/x/sync/semaphore), and every
-- call for a function comes with its memory limit.
pub data Step (sizes : WarmContainerKey → ℕ) (s : System) : System → Type 0 where
  gets :
      (w : World) (granted : Bool) (key : WarmContainerKey) (kind : String) (u : System)
      → (granted ≡ true → s.pool.in_flight + sizes key ≤ s.pool.max_memory)
      → u ≡ record s {
        pool = (get w granted key kind (sizes key) s.pool).0;
        lent = lend (get w granted key kind (sizes key) s.pool).1 s.lent;
      }
      → Step sizes s u
  puts :
      (before : List PooledContainer) (c : PooledContainer) (after : List PooledContainer)
      (later : ℕ) (u : System)
      → s.lent ≡ before ++ c ∷ after
      → s.now ≤ later
      → u ≡ record { pool = put later c s.pool; lent = before ++ after; now = later }
      → Step sizes s u
  destroys :
      (w : World) (before : List PooledContainer) (c : PooledContainer)
      (after : List PooledContainer) (u : System)
      → s.lent ≡ before ++ c ∷ after
      → u ≡ record s { pool = (put_to_destroy w c s.pool).0; lent = before ++ after }
      → Step sizes s u
  reaps :
      (w : World) (older_than : ℕ) (u : System)
      → u ≡ record s { pool = (reap w older_than s.pool).0 }
      → Step sizes s u
  prewarms : (w : World) (u : System) → u ≡ record s { pool = serve_poke w s.pool } → Step sizes s u
  deletes :
      (w : World) (u : System) → u ≡ record s { pool = delete_for_space w s.pool } → Step sizes s u

pub data Reach (sizes : WarmContainerKey → ℕ) (s : System) : System → Type 0 where
  here : Reach sizes s s
  next : {t u : System} → Reach sizes s t → Step sizes t u → Reach sizes s u

-- The pool is valid, and what is in flight is what clients hold, each of its function's size.
pub record Sound (sizes : WarmContainerKey → ℕ) (user_memory : ℕ) (s : System) : Type 0 where
  pub limit : s.pool.max_memory ≡ user_memory
  pub valid : IsValid sizes s.now s.pool
  pub flight : s.pool.in_flight ≡ sum_by memory_of s.lent
  pub sized : All (λ c. c.memory ≡ sizes c.initialized_for) s.lent
