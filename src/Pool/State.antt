-- ===== src/Pool/State.antt =====
-- The state of the pool (`ContainerPool` of pkg/exec/pool.go) and the bookkeeping on its idle
-- containers. The semaphore's count is `in_flight`, the atomic counter is `in_flight_memory`, the
-- mutex of the idle containers is `idles_locked`, and `calls` records what was asked of
-- containers, newest first.
use functions_invoker.Base.{
  ℕ, String, Bool, true, false, List, [], ◌∷◌, ◌++◌, sum_by, lookup, insert, sub64, length, slice,
  sum_slices,
}
use functions_invoker.Container.{
  PooledContainer, WarmContainerKey, PrewarmContainerKey, ContainerState, Call, warm_key_eq,
}

pub record StemcellConfig : Type 0 where
  pub count : ℕ
  pub memory : ℕ

pub record RuntimeManifest : Type 0 where
  pub kind : String
  pub is_default : Bool
  pub image : String
  pub stemcells : List StemcellConfig

abbrev pub Idles : Type 0
Idles = List (WarmContainerKey × List PooledContainer)

abbrev pub Prewarmed : Type 0
Prewarmed = List (PrewarmContainerKey × List PooledContainer)

pub record Pool : Type 0 where
  pub max_memory : ℕ
  pub runtime_manifests : List (String × RuntimeManifest)
  pub containers_created : ℕ
  pub in_flight : ℕ
  pub in_flight_memory : ℕ
  pub idles_memory : ℕ
  pub idles : Idles
  pub idles_locked : Bool
  pub prewarmed : Prewarmed
  pub prewarm_poke : Bool
  pub to_delete : List PooledContainer
  pub calls : List Call

pub data GetError : Type 0 where
  acquire_failed unpause_state_failed unpause_remove_failed : GetError
  firewall_setup_failed firewall_cleanup_failed no_space create_failed : GetError
  broken_during_reuse : ContainerState → GetError

-- A container with whether it was reused, or an error.
pub data Outcome : Type 0 where
  got : PooledContainer → Bool → Outcome
  failed : GetError → Outcome

abbrev pub idle_at : WarmContainerKey → Idles → List PooledContainer
idle_at k m = slice (lookup k m)

unfoldable pub lock : Pool → Pool
lock p = record p { idles_locked = true }

unfoldable pub unlock : Pool → Pool
unlock p = record p { idles_locked = false }

unfoldable pub record_calls : List Call → Pool → Pool
record_calls cs p = record p { calls = cs ++ p.calls }

abbrev pub tail {κ} : {V : Type κ} → List V → List V
tail [] = []
tail (x ∷ xs) = xs

-- The container that the eviction takes out: the first of its list.
unfoldable pub drop_first : PooledContainer → Pool → Pool
drop_first c p = record p {
  idles = insert c.initialized_for (tail (idle_at c.initialized_for p.idles)) p.idles;
  idles_memory = sub64 p.idles_memory c.memory;
}

abbrev pub memory_of : PooledContainer → ℕ
memory_of c = c.memory

-- The memory of all containers in a map of slices.
abbrev pub held {κ} : {K : Type κ} → List (K × List PooledContainer) → ℕ
held = sum_slices (sum_by memory_of)

-- How many containers a map of slices holds.
abbrev pub population {κ} : {K : Type κ} → List (K × List PooledContainer) → ℕ
population = sum_slices length
