-- ===== src/Pool/Tests.antt =====
-- Runs of the pool at concrete inputs, and the pool's theorems at such inputs.
use Prim.Native.Nat.{max}
use mathlib.Core.List.{Perm}
use functions_invoker.Base.{
  ℕ, ◌+◌, ◌≤◌, ◌≡◌, refl, true, false, String, none, some, List, [], ◌∷◌, ◌++◌, All, length, sum_by,
  sum_slices, lookup, insert, split_last, add64, sub64, has_suffix, arith,
}
use functions_invoker.Container.{PooledContainer, WarmContainerKey, World}
use functions_invoker.Pool.State.{
  Pool, RuntimeManifest, got, held, memory_of, lock, unlock, record_calls, drop_first,
}
use functions_invoker.Pool.Space.{older, longest_unused, make_space, ensure_space}
use functions_invoker.Pool.Get.{
  get, get_container, enter, settle, reuse, after_space, fresh, create_cold,
}
use functions_invoker.Pool.Put.{put, put_to_destroy}
use functions_invoker.Pool.Reap.{reap, dispose_all, all_idle}
use functions_invoker.Pool.Shutdown.{panicked, shutdown, serve_last_poke}
use functions_invoker.Pool.Emptied.{Ends, shutdown-Ends}
use functions_invoker.Pool.Prewarm.{
  create_prewarmed, create_many, create_all, necessary_creations, prewarmed_at, reconcile_prewarm,
}
use functions_invoker.Pool.Valid.{IsValid}
use functions_invoker.Pool.Eviction.{Spaced, make_space-Spaced}
use functions_invoker.Pool.Calls.{Delivered, get-Delivered, put-IsValid, put_to_destroy-IsValid}
use functions_invoker.Pool.Reaped.{reap-split, AllYounger}
use functions_invoker.Pool.Stocked.{wanted, reconcile_prewarm-length}
use functions_invoker.Pool.System.{System, gets, here, next, new_container_pool, lend}
use functions_invoker.Pool.Bound.{Reach-within}
use functions_invoker.Pool.RoundTrip.{get-put}

abbrev hello : WarmContainerKey
hello = record {
  invocation_namespace = "guest";
  function = record {
    namespace = "guest";
    name = "hello";
    version = "0.0.1";
    revision = "1-a";
    binding = "";
  };
}

-- Everything works, and no namespace needs a firewall; a new container is numbered 100.
abbrev calm : World
calm = record {
  unpause = λ h. true;
  state = λ h. none;
  remove = λ h. true;
  needs_firewall = λ ns. false;
  setup_firewall = λ h ns. true;
  cleanup_firewall = λ h. false;
  create = λ kind memory name. some 100;
}

abbrev sizes : WarmContainerKey → ℕ
sizes key = 128

-- A container that was used at the time `t`.
abbrev used_at : ℕ → ℕ → PooledContainer
used_at handle t = record {
  handle = handle;
  initialized_for = hello;
  last_used = t;
  memory = 128;
  firewall_cleanup = false;
}

abbrev manifests : List (String × RuntimeManifest)
manifests =
    (
      "nodejs",
      record {
        kind = "nodejs:14";
        is_default = true;
        image = "img";
        stemcells = record { count = 2; memory = 256 } ∷ [];
      },
    )
    ∷ []

-- Two idle containers of `hello`, and the given memory in flight.
abbrev holding : ℕ → Pool
holding n = record {
  max_memory = 384;
  runtime_manifests = manifests;
  containers_created = 3;
  in_flight = n;
  in_flight_memory = n;
  idles_memory = 256;
  idles = (hello, used_at 1 10 ∷ used_at 2 20 ∷ []) ∷ [];
  idles_locked = false;
  prewarmed = [];
  prewarm_poke = false;
  to_delete = [];
  calls = [];
}

abbrev busy : Pool
busy = holding 128

holding-IsValid : (n : ℕ) → n ≤ 128 → IsValid sizes 30 (holding n)
unfolding sum_slices lookup
holding-IsValid n h = record {
  books = record {
    accounted = refl;
    agreed = refl;
    small = omega arith;
    admitted = omega arith;
    idle_within = omega arith;
    distinct = (refl, tt);
    entries = (
      (
        (
          record { key = refl; size = refl; past = omega arith },
          (record { key = refl; size = refl; past = omega arith }, tt),
        ),
        ((omega arith, tt), (tt, tt)),
      ),
      tt,
    );
  };
  within = omega arith;
  unlocked = refl;
  stock = tt;
}

busy-IsValid : IsValid sizes 30 busy
busy-IsValid = holding-IsValid 128 (omega arith)

-- The most recently used container is handed out.
get_most_recent : (get calm true hello "nodejs:14" 128 busy).1 ≡ got (used_at 2 20) true
unfolding get get_container enter settle reuse split_last lookup
get_most_recent = refl

-- Another function evicts the longest unused one, and is created cold.
abbrev other : WarmContainerKey
other = record hello { invocation_namespace = "other" }

get_evicts :
    ((get calm true other "nodejs:14" 128 busy).0.to_delete ≡ used_at 1 10 ∷ [])
    × ((get calm true other "nodejs:14" 128 busy).0.idles_memory ≡ 128)
unfolding get get_container enter settle lookup split_last ensure_space make_space longest_unused
    older drop_first insert sum_slices after_space fresh create_cold lock unlock record_calls add64
    sub64
get_evicts = (refl, refl)

get-Delivered_example :
    IsValid sizes 30 (get calm true other "nodejs:14" 128 (holding 0)).0
    × Delivered calm other 128
        (holding 0)
        (get calm true other "nodejs:14" 128 (holding 0)).0
        (get calm true other "nodejs:14" 128 (holding 0)).1
    × ((get calm true other "nodejs:14" 128 (holding 0)).0.max_memory ≡ 384)
get-Delivered_example =
    get-Delivered sizes 30 calm true other "nodejs:14" 128 (holding 0)
      (holding-IsValid 0 (omega arith)) refl (λ _. omega arith)

put-IsValid_example :
    IsValid sizes 40 (put 40 (used_at 3 0) busy)
    × ((put 40 (used_at 3 0) busy).in_flight + 128 ≡ 128)
put-IsValid_example =
    put-IsValid sizes 30 40 (used_at 3 0) busy busy-IsValid (omega arith) refl (omega arith)

put_to_destroy-IsValid_example :
    IsValid sizes 30 (put_to_destroy calm (used_at 3 0) busy).0
    × ((put_to_destroy calm (used_at 3 0) busy).0.in_flight + 128 ≡ 128)
put_to_destroy-IsValid_example =
    put_to_destroy-IsValid sizes 30 calm (used_at 3 0) busy busy-IsValid (omega arith)

make_space-Spaced_example : Spaced sizes 30 256 busy [] (make_space 3 256 [] busy)
unfolding sum_slices
make_space-Spaced_example =
    make_space-Spaced sizes 30 256 3 [] busy busy-IsValid.books (omega arith) (omega arith)
      (omega arith)

reap-split_example :
    (old : List PooledContainer) × Perm
      (used_at 1 10 ∷ used_at 2 20 ∷ [])
      (old ++ all_idle (reap calm 15 busy).0.idles)
    × All (λ c. c.last_used ≤ 15) old
    × AllYounger 15 (reap calm 15 busy).0.idles
    × ((reap calm 15 busy).0.calls ≡ (dispose_all calm old).0 ++ [])
unfolding all_idle
reap-split_example = reap-split sizes 30 calm 15 busy busy-IsValid

busy_reconciled : (reconcile_prewarm calm busy).1 ≡ true
unfolding reconcile_prewarm necessary_creations create_all create_many create_prewarmed lookup
    has_suffix insert add64 record_calls
busy_reconciled = refl

reconcile_prewarm-length_example :
    length (
      prewarmed_at
        (record { kind = "nodejs:14"; memory = 256 })
        (reconcile_prewarm calm busy).0.prewarmed)
    ≡ max (wanted (record { kind = "nodejs:14"; memory = 256 }) manifests 0) 0
unfolding lookup
reconcile_prewarm-length_example =
    reconcile_prewarm-length calm busy (record { kind = "nodejs:14"; memory = 256 }) busy_reconciled

get-put_example :
    (get calm true hello "nodejs:14" 128 (put 40 (used_at 3 0) busy)).1 ≡ got (used_at 3 40) true
get-put_example = get-put calm 40 (used_at 3 0) "nodejs:14" 128 busy refl refl

shutdown-Ends_example : Ends calm busy (shutdown calm busy)
shutdown-Ends_example = shutdown-Ends calm busy

-- Containers are no longer created.
abbrev exhausted_host : World
exhausted_host = record calm { create = λ kind memory name. none }

poke_at_shutdown : (shutdown exhausted_host (record busy { prewarm_poke = true })).1 ≡ panicked
unfolding shutdown serve_last_poke reconcile_prewarm create_all create_many create_prewarmed
    necessary_creations has_suffix insert lookup
poke_at_shutdown = refl

abbrev begun : System
begun = record { pool = new_container_pool 256 manifests; lent = []; now = 5 }

abbrev one_lent : System
one_lent = record begun {
  pool = (get calm true hello "nodejs:14" 128 begun.pool).0;
  lent = lend (get calm true hello "nodejs:14" 128 begun.pool).1 [];
}

Reach-within_example :
    (held one_lent.pool.idles + sum_by memory_of one_lent.lent ≤ 256)
    × (one_lent.pool.idles_memory ≡ held one_lent.pool.idles)
    × (one_lent.pool.in_flight_memory ≡ sum_by memory_of one_lent.lent)
    × (one_lent.pool.idles_locked ≡ false)
unfolding new_container_pool
Reach-within_example =
    Reach-within sizes 256 manifests 5 {t = one_lent} (omega arith)
      (next here (gets calm true hello "nodejs:14" one_lent (λ _. omega arith) refl))
