-- ===== src/Pool/Put.antt =====
-- Taking a container back (`Put` and `PutToDestroy` of pkg/exec/pool.go). `now` is the clock.
use functions_invoker.Base.{ℕ, Bool, [], ◌∷◌, ◌++◌, insert, add64}
use functions_invoker.Container.{
  PooledContainer, World, pauses_eventually, remove_pooled, warm_key_eq,
}
use functions_invoker.Pool.State.{Pool, idle_at, record_calls, lock, unlock}
use functions_invoker.Pool.Get.{leave}

unfoldable pub put : ℕ → PooledContainer → Pool → Pool
put now c p =
    let c' = record c { last_used = now } in
    let p' = lock (record_calls (pauses_eventually c.handle ∷ []) p) in
    let p'' = record p' {
      idles_memory = add64 p'.idles_memory c.memory;
      idles = insert c.initialized_for (idle_at c.initialized_for p'.idles ++ c' ∷ []) p'.idles;
    } in
    leave c.memory (unlock p'')

-- The result says whether the removal succeeded; the memory is released in either case.
unfoldable pub put_to_destroy : World → PooledContainer → Pool → Pool × Bool
put_to_destroy w c p =
    (leave c.memory (record_calls (remove_pooled w c).0 p), (remove_pooled w c).1)
