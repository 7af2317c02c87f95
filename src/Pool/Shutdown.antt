-- ===== src/Pool/Shutdown.antt =====
-- Shutting the pool down (`Shutdown` of pkg/exec/pool.go). The goroutines that it waits for first do what
-- is pending.
use functions_invoker.Base.{Bool, true, false, ◌&&◌, List, [], ◌∷◌, ◌++◌, if◌then◌else◌}
use functions_invoker.Container.{PooledContainer, World, Call, remove_pooled}
use functions_invoker.Pool.State.{Pool, Prewarmed, record_calls}
use functions_invoker.Pool.Prewarm.{reconcile_prewarm}
use functions_invoker.Pool.Reap.{dispose_all, delete_for_space, all_idle}

unfoldable pub all_prewarmed : Prewarmed → List PooledContainer
all_prewarmed [] = []
all_prewarmed ((k, cs) ∷ m) = cs ++ all_prewarmed m

unfoldable pub remove_all : World → List PooledContainer → List Call × Bool
remove_all w [] = ([], true)
remove_all w (c ∷ cs) =
    let rest = remove_all w cs in (rest.0 ++ (remove_pooled w c).0, (remove_pooled w c).1 && rest.1)

-- A poke that is in the channel when it is closed is still served. Whether there was no error.
unfoldable pub serve_last_poke : World → Pool → Pool × Bool
serve_last_poke w p =
    if p.prewarm_poke then reconcile_prewarm w (record p { prewarm_poke = false }) else (p, true)

-- Both mutexes are held to the end; the maps are left as they are.
unfoldable pub remove_containers : World → Pool → Pool × Bool
remove_containers w p =
    let p' = delete_for_space w p in
    let idle = dispose_all w (all_idle p'.idles) in
    let warm = remove_all w (all_prewarmed p'.prewarmed) in
    (record_calls warm.0 (record_calls idle.0 p'), idle.1 && warm.1)

-- `panicked`: after an error the goroutine pokes again, and sends on the closed channel.
pub data Ended : Type 0 where
  panicked : Ended
  finished : Bool → Ended

unfoldable pub shutdown : World → Pool → Pool × Ended
shutdown w p =
    let served = serve_last_poke w p in
    let done = remove_containers w served.0 in
    if served.1 then (done.0, finished done.1) else (served.0, panicked)
