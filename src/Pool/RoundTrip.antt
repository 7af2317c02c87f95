-- ===== src/Pool/RoundTrip.antt =====
-- Putting a container back and getting it again (pkg/exec/pool.go).
use functions_invoker.Base.{
  some, ℕ, ◌≡◌, refl, Bool, true, String, [], ◌∷◌, ◌++◌, lookup-insert, split_last,
  split_last-append, arith,
}
use functions_invoker.Container.{PooledContainer, World, warm_key_eq, warm_eq_iff}
use functions_invoker.Pool.State.{Pool, Outcome, failed, got, idle_at, lock, unlock, record_calls}
use functions_invoker.Pool.Get.{get, get_container, enter, leave, settle, reuse}
use functions_invoker.Pool.Put.{put}

idle_at-put :
    (later : ℕ) (c : PooledContainer) (p : Pool)
    → idle_at c.initialized_for (put later c p).idles
      ≡ idle_at c.initialized_for p.idles ++ record c { last_used = later } ∷ []
unfolding put lock unlock record_calls leave
idle_at-put later c p =
    rw (lookup-insert c.initialized_for c.initialized_for _ p.idles)
      (rw ((warm_eq_iff c.initialized_for c.initialized_for).1 refl))

idles-enter : (memory : ℕ) (p : Pool) → (enter memory p).idles ≡ p.idles
unfolding enter
idles-enter memory p = refl

settle-got :
    (memory : ℕ) (r : Pool × Outcome) (c : PooledContainer) (reused : Bool)
    → r.1 ≡ got c reused
    → (settle memory r).1 ≡ got c reused
unfolding settle
settle-got memory (p, got d b) c reused e = e
settle-got memory (p, failed f) c reused e = cc

reuse-got :
    (w : World) (ns : String) (c : PooledContainer) (p : Pool)
    → w.unpause c.handle ≡ true
    → w.needs_firewall ns ≡ c.firewall_cleanup
    → (reuse w ns c p).1 ≡ got c true
unfolding reuse
reuse-got w ns c p up needs = ground arith

-- The next `Get` for its key gets the container that was just put back, as a reused one, if it
-- unpauses and the namespace's need of a firewall has not changed.
pub get-put :
    (w : World) (later : ℕ) (c : PooledContainer) (kind : String) (memory : ℕ) (p : Pool)
    → w.unpause c.handle ≡ true
    → w.needs_firewall c.initialized_for.invocation_namespace ≡ c.firewall_cleanup
    → (get w true c.initialized_for kind memory (put later c p)).1
      ≡ got (record c { last_used = later }) true
unfolding get get_container
get-put w later c kind memory p up needs =
    rw (last, get_container)
      (settle-got memory _ _ true (reuse-got w c.initialized_for.invocation_namespace _ _ up needs))
  where
    start : Pool
    start = enter memory (put later c p)

    last :
        split_last (idle_at c.initialized_for start.idles)
        ≡ some (idle_at c.initialized_for p.idles, record c { last_used = later })
    last =
        rw (idles-enter memory (put later c p))
          (rw (idle_at-put later c p) (split_last-append (idle_at c.initialized_for p.idles) _))
