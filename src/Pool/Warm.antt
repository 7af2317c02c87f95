-- ===== src/Pool/Warm.antt =====
-- The warm path of `getContainer` (pkg/exec/pool.go): it touches nothing but the container.
use functions_invoker.Base.{ℕ, ◌≡◌, Bool, true, arith, Bool-cases, String, inl, inr}
use functions_invoker.Container.{PooledContainer, WarmContainerKey, World}
use functions_invoker.Pool.State.{Pool, record_calls}
use functions_invoker.Pool.Get.{set_up, warm_firewall, reuse}
use functions_invoker.Pool.Valid.{Served}

-- Only the list of calls differs.
abbrev pub OnlyCalls : Pool → Pool → Type 0
OnlyCalls p q = q ≡ record p { calls = q.calls }

pub set_up-OnlyCalls :
    (w : World) (ns : String) (c : PooledContainer) (reused : Bool) (p : Pool)
    → OnlyCalls p (set_up w ns c reused p).0
unfolding set_up record_calls
set_up-OnlyCalls w ns c reused p = elim (Bool-cases (w.setup_firewall c.handle ns)) [
  | inl t ↦ rw t
  | inr f ↦ rw f
]

pub set_up-Served :
    (w : World) (key : WarmContainerKey) (memory : ℕ) (c : PooledContainer) (reused : Bool)
    (p : Pool)
    → c.initialized_for ≡ key
    → c.memory ≡ memory
    → w.needs_firewall key.invocation_namespace ≡ true
    → Served w key memory (set_up w key.invocation_namespace c reused p).1
unfolding set_up
set_up-Served w key memory c reused p k s n = ground arith

warm_firewall-OnlyCalls :
    (w : World) (ns : String) (c : PooledContainer) (p : Pool)
    → OnlyCalls p (warm_firewall w ns c p).0
unfolding warm_firewall record_calls set_up
warm_firewall-OnlyCalls w ns c p = ground arith

warm_firewall-Served :
    (w : World) (key : WarmContainerKey) (memory : ℕ) (c : PooledContainer) (p : Pool)
    → c.initialized_for ≡ key
    → c.memory ≡ memory
    → Served w key memory (warm_firewall w key.invocation_namespace c p).1
unfolding warm_firewall set_up
warm_firewall-Served w key memory c p k s = ground arith

pub reuse-OnlyCalls :
    (w : World) (ns : String) (c : PooledContainer) (p : Pool) → OnlyCalls p (reuse w ns c p).0
unfolding reuse record_calls
reuse-OnlyCalls w ns c p = ground arith

pub reuse-Served :
    (w : World) (key : WarmContainerKey) (memory : ℕ) (c : PooledContainer) (p : Pool)
    → c.initialized_for ≡ key
    → c.memory ≡ memory
    → Served w key memory (reuse w key.invocation_namespace c p).1
unfolding reuse
reuse-Served w key memory c p k s = ground arith
