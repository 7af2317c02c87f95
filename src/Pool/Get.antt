-- ===== src/Pool/Get.antt =====
-- Handing out a container (`Get` and `getContainer` of pkg/exec/pool.go). `granted` says whether
-- the semaphore let the call in before its context ended. The channel to the deleting goroutine is
-- taken to be unbounded.
use functions_invoker.Base.{
  ℕ, ◌+◌, ◌-◌, String, Bool, true, false, not, ◌&&◌, none, some, List, [], ◌∷◌, ◌++◌, lookup,
  insert, split_last, add64, sub64, if◌then◌else◌, str_eq, ◌==◌, Eq, ◌≡◌, ◌↔◌, arith, str_eq_iff,
  ==_iff,
}
use functions_invoker.Container.{
  PooledContainer, WarmContainerKey, PrewarmContainerKey, World, specific, unpauses,
  sets_up_firewall, cleans_up_firewall, creates, remove_pooled, cleanup_container, warm_key_eq,
}
use functions_invoker.Pool.State.{
  Pool, Outcome, got, failed, acquire_failed, unpause_state_failed, unpause_remove_failed,
  firewall_setup_failed, firewall_cleanup_failed, no_space, create_failed, broken_during_reuse,
  idle_at, lock, unlock, record_calls, population,
}
use functions_invoker.Pool.Space.{Space, made, exhausted, out_of_fuel, ensure_space}

abbrev pub prewarm_eq : PrewarmContainerKey → PrewarmContainerKey → Bool
prewarm_eq k l = str_eq k.kind l.kind && (k.memory == l.memory)

pub prewarm_eq_iff : (k l : PrewarmContainerKey) → (prewarm_eq k l ≡ true) ↔ (k ≡ l)
prewarm_eq_iff k l = ground (arith, str_eq_iff k.kind l.kind, ==_iff k.memory l.memory)

instance abbrev pub prewarm_key_eq : Eq PrewarmContainerKey
prewarm_key_eq = record { beq = prewarm_eq; beq_iff = prewarm_eq_iff }

-- A fresh container gets a firewall if its namespace needs one.
unfoldable pub set_up : World → String → PooledContainer → Bool → Pool → Pool × Outcome
set_up w ns c reused p =
    if w.setup_firewall c.handle ns
    then (
      record_calls (sets_up_firewall c.handle ∷ []) p,
      got (record c { firewall_cleanup = true }) reused,
    )
    else (
      record_calls (cleanup_container w c) (record_calls (sets_up_firewall c.handle ∷ []) p),
      failed firewall_setup_failed,
    )

-- An idle container's firewall is set up, or removed, if its namespace's needs have changed.
unfoldable pub warm_firewall : World → String → PooledContainer → Pool → Pool × Outcome
unfolding set_up
warm_firewall w ns c p =
    let needs = w.needs_firewall ns in
    if not c.firewall_cleanup && needs
    then set_up w ns c true p
    else (if c.firewall_cleanup && not needs
        then (if w.cleanup_firewall c.handle
            then (
              record_calls (cleans_up_firewall c.handle ∷ []) p,
              got (record c { firewall_cleanup = false }) true,
            )
            else (
              record_calls (cleanup_container w c)
                  (record_calls (cleans_up_firewall c.handle ∷ []) p),
              failed firewall_cleanup_failed,
            ))
        else (p, got c true))

-- An idle container that does not come back from its pause is removed, if its state is known.
unfoldable pub broken_warm : World → PooledContainer → Pool → Pool × Outcome
broken_warm w c p = elim (w.state c.handle) [
  | none ↦ (p, failed unpause_state_failed)
  | some s ↦ (
    record_calls (remove_pooled w c).0 p,
    if (remove_pooled w c).1 then failed (broken_during_reuse s) else failed unpause_remove_failed,
  )
]

unfoldable pub reuse : World → String → PooledContainer → Pool → Pool × Outcome
unfolding warm_firewall broken_warm
reuse w ns c p =
    let p' = record_calls (unpauses c.handle ∷ []) p in
    if w.unpause c.handle then warm_firewall w ns c p' else broken_warm w c p'

-- The most recently used idle container, the last of its list, leaves the list.
unfoldable pub take_idle : WarmContainerKey → List PooledContainer → PooledContainer → Pool → Pool
take_idle key rest c p = record p {
  idles = insert key rest p.idles;
  idles_memory = sub64 p.idles_memory c.memory;
}

-- A prewarmed container, from the front of its list.
unfoldable pub from_prewarmed :
    World
    → WarmContainerKey
    → PrewarmContainerKey
    → PooledContainer
    → List PooledContainer
    → Pool
    → Pool × Outcome
unfolding set_up
from_prewarmed w key pk c rest p =
    let p' = record p { prewarmed = insert pk rest p.prewarmed; prewarm_poke = true } in
    let c' = record c { initialized_for = key } in
    if w.needs_firewall key.invocation_namespace
    then set_up w key.invocation_namespace c' false p'
    else (p', got c' false)

unfoldable pub create_cold : World → WarmContainerKey → String → ℕ → Pool → Pool × Outcome
unfolding set_up
create_cold w key kind memory p =
    let number = add64 p.containers_created 1 in
    let name = specific number key.invocation_namespace key.function.name in
    let p' = record_calls (creates name ∷ []) (record p { containers_created = number }) in
    elim (w.create kind memory name) [
      | none ↦ (p', failed create_failed)
      | some h ↦
          let c : PooledContainer = record {
            handle = h;
            initialized_for = key;
            last_used = 0;
            memory = memory;
            firewall_cleanup = false;
          } in
          if w.needs_firewall key.invocation_namespace
          then set_up w key.invocation_namespace c false p'
          else (p', got c false)
    ]

-- With the space made: a prewarmed container, or a new one.
unfoldable pub fresh : World → WarmContainerKey → String → ℕ → Pool → Pool × Outcome
unfolding from_prewarmed create_cold
fresh w key kind memory p =
    let pk : PrewarmContainerKey = record { kind = kind; memory = memory } in
    elim (lookup pk p.prewarmed) [
      | none ↦ create_cold w key kind memory p
      | some [] ↦ create_cold w key kind memory p
      | some (c ∷ rest) ↦ from_prewarmed w key pk c rest p
    ]

-- What follows the loop. The error return of the source keeps the mutex locked.
unfoldable pub after_space : World → WarmContainerKey → String → ℕ → Pool → Space → Pool × Outcome
unfolding fresh
after_space w key kind memory p (made out p') =
    fresh w key kind memory (unlock (record p' { to_delete = p'.to_delete ++ out }))
after_space w key kind memory p (exhausted p') = (p', failed no_space)
after_space w key kind memory p out_of_fuel = (p, failed no_space)

unfoldable pub get_container : World → WarmContainerKey → String → ℕ → ℕ → Pool → Pool × Outcome
unfolding reuse take_idle after_space
get_container w key kind memory in_flight p =
    let locked = lock p in
    elim (split_last (idle_at key p.idles)) [
      | some (rest, c) ↦ reuse w key.invocation_namespace c (unlock (take_idle key rest c locked))
      | none ↦
          after_space w key kind memory locked
            (ensure_space (population locked.idles + 1) in_flight locked)
    ]

unfoldable pub enter : ℕ → Pool → Pool
enter memory p = record p {
  in_flight = p.in_flight + memory;
  in_flight_memory = add64 p.in_flight_memory memory;
}

-- Releasing the semaphore and the counter.
unfoldable pub leave : ℕ → Pool → Pool
leave memory p = record p {
  in_flight_memory = sub64 p.in_flight_memory memory;
  in_flight = p.in_flight - memory;
}

unfoldable pub settle : ℕ → Pool × Outcome → Pool × Outcome
settle memory (p, got c reused) = (p, got c reused)
settle memory (p, failed e) = (leave memory p, failed e)

unfoldable pub get : World → Bool → WarmContainerKey → String → ℕ → Pool → Pool × Outcome
get w granted key kind memory p =
    let p' = enter memory p in
    if granted
    then settle memory (get_container w key kind memory p'.in_flight_memory p')
    else (p, failed acquire_failed)
