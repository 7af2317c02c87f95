-- ===== src/Pool/Emptied.antt =====
-- What a shutdown of the pool leaves (`Shutdown` of pkg/exec/pool.go).
use functions_invoker.Base.{
  if◌then◌else◌, ap, Bool, true, false, List, [], ◌∷◌, ◌++◌, ◌≡◌, ◌↔◌, ◌⊎◌, inl, inr, refl, arith,
  Bool-cases, All,
}
use functions_invoker.Container.{
  PooledContainer, World, Call, removes, remove_pooled, cleanup_container, is_broken_by_user,
}
use functions_invoker.Pool.State.{Pool, record_calls}
use functions_invoker.Pool.Prewarm.{reconcile_prewarm}
use functions_invoker.Pool.Reap.{dispose, dispose_all, delete_for_space, all_idle}
use functions_invoker.Pool.Shutdown.{
  Ended, panicked, finished, all_prewarmed, remove_all, serve_last_poke, remove_containers,
  shutdown,
}

-- The removal of a container succeeds.
abbrev pub Removable : World → PooledContainer → Type 0
Removable w c =
    ((c.firewall_cleanup ≡ false) ⊎ (w.cleanup_firewall c.handle ≡ true))
    × (w.remove c.handle ≡ true)

-- An idle container can be unpaused, or is broken through the fault of its user, and removed.
abbrev pub Disposable : World → PooledContainer → Type 0
Disposable w c =
    ((w.unpause c.handle ≡ true) ⊎ (is_broken_by_user w c.handle ≡ true)) × Removable w c

abbrev pub HasCall : Call → List Call → Type 0
HasCall call [] = ⊥
HasCall call (x ∷ xs) = (x ≡ call) ⊎ HasCall call xs

-- Docker is asked to remove the container, unless its firewall cannot be removed.
abbrev pub Asked : World → List Call → PooledContainer → Type 0
Asked w calls c =
    ((c.firewall_cleanup ≡ true) × (w.cleanup_firewall c.handle ≡ false))
    ⊎ HasCall (removes c.handle) calls

HasCall-left : (call : Call) (xs ys : List Call) → HasCall call xs → HasCall call (xs ++ ys)
HasCall-left call [] ys h = elim h [ ]
HasCall-left call (x ∷ xs) ys (inl e) = inl e
HasCall-left call (x ∷ xs) ys (inr h) = inr (HasCall-left call xs ys h)

HasCall-right : (call : Call) (xs ys : List Call) → HasCall call ys → HasCall call (xs ++ ys)
HasCall-right call [] ys h = h
HasCall-right call (x ∷ xs) ys h = inr (HasCall-right call xs ys h)

module _ (w : World) where
  Asked-left : (xs ys : List Call) (c : PooledContainer) → Asked w xs c → Asked w (xs ++ ys) c
  Asked-left xs ys c (inl b) = inl b
  Asked-left xs ys c (inr h) = inr (HasCall-left (removes c.handle) xs ys h)

  Asked-right : (xs ys : List Call) (c : PooledContainer) → Asked w ys c → Asked w (xs ++ ys) c
  Asked-right xs ys c (inl b) = inl b
  Asked-right xs ys c (inr h) = inr (HasCall-right (removes c.handle) xs ys h)

  All-left :
      (xs ys : List Call) (cs : List PooledContainer)
      → All (Asked w xs) cs
      → All (Asked w (xs ++ ys)) cs
  All-left xs ys [] h = tt
  All-left xs ys (c ∷ cs) h = (Asked-left xs ys c h.0, All-left xs ys cs h.1)

  All-right :
      (xs ys : List Call) (cs : List PooledContainer)
      → All (Asked w ys) cs
      → All (Asked w (xs ++ ys)) cs
  All-right xs ys [] h = tt
  All-right xs ys (c ∷ cs) h = (Asked-right xs ys c h.0, All-right xs ys cs h.1)

  remove_pooled_iff : (c : PooledContainer) → ((remove_pooled w c).1 ≡ true) ↔ Removable w c
  unfolding remove_pooled
  remove_pooled_iff c = ground arith

  remove_pooled-Asked : (c : PooledContainer) → Asked w (remove_pooled w c).0 c
  unfolding remove_pooled
  remove_pooled-Asked c = ground arith

  dispose_iff : (c : PooledContainer) → ((dispose w c).1 ≡ true) ↔ Disposable w c
  unfolding dispose
  dispose_iff c = ground (arith, remove_pooled_iff c)

  dispose-Asked : (c : PooledContainer) → Asked w (dispose w c).0 c
  unfolding dispose cleanup_container
  dispose-Asked c = elim (Bool-cases (w.unpause c.handle)) [
    | inl y ↦ rw y (Asked-left (remove_pooled w c).0 _ c (remove_pooled-Asked c))
    | inr n ↦ elim (Bool-cases (is_broken_by_user w c.handle)) [
      | inl b ↦ rw (n, b) (Asked-left (remove_pooled w c).0 _ c (remove_pooled-Asked c))
      | inr m ↦ rw (n, m) (Asked-left (remove_pooled w c).0 _ c (remove_pooled-Asked c))
    ]
  ]

  dispose_all_iff :
      (cs : List PooledContainer) → ((dispose_all w cs).1 ≡ true) ↔ All (Disposable w) cs
  unfolding dispose_all
  dispose_all_iff [] = (λ _. tt, λ _. refl)
  dispose_all_iff (c ∷ cs) = ground (arith, dispose_iff c, dispose_all_iff cs)

  remove_all_iff : (cs : List PooledContainer) → ((remove_all w cs).1 ≡ true) ↔ All (Removable w) cs
  unfolding remove_all
  remove_all_iff [] = (λ _. tt, λ _. refl)
  remove_all_iff (c ∷ cs) = ground (arith, remove_pooled_iff c, remove_all_iff cs)

  dispose_all-Asked : (cs : List PooledContainer) → All (Asked w (dispose_all w cs).0) cs
  unfolding dispose_all
  dispose_all-Asked [] = tt
  dispose_all-Asked (c ∷ cs) = (
    Asked-right (dispose_all w cs).0 (dispose w c).0 c (dispose-Asked c),
    All-left (dispose_all w cs).0 (dispose w c).0 cs (dispose_all-Asked cs),
  )

  remove_all-Asked : (cs : List PooledContainer) → All (Asked w (remove_all w cs).0) cs
  unfolding remove_all
  remove_all-Asked [] = tt
  remove_all-Asked (c ∷ cs) = (
    Asked-right (remove_all w cs).0 (remove_pooled w c).0 c (remove_pooled-Asked c),
    All-left (remove_all w cs).0 (remove_pooled w c).0 cs (remove_all-Asked cs),
  )

-- What the pool `q` held is gone as far as that can be, and `b` tells whether no error occurred.
abbrev pub Emptied : World → Pool → List Call → Bool → Type 0
Emptied w q calls b =
    All (Asked w calls) q.to_delete
    × All (Asked w calls) (all_idle q.idles)
    × All (Asked w calls) (all_prewarmed q.prewarmed)
    × ((b ≡ true)
        ↔ (All (Disposable w) (all_idle q.idles) × All (Removable w) (all_prewarmed q.prewarmed)))

remove_containers-Emptied :
    (w : World) (q : Pool) → Emptied w q (remove_containers w q).0.calls (remove_containers w q).1
unfolding remove_containers delete_for_space record_calls
remove_containers-Emptied w q = (
  All-right w warm.0 (idle.0 ++ (first.0 ++ q.calls)) q.to_delete (
      All-right w idle.0 (first.0 ++ q.calls) q.to_delete
        (All-left w first.0 q.calls q.to_delete (dispose_all-Asked w q.to_delete))),
  All-right w warm.0 (idle.0 ++ (first.0 ++ q.calls)) (all_idle q.idles) (
      All-left w idle.0 (first.0 ++ q.calls) (all_idle q.idles)
        (dispose_all-Asked w (all_idle q.idles))),
  All-left w warm.0 (idle.0 ++ (first.0 ++ q.calls)) (all_prewarmed q.prewarmed)
      (remove_all-Asked w (all_prewarmed q.prewarmed)),
  ground
      (arith, dispose_all_iff w (all_idle q.idles), remove_all_iff w (all_prewarmed q.prewarmed)),
)
  where
    first : List Call × Bool
    first = dispose_all w q.to_delete

    idle : List Call × Bool
    idle = dispose_all w (all_idle q.idles)

    warm : List Call × Bool
    warm = remove_all w (all_prewarmed q.prewarmed)

-- The last reconciliation of the prewarmed containers, if it is still to be done.
abbrev pub last_reconciled : World → Pool → Pool × Bool
last_reconciled w p = reconcile_prewarm w (record p { prewarm_poke = false })

abbrev pub Ends : World → Pool → Pool × Ended → Type 0
Ends w p out =
    ((p.prewarm_poke ≡ true) × ((last_reconciled w p).1 ≡ false) × (out.1 ≡ panicked))
    ⊎ ((b : Bool) × (q : Pool) × (((p.prewarm_poke ≡ false) × (q ≡ p))
          ⊎ ((p.prewarm_poke ≡ true)
              × ((last_reconciled w p).1 ≡ true)
              × (q ≡ (last_reconciled w p).0)))
        × (out.1 ≡ finished b)
        × Emptied w q out.0.calls b)

serve_last_poke-none :
    (w : World) (p : Pool) → p.prewarm_poke ≡ false → serve_last_poke w p ≡ (p, true)
unfolding serve_last_poke
serve_last_poke-none w p n = ap (λ (b : Bool). if b then last_reconciled w p else (p, true)) n

serve_last_poke-some :
    (w : World) (p : Pool) → p.prewarm_poke ≡ true → serve_last_poke w p ≡ last_reconciled w p
unfolding serve_last_poke
serve_last_poke-some w p y = ap (λ (b : Bool). if b then last_reconciled w p else (p, true)) y

-- If a poke is still to be served and the reconciliation of the prewarmed containers fails, a shutdown
-- ends in a panic. Otherwise it ends, and every container that waits for deletion or is idle or, after
-- that reconciliation, prewarmed has been asked to be removed, unless its firewall cannot be; and it
-- reports no error exactly if all idle containers can be unpaused or are broken through the fault of
-- their users, and these and all prewarmed ones can be removed with their firewalls.
pub shutdown-Ends : (w : World) (p : Pool) → Ends w p (shutdown w p)
unfolding shutdown
shutdown-Ends w p = elim (Bool-cases p.prewarm_poke) [
  | inr n ↦
      rw (serve_last_poke-none w p n)
        (inr ((remove_containers w p).1, p, inl (n, refl), refl, remove_containers-Emptied w p))
  | inl y ↦ elim (Bool-cases (last_reconciled w p).1) [
    | inr n ↦ rw (serve_last_poke-some w p y, n) (inl (y, refl, refl))
    | inl done ↦
        rw (serve_last_poke-some w p y, done)
          (inr (
            (remove_containers w (last_reconciled w p).0).1,
            (last_reconciled w p).0,
            inr (y, refl, refl),
            refl,
            remove_containers-Emptied w (last_reconciled w p).0,
          ))
  ]
]
