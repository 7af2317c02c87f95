-- ===== src/Pool/Reap.antt =====
-- Removing containers in the background (`reap` and the deleting goroutine of `NewContainerPool` of
-- pkg/exec/pool.go).
use functions_invoker.Base.{
  ℕ, Bool, true, false, ◌&&◌, List, [], ◌∷◌, ◌++◌, sub64, ltb, if◌then◌else◌,
}
use functions_invoker.Container.{
  PooledContainer, World, Call, unpauses, remove_pooled, cleanup_container, is_broken_by_user,
}
use functions_invoker.Pool.State.{Pool, Idles, lock, unlock, record_calls}

-- The prefix to delete and the rest: the first container used after `older_than` is the cutoff.
unfoldable pub cutoff : ℕ → List PooledContainer → List PooledContainer × List PooledContainer
cutoff older_than [] = ([], [])
cutoff older_than (c ∷ cs) =
    let rest = cutoff older_than cs in
    if ltb older_than c.last_used then ([], c ∷ cs) else (c ∷ rest.0, rest.1)

unfoldable pub sub_memory : ℕ → List PooledContainer → ℕ
sub_memory total [] = total
sub_memory total (c ∷ cs) = sub_memory (sub64 total c.memory) cs

-- The entries that stay, the containers to delete, and the memory that is left.
pub record Reaped : Type 0 where
  pub kept : Idles
  pub deleted : List PooledContainer
  pub memory : ℕ

unfoldable pub reap_map : ℕ → ℕ → Idles → Reaped
reap_map older_than memory [] = record { kept = []; deleted = []; memory = memory }
reap_map older_than memory ((k, cs) ∷ m) =
    let (old, young) = cutoff older_than cs in
    let rest = reap_map older_than (sub_memory memory old) m in
    elim young [
      | [] ↦ record rest { deleted = old ++ rest.deleted }
      | y ∷ ys ↦ record rest { kept = (k, y ∷ ys) ∷ rest.kept; deleted = old ++ rest.deleted }
    ]

-- Unpause and remove, or clean up a container that does not unpause through no fault of its user.
unfoldable pub dispose : World → PooledContainer → List Call × Bool
dispose w c =
    if w.unpause c.handle
    then ((remove_pooled w c).0 ++ unpauses c.handle ∷ [], (remove_pooled w c).1)
    else (if is_broken_by_user w c.handle
        then ((remove_pooled w c).0 ++ unpauses c.handle ∷ [], (remove_pooled w c).1)
        else (cleanup_container w c ++ unpauses c.handle ∷ [], false))

-- The calls, newest first, and whether no error occurred.
unfoldable pub dispose_all : World → List PooledContainer → List Call × Bool
dispose_all w [] = ([], true)
dispose_all w (c ∷ cs) =
    let rest = dispose_all w cs in (rest.0 ++ (dispose w c).0, (dispose w c).1 && rest.1)

unfoldable pub reap : World → ℕ → Pool → Pool × Bool
reap w older_than p =
    let locked = lock p in
    let r = reap_map older_than locked.idles_memory locked.idles in
    let done = dispose_all w r.deleted in
    (
      record_calls done.0 (unlock (record locked { idles = r.kept; idles_memory = r.memory })),
      done.1,
    )

-- One round over everything that waits for deletion.
unfoldable pub delete_for_space : World → Pool → Pool
delete_for_space w p = record_calls (dispose_all w p.to_delete).0 (record p { to_delete = [] })

-- The idle containers of all keys.
unfoldable pub all_idle : Idles → List PooledContainer
all_idle [] = []
all_idle ((k, cs) ∷ m) = cs ++ all_idle m
