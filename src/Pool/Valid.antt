-- ===== src/Pool/Valid.antt =====
-- The invariant of the pool between calls, and what a `Get` owes its caller (pkg/exec/pool.go).
use functions_invoker.Base.{ℕ, ◌+◌, ◌≤◌, ◌≡◌, ◌≢◌, Bool, false, List, All, Entries}
use functions_invoker.Container.{
  PooledContainer, WarmContainerKey, PrewarmContainerKey, World, Call,
}
use functions_invoker.Pool.State.{Pool, Prewarmed, Outcome, got, failed, no_space}
use functions_invoker.Pool.Books.{Books}

-- A prewarmed container has the size of its list and no firewall.
pub record Stocked (pk : PrewarmContainerKey) (c : PooledContainer) : Type 0 where
  pub size : c.memory ≡ pk.memory
  pub bare : c.firewall_cleanup ≡ false

abbrev pub Stock : Prewarmed → Type 0
Stock = Entries (λ pk. All (Stocked pk))

pub record IsValid (sizes : WarmContainerKey → ℕ) (now : ℕ) (p : Pool) : Type 0 where
  pub books : Books sizes now p
  pub within : p.idles_memory + p.in_flight ≤ p.max_memory
  pub unlocked : p.idles_locked ≡ false
  pub stock : Stock p.prewarmed

-- What a container is promised to be when it is handed out for `key`.
pub record Suits (w : World) (key : WarmContainerKey) (memory : ℕ) (c : PooledContainer)
    : Type 0 where
  pub key_ok : c.initialized_for ≡ key
  pub size_ok : c.memory ≡ memory
  pub firewall_ok : c.firewall_cleanup ≡ w.needs_firewall key.invocation_namespace

-- Either such a container, or an error that is not the defensive one.
abbrev pub Served : World → WarmContainerKey → ℕ → Outcome → Type 0
Served w key memory (got c reused) = Suits w key memory c
Served w key memory (failed e) = e ≢ no_space

module _ (sizes : WarmContainerKey → ℕ) (now : ℕ) where
  -- The books do not speak of the other fields.
  pub Books-other :
      (p : Pool) (created : ℕ) (locked : Bool) (stock : Prewarmed) (poke : Bool)
      (out : List PooledContainer) (calls : List Call)
      → Books sizes now p
      → Books sizes now (record p {
        containers_created = created;
        idles_locked = locked;
        prewarmed = stock;
        prewarm_poke = poke;
        to_delete = out;
        calls = calls;
      })
  Books-other p created locked stock poke out calls b = record {
    accounted = b.accounted;
    agreed = b.agreed;
    small = b.small;
    admitted = b.admitted;
    idle_within = b.idle_within;
    distinct = b.distinct;
    entries = b.entries;
  }

  -- Nor does the invariant speak of the poke, the waiting deletions and the calls.
  pub IsValid-other :
      (p : Pool) (poke : Bool) (out : List PooledContainer) (calls : List Call)
      → IsValid sizes now p
      → IsValid sizes now (record p { prewarm_poke = poke; to_delete = out; calls = calls })
  IsValid-other p poke out calls v = record {
    books = Books-other p _ _ _ _ _ _ v.books;
    within = v.within;
    unlocked = v.unlocked;
    stock = v.stock;
  }
