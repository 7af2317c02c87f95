-- ===== src/Container.antt =====
-- The containers that the pool manages (pkg/exec/container.go, and the wrapper PooledContainer of
-- pkg/exec/pool.go). What Docker, the firewall and the container runtime answer is the argument
-- `World` of each operation: one answer for each container in the course of that operation.
use functions_invoker.Base.{
  ℕ, String, Bool, true, false, ◌&&◌, ◌||◌, Option, none, some, List, [], ◌∷◌, if◌then◌else◌, Eq,
  str_eq, str_eq_iff, ◌≡◌, ◌↔◌, arith,
}

-- The part of the state that the invoker tests. The exit code, the error text and the two time
-- stamps are only printed.
pub record ContainerState : Type 0 where
  pub status : String
  pub running : Bool
  pub paused : Bool
  pub oom_killed : Bool
  pub dead : Bool

abbrev pub status_exited : String
status_exited = "exited"

pub record ActivationMessageFunction : Type 0 where
  pub namespace : String
  pub name : String
  pub version : String
  pub revision : String
  pub binding : String

pub record WarmContainerKey : Type 0 where
  pub invocation_namespace : String
  pub function : ActivationMessageFunction

pub record PrewarmContainerKey : Type 0 where
  pub kind : String
  pub memory : ℕ

-- `handle` stands for the container behind the wrapper; times are nanoseconds. The cleanup
-- function of the firewall is either there or nil.
pub record PooledContainer : Type 0 where
  pub handle : ℕ
  pub initialized_for : WarmContainerKey
  pub last_used : ℕ
  pub memory : ℕ
  pub firewall_cleanup : Bool

-- The name that a new container gets: the counter with the namespace and the function, or with
-- the kind of a prewarmed one.
pub data ContainerName : Type 0 where
  specific : ℕ → String → String → ContainerName
  prewarm : ℕ → String → ContainerName

pub record World : Type 0 where
  pub unpause : ℕ → Bool
  pub state : ℕ → Option ContainerState
  pub remove : ℕ → Bool
  pub needs_firewall : String → Bool
  pub setup_firewall : ℕ → String → Bool
  pub cleanup_firewall : ℕ → Bool
  pub create : String → ℕ → ContainerName → Option ℕ

-- What the pool asked of its containers.
pub data Call : Type 0 where
  unpauses removes sets_up_firewall cleans_up_firewall pauses_eventually : ℕ → Call
  creates : ContainerName → Call

-- `PooledContainer.Remove`: the calls, newest first, and whether it succeeded. A firewall that
-- cannot be removed keeps the container.
unfoldable pub remove_pooled : World → PooledContainer → List Call × Bool
remove_pooled w c =
    if c.firewall_cleanup
    then (if w.cleanup_firewall c.handle
        then (removes c.handle ∷ cleans_up_firewall c.handle ∷ [], w.remove c.handle)
        else (cleans_up_firewall c.handle ∷ [], false))
    else (removes c.handle ∷ [], w.remove c.handle)

-- `CleanupContainer` always ends in an error; what is left are the calls of `Remove`.
unfoldable pub cleanup_container : World → PooledContainer → List Call
cleanup_container w c = (remove_pooled w c).0

unfoldable pub is_broken_by_user : World → ℕ → Bool
is_broken_by_user w h = elim (w.state h) [
  | none ↦ false
  | some s ↦ s.oom_killed || str_eq s.status status_exited
]

-- The keys are compared field by field, as Go compares structs.
abbrev pub function_eq : ActivationMessageFunction → ActivationMessageFunction → Bool
function_eq f g =
    str_eq f.namespace g.namespace
    && (str_eq f.name g.name
        && (str_eq f.version g.version
            && (str_eq f.revision g.revision && str_eq f.binding g.binding)))

abbrev pub warm_eq : WarmContainerKey → WarmContainerKey → Bool
warm_eq k l =
    str_eq k.invocation_namespace l.invocation_namespace && function_eq k.function l.function

pub function_eq_iff : (f g : ActivationMessageFunction) → (function_eq f g ≡ true) ↔ (f ≡ g)
function_eq_iff f g = ground (
  arith,
  str_eq_iff f.namespace g.namespace,
  str_eq_iff f.name g.name,
  str_eq_iff f.version g.version,
  str_eq_iff f.revision g.revision,
  str_eq_iff f.binding g.binding,
)

pub warm_eq_iff : (k l : WarmContainerKey) → (warm_eq k l ≡ true) ↔ (k ≡ l)
warm_eq_iff k l = ground (
  arith,
  str_eq_iff k.invocation_namespace l.invocation_namespace,
  function_eq_iff k.function l.function,
)

instance abbrev pub warm_key_eq : Eq WarmContainerKey
warm_key_eq = record { beq = warm_eq; beq_iff = warm_eq_iff }
