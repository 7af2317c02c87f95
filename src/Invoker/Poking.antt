-- ===== src/Invoker/Poking.antt =====
-- How the events of the cluster reach the firewall (`firewallPoke` and the loop that reconciles, in
-- cmd/invoker/main.go): the handlers leave at most one poke in a channel, and the loop takes it.
use functions_invoker.Base.{
  ℕ, Fallible, Done, refl, ◌∙◌, arith, Bool, true, false, ◌||◌, List, [], ◌∷◌, ◌++◌, ◌≡◌, refl, ◌∙◌,
  ℕ, if◌then◌else◌, Fallible, Done,
}
use functions_invoker.Entities.{Text}
use functions_invoker.Firewall.Table.{Reconciler}
use functions_invoker.Firewall.Reconciling.{TableAnswers, Command, run_reconcile}
use functions_invoker.Firewall.Events.{DeepEqual, Event, notifies}
use functions_invoker.Firewall.Watching.{Cluster, listers, Happens, IsSound}
use functions_invoker.Firewall.Unchanged.{run_reconcile-unchanged}

-- The loop waits, or was woken and is yet to read the cluster.
pub data Phase : Type 0 where
  waiting woken : Phase

-- The cluster as the informers know it, the events that are yet to be handed to the handlers, whether
-- there is a poke in the channel, the loop, and the cluster that the last reconciliation read.
pub record Watch : Type 0 where
  pub cluster : Cluster
  pub undelivered : List Event
  pub is_poked : Bool
  pub phase : Phase
  pub reconciled : Cluster

-- `select { case firewallPoke <- struct{}{}: default: }` into a channel with room for one.
unfoldable pub poke : Bool → Bool
poke is_poked = true

-- A handler runs.
unfoldable pub handle : DeepEqual → Event → Bool → Bool
unfolding poke
handle e ev is_poked = if notifies e ev then poke is_poked else is_poked

-- What happens: an object changes, and the informers record it with an event; a handler is told of the
-- next event; the loop takes a poke, or its timer rings; the loop reads the cluster and reconciles.
pub data WatchStep (e : DeepEqual) : Watch → Watch → Type 0 where
  changes :
      (c d : Cluster) (ev : Event) (evs : List Event) (p : Bool) (ph : Phase) (r : Cluster)
      → Happens ev c d
      → WatchStep e
          (record { cluster = c; undelivered = evs; is_poked = p; phase = ph; reconciled = r })
          (record {
            cluster = d;
            undelivered = evs ++ ev ∷ [];
            is_poked = p;
            phase = ph;
            reconciled = r;
          })
  delivers :
      (c : Cluster) (ev : Event) (evs : List Event) (p : Bool) (ph : Phase) (r : Cluster)
      → WatchStep e
          (record { cluster = c; undelivered = ev ∷ evs; is_poked = p; phase = ph; reconciled = r })
          (record {
            cluster = c;
            undelivered = evs;
            is_poked = handle e ev p;
            phase = ph;
            reconciled = r;
          })
  takes_poke :
      (c : Cluster) (evs : List Event) (r : Cluster)
      → WatchStep e
          (record {
            cluster = c;
            undelivered = evs;
            is_poked = true;
            phase = waiting;
            reconciled = r;
          })
          (record {
            cluster = c;
            undelivered = evs;
            is_poked = false;
            phase = woken;
            reconciled = r;
          })
  ticks :
      (c : Cluster) (evs : List Event) (p : Bool) (r : Cluster)
      → WatchStep e
          (record { cluster = c; undelivered = evs; is_poked = p; phase = waiting; reconciled = r })
          (record { cluster = c; undelivered = evs; is_poked = p; phase = woken; reconciled = r })
  reconciles :
      (c : Cluster) (evs : List Event) (p : Bool) (r : Cluster)
      → WatchStep e
          (record { cluster = c; undelivered = evs; is_poked = p; phase = woken; reconciled = r })
          (record { cluster = c; undelivered = evs; is_poked = p; phase = waiting; reconciled = c })

-- What follows the first reconciliation, which the program forces before the loop starts.
pub data Watched (e : DeepEqual) : Watch → Type 0 where
  begins :
      (c : Cluster)
      → Watched e (record {
        cluster = c;
        undelivered = [];
        is_poked = false;
        phase = waiting;
        reconciled = c;
      })
  goes_on : (s t : Watch) → Watched e s → WatchStep e s t → Watched e t

-- An event is to be delivered that will poke.
unfoldable pub will_poke : DeepEqual → List Event → Bool
will_poke e [] = false
will_poke e (ev ∷ evs) = notifies e ev || will_poke e evs

-- No poke is waiting or will come from an event, and the loop waits.
abbrev pub IsQuiet : DeepEqual → Watch → Type 0
IsQuiet e s = (s.phase ≡ waiting) × (s.is_poked ≡ false) × (will_poke e s.undelivered ≡ false)

will_poke-append :
    (e : DeepEqual) (evs : List Event) (ev : Event)
    → will_poke e (evs ++ ev ∷ []) ≡ (will_poke e evs || notifies e ev)
unfolding will_poke
will_poke-append e [] ev = ground arith
will_poke-append e (x ∷ evs) ev = ground (arith, will_poke-append e evs ev)

module _ (decimal : ℕ → Text) (not_found : Text → Text → Text) (r : Reconciler) (w : TableAnswers)
    (e : DeepEqual) where
  -- The commands and the end of a reconciliation for a cluster.
  abbrev effect : Cluster → List Command × Fallible Done
  effect c = run_reconcile decimal r (listers not_found c) w

  step-effect :
      (s t : Watch)
      → IsSound e
      → (IsQuiet e s → effect s.reconciled ≡ effect s.cluster)
      → WatchStep e s t
      → IsQuiet e t
      → effect t.reconciled ≡ effect t.cluster
  unfolding handle will_poke
  step-effect _ _ sound before (changes c d ev evs p ph old happens) (wait, n, q) =
      let quiet : (will_poke e evs ≡ false) × (notifies e ev ≡ false) =
        ground (arith, will_poke-append e evs ev) in
      before (wait, n, quiet.0)
      ∙ run_reconcile-unchanged decimal not_found r w e ev c d sound happens quiet.1
  step-effect _ _ sound before (delivers c ev evs p ph old) (wait, n, q) =
      let quiet : (p ≡ false) × ((notifies e ev || will_poke e evs) ≡ false) =
        delivered (notifies e ev) p (will_poke e evs) n q in
      before (wait, quiet.0, quiet.1)
    where
      delivered :
          (told poked later : Bool)
          → (if told then true else poked) ≡ false
          → later ≡ false
          → (poked ≡ false) × ((told || later) ≡ false)
      delivered told poked later h l = ground arith
  step-effect _ _ sound before (takes_poke c evs old) (wait, n, q) = cc
  step-effect _ _ sound before (ticks c evs p old) (wait, n, q) = cc
  step-effect _ _ sound before (reconciles c evs p old) quiet = refl

  -- No change is lost: whenever the loop waits, no poke is in the channel, and no event that is yet to
  -- be delivered will poke, a reconciliation for the present cluster would run the same commands as the
  -- last one, and end in the same way, whatever the commands answer; if objects that `DeepEqual` calls
  -- equal are equal.
  pub Watched-effect :
      (s : Watch)
      → IsSound e
      → Watched e s
      → IsQuiet e s
      → run_reconcile decimal r (listers not_found s.reconciled) w
        ≡ run_reconcile decimal r (listers not_found s.cluster) w
  Watched-effect _ sound (begins c) quiet = refl
  Watched-effect _ sound (goes_on s t run step) quiet =
      step-effect s t sound (Watched-effect s sound run) step quiet
