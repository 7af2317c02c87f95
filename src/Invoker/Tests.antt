-- ===== src/Invoker/Tests.antt =====
-- The theorems of the main program at concrete inputs.
use functions_invoker.Base.{
  String, Fallible, ℕ, List, Bool, [], ◌∷◌, ◌+◌, ◌*◌, ◌≡◌, ◌≤◌, refl, codes, Option, none, map,
  true, false, length, fine,
}
use functions_invoker.Entities.{Text, ActivationMessage, Activation}
use functions_invoker.Firewall.Table.{Reconciler, Node}
use functions_invoker.Firewall.Exec.{ExecAnswers}
use functions_invoker.Firewall.Reconciling.{TableAnswers, run_reconcile}
use functions_invoker.Firewall.Events.{
  DeepEqual, Event, adds, node, notifies, add_func, is_relevant,
}
use functions_invoker.Firewall.Watching.{Cluster, listers, node_added}
use functions_invoker.Responses.{Quoting, KafkaRunner}
use functions_invoker.Runner.Whole.{invoke}
use functions_invoker.Runner.Examples.{late}
use functions_invoker.Invoker.Offsets.{
  steps, Worker, Offsets, elsewhere, at_load, at_swap, load, compare_and_swap, LoopStep, loads,
  swaps, Runs, starts, reads,
}
use functions_invoker.Invoker.Highest.{Runs-grows, Runs-highest}
use functions_invoker.Invoker.Swapping.{Loops, done, more, Loops-bound}
use functions_invoker.Invoker.Poking.{
  Watch, Watched, Phase, begins, goes_on, changes, delivers, takes_poke, reconciles, waiting, woken,
  poke, handle, will_poke, Watched-effect,
}
use functions_invoker.Invoker.Workers.{
  handle_message, Read, message, read_failed, cancelled, work, received, offsets_of, invoked_of,
  parsed, work-received, lag, usable_ips, addresses_from,
}
use functions_invoker.Invoker.Offsets.{next_offset}

-- Two workers read the messages 7 and 4; both load 0, the first stores 8, and the second fails to swap.
abbrev at : ℕ → List Worker → Offsets
at last workers = record { last = last; workers = workers }

both_read : Runs 2 (at 0 (at_load 8 ∷ at_load 5 ∷ [])) 8
both_read = reads (at_load 8 ∷ []) [] 0 8 4 (reads [] (elsewhere ∷ []) 0 0 7 starts)

race : Loops 4 (at 0 (at_load 8 ∷ at_load 5 ∷ [])) (at 8 (elsewhere ∷ at_load 5 ∷ []))
unfolding load compare_and_swap
race = more 3 _ (at 0 (at_swap 8 0 ∷ at_load 5 ∷ [])) _ (loads [] (at_load 5 ∷ []) 8 0) (
    more 2 _ (at 0 (at_swap 8 0 ∷ at_swap 5 0 ∷ [])) _ (loads (at_swap 8 0 ∷ []) [] 5 0) (
      more 1 _ (at 8 (elsewhere ∷ at_swap 5 0 ∷ [])) _ (swaps [] (at_swap 5 0 ∷ []) 8 0 0) (
        more 0 _ (at 8 (elsewhere ∷ at_load 5 ∷ [])) _ (swaps (elsewhere ∷ []) [] 5 0 8) (done _))))

Loops-bound_example : 4 ≤ 2 * (2 * 2 + 3)
Loops-bound_example =
    Loops-bound 2 4 (at 0 (at_load 8 ∷ at_load 5 ∷ [])) (at 8 (elsewhere ∷ at_load 5 ∷ [])) 8
      both_read race

first_load : LoopStep (at 0 (at_load 8 ∷ at_load 5 ∷ [])) (at 0 (at_swap 8 0 ∷ at_load 5 ∷ []))
unfolding load
first_load = loads [] (at_load 5 ∷ []) 8 0

Runs-grows_example : (0 ≤ 0) × (0 ≤ 8)
Runs-grows_example =
    Runs-grows 2 (at 0 (at_load 8 ∷ at_load 5 ∷ [])) (at 0 (at_swap 8 0 ∷ at_load 5 ∷ [])) 8
      both_read first_load

-- One worker reads the message 7, and leaves the loop.
settled : Runs 1 (at 8 (elsewhere ∷ [])) 8
unfolding load compare_and_swap
settled =
    steps (at 0 (at_swap 8 0 ∷ [])) _ 8
      (steps (at 0 (at_load 8 ∷ [])) _ 8 (reads [] [] 0 0 7 starts) (loads [] [] 8 0))
      (swaps [] [] 8 0 0)

Runs-highest_example : (at 8 (elsewhere ∷ [])).last ≡ 8
Runs-highest_example = Runs-highest 1 (at 8 (elsewhere ∷ [])) 8 settled (refl, tt)

abbrev unreadable : Text → Option ActivationMessage
unreadable value = none

abbrev stream : List Read
stream = message 7 (codes "{") ∷ read_failed ∷ message 4 (codes "}") ∷ cancelled ∷ []

stream-offsets : offsets_of (work unreadable stream) ≡ 8 ∷ 5 ∷ []
unfolding work handle_message offsets_of
stream-offsets = refl

work-received_example :
    (offsets_of (work unreadable stream) ≡ map (λ m. next_offset m.0) (received stream))
    × (invoked_of (work unreadable stream) ≡ parsed unreadable (received stream))
work-received_example = work-received unreadable stream

enough_ips : length (usable_ips (λ n. n ∷ [])) ≡ 253
unfolding usable_ips addresses_from
enough_ips = refl

not_behind : (lag 12 (fine 9) ≡ 0) × (lag 9 (fine 12) ≡ 3)
unfolding lag
not_behind = (refl, refl)

-- A comparison that always finds a difference, and a cluster with nothing in it.
abbrev always_different : DeepEqual
always_different = record { same_addresses = λ a b. false; same_subsets = λ a b. false }

abbrev nothing : Cluster
nothing = record { nodes = []; services = []; all_endpoints = [] }

abbrev a_node : Node
a_node = record { name = codes "a"; addresses = []; others = [] }

abbrev one_node : Cluster
one_node = record { nodes = a_node ∷ []; services = []; all_endpoints = [] }

abbrev watch : Cluster → List Event → Bool → Phase → Cluster → Watch
watch c evs p ph old = record {
  cluster = c;
  undelivered = evs;
  is_poked = p;
  phase = ph;
  reconciled = old;
}

abbrev joining : Event
joining = adds (node a_node) false

-- A node joins, its event is delivered, and the loop reconciles.
joined : Watched always_different (watch one_node [] false waiting one_node)
unfolding handle poke notifies add_func is_relevant
joined =
    goes_on (watch one_node [] false woken nothing) _
      (goes_on (watch one_node [] true waiting nothing) _
        (goes_on (watch one_node (joining ∷ []) false waiting nothing) _
          (goes_on (watch nothing [] false waiting nothing) _ (begins nothing) (
            changes nothing one_node joining [] false waiting nothing
              (node_added [] [] a_node [] [])))
          (delivers one_node joining [] false waiting nothing))
        (takes_poke one_node [] nothing))
      (reconciles one_node [] false nothing)

abbrev ok : ExecAnswers
ok = record {
  created = fine tt;
  attached = fine tt;
  written = fine tt;
  closed = fine tt;
  copied = fine tt;
  stdout = codes "*filter\nCOMMIT\n";
  stderr = [];
  inspected = fine 0;
}

abbrev answers : TableAnswers
answers = record { saving = ok; restoring = ok }

abbrev bridge : Reconciler
bridge = record { container_subnet = codes "172.18.0.0/16"; container_bridge = codes "functions" }

Watched-effect_example :
    run_reconcile (λ n. n ∷ []) bridge (listers (λ namespace name. name) one_node) answers
    ≡ run_reconcile (λ n. n ∷ []) bridge (listers (λ namespace name. name) one_node) answers
Watched-effect_example =
    Watched-effect (λ n. n ∷ []) (λ namespace name. name) bridge answers always_different
      (watch one_node [] false waiting one_node) (λ a b h. cc, λ a b h. cc) joined
      (refl, refl, unfold will_poke in refl)

abbrev quoting : Quoting
quoting = record { quote = λ s. codes s; number = λ n. codes "1" }

abbrev runner : KafkaRunner
runner = record { instance_id = 1; blocked_namespaces = "spam" ∷ [] }

abbrev run : ActivationMessage → Activation
run m = (invoke late m).0

-- The rows have one key.
abbrev rows : Text → Fallible (List String)
rows bytes = fine ("guest" ∷ [])
