-- ===== src/Runner/Giving.antt =====
-- What an invocation asks of the rest of the system: what it does with its container, what it runs,
-- and what it writes (pkg/runner/runner.go).
use mathlib.Core.List.{append-nil}
use functions_invoker.Base.{
  inr, inl, Bool-cases, ◌&&◌, ap, not, map, ◌≡◌, refl, Bool, true, false, ◌||◌, Option, some, none,
  List, [], ◌∷◌, ◌++◌, if◌then◌else◌, arith,
}
use functions_invoker.Pool.State.{Outcome, got, failed}
use functions_invoker.Entities.{is_empty, Function, Activation, ActivationMessage}
use functions_invoker.Runner.Invoke.{
  new_activation, Answers, Fetched, found, not_found, fetch_failed, Phase, RequestError,
  limit_exceeded, deadline_exceeded, other, Effect, gets_container, puts, puts_to_destroy,
  initializes, runs, writes, returned, continues, init_phase, run_phase,
}
use functions_invoker.Runner.Whole.{fetch, invoke, with_logs, with_function, use_container}

pub data Kind : Type 0 where
  acquired initialized ran released destroyed : Kind
  wrote : Activation → Kind

unfoldable pub kind_of : Effect → Kind
kind_of gets_container = acquired
kind_of puts = released
kind_of puts_to_destroy = destroyed
kind_of (initializes payload) = initialized
kind_of (runs payload) = ran
kind_of (writes a) = wrote a

abbrev pub kinds : List Effect → List Kind
kinds es = map kind_of es

-- A request that failed, and a failure after which the container is not used again: an exceeded
-- response limit of a run is none.
abbrev pub has_failed : Option RequestError → Bool
has_failed none = false
has_failed (some e) = true

abbrev pub breaks_run : Option RequestError → Bool
breaks_run none = false
breaks_run (some (limit_exceeded n)) = false
breaks_run (some deadline_exceeded) = true
breaks_run (some other) = true

-- What an invocation does with a container, independently of the activation.
abbrev pub use_kinds : Answers → Bool → List Kind
use_kinds w true = ran ∷ []
use_kinds w false =
    if has_failed w.init_reply.error then initialized ∷ [] else initialized ∷ ran ∷ []

abbrev pub breaks : Answers → Bool → Bool
breaks w true = breaks_run w.run_reply.error
breaks w false = has_failed w.init_reply.error || breaks_run w.run_reply.error

abbrev pub end_kind : Bool → Kind
end_kind destroy = if destroy then destroyed else released

abbrev pub outcome_kinds : Answers → Outcome → List Kind
outcome_kinds w (failed e) = acquired ∷ []
outcome_kinds w (got c reused) =
    acquired ∷ (use_kinds w reused ++ end_kind (w.log_timeout || breaks w reused) ∷ [])

abbrev pub fetched_kinds : Answers → Fetched → List Kind
fetched_kinds w not_found = []
fetched_kinds w fetch_failed = []
fetched_kinds w (found fn) = outcome_kinds w w.outcome

run_phase-breaks :
    (w : Answers) (fn : Function) (a : Activation)
    → (run_phase w fn a).1 ≡ breaks_run w.run_reply.error
unfolding run_phase
run_phase-breaks w fn a = ground arith

-- The end of an initialization is a failure, and breaks the container.
abbrev AsInit : Option RequestError → Phase → Type 0
AsInit o (returned a broken) = (has_failed o ≡ true) × (broken ≡ true)
AsInit o (continues a) = has_failed o ≡ false

init_phase-AsInit :
    (w : Answers) (fn : Function) (a : Activation) → AsInit w.init_reply.error (init_phase w fn a)
unfolding init_phase
init_phase-AsInit w fn a = go w.init_reply.error refl
  where
    go : (o : Option RequestError) → w.init_reply.error ≡ o → AsInit o (init_phase w fn a)
    go none e = rw (e, init_phase) refl
    go (some x) e = rw (e, init_phase) (refl, refl)

use_container-kinds :
    (w : Answers) (m : ActivationMessage) (fn : Function) (reused : Bool) (a : Activation)
    → (kinds (use_container w m fn reused a).2 ≡ use_kinds w reused)
      × ((use_container w m fn reused a).1 ≡ breaks w reused)
unfolding use_container kind_of
use_container-kinds w m fn true a = (refl, run_phase-breaks w fn a)
use_container-kinds w m fn false a = go (init_phase w fn a) refl (init_phase-AsInit w fn a)
  where
    go :
        (r : Phase)
        → init_phase w fn a ≡ r
        → AsInit w.init_reply.error r
        → (kinds (use_container w m fn false a).2 ≡ use_kinds w false)
          × ((use_container w m fn false a).1 ≡ breaks w false)
    go (returned b broken) e i = rw (e, use_container, i.0, i.1) (refl, refl)
    go (continues b) e i = rw (e, use_container, i) (refl, run_phase-breaks w fn b)

kinds-append : (es fs : List Effect) → kinds (es ++ fs) ≡ kinds es ++ kinds fs
kinds-append [] fs = refl
kinds-append (e ∷ es) fs = ap (λ (ks : List Kind). kind_of e ∷ ks) (kinds-append es fs)

kind_of_end :
    (destroy : Bool) → kind_of (if destroy then puts_to_destroy else puts) ≡ end_kind destroy
unfolding kind_of
kind_of_end true = refl
kind_of_end false = refl

with_logs-destroys :
    (w : Answers) (fn : Function) (a : Activation) (broken : Bool)
    → (with_logs w fn a broken).1 ≡ (w.log_timeout || broken)
unfolding with_logs
with_logs-destroys w fn a broken = ground arith

with_function-kinds :
    (w : Answers) (m : ActivationMessage) (fn : Function) (a : Activation)
    → kinds (with_function w m fn a).1 ≡ outcome_kinds w w.outcome
unfolding with_function kind_of with_logs
with_function-kinds w m fn a = go w.outcome refl
  where
    destroys : (reused : Bool) (b : Activation) → Bool
    destroys reused b =
        (with_logs w fn (use_container w m fn reused b).0 (use_container w m fn reused b).1).1

    used :
        (reused : Bool) (b : Activation)
        → kinds (
            (use_container w m fn reused b).2
            ++ (if destroys reused b then puts_to_destroy else puts) ∷ [])
          ≡ use_kinds w reused ++ end_kind (w.log_timeout || breaks w reused) ∷ []
    used reused b =
        let u = use_container-kinds w m fn reused b in
        rw
          (
            kinds-append (use_container w m fn reused b).2
                ((if destroys reused b then puts_to_destroy else puts) ∷ []),
            u.0,
            kind_of_end (destroys reused b),
          )
          (rw
            (
              with_logs-destroys w fn (use_container w m fn reused b).0
                  (use_container w m fn reused b).1,
              u.1,
            )
            refl)

    asked : Activation
    asked = record a {
      function = record (a.function) {
        entrypoint = if is_empty fn.exec.main then "main" else fn.exec.main;
        kind = fn.exec.kind;
        limits = fn.limits;
      };
    }

    go : (o : Outcome) → w.outcome ≡ o → kinds (with_function w m fn a).1 ≡ outcome_kinds w o
    go (failed e) q = rw (q, with_function) refl
    go (got c reused) q = elim (Bool-cases (is_empty m.caused_by)) [
      | inl y ↦
          rw (q, with_function, y)
            (ap (λ (ks : List Kind). acquired ∷ ks)
              (used reused (record asked { wait_time = w.wait_time })))
      | inr n ↦
          rw (q, with_function, n) (ap (λ (ks : List Kind). acquired ∷ ks) (used reused asked))
    ]

fetch-kinds :
    (w : Answers) (m : ActivationMessage) (a : Activation)
    → kinds (fetch w m a).1 ≡ fetched_kinds w w.fetched
unfolding fetch
fetch-kinds w m a = go w.fetched refl
  where
    go : (o : Fetched) → w.fetched ≡ o → kinds (fetch w m a).1 ≡ fetched_kinds w o
    go not_found q = rw (q, fetch) refl
    go fetch_failed q = rw (q, fetch) refl
    go (found fn) q = rw (q, fetch) (with_function-kinds w m fn a)

abbrev stores : ActivationMessage → Bool
stores m = not m.is_blocking && m.invocation_identity.store_activations

-- What an invocation asks for, in this order. Nothing, if the function could not be fetched; else a
-- container. A container that comes is initialized unless it has run the function before, and runs
-- the function unless its initialization failed; then it is given back, exactly once: to be
-- destroyed if its logs were not complete in time, if its initialization failed in any way, or if
-- the run failed otherwise than by exceeding the response limit; to be used again in all other
-- cases. At the end the very activation that is returned is written, exactly if the invocation does
-- not block and the user's activations are stored.
pub invoke-kinds :
    (w : Answers) (m : ActivationMessage)
    → kinds (invoke w m).1
      ≡ fetched_kinds w w.fetched ++ (if stores m then wrote (invoke w m).0 ∷ [] else [])
unfolding invoke
invoke-kinds w m = elim (Bool-cases (stores m)) [
  | inl y ↦
      rw (y, kinds-append fetched.1 (writes fetched.0 ∷ []), got_kinds) (unfold kind_of in refl)
  | inr n ↦ rw (n, got_kinds, append-nil (fetched_kinds w w.fetched)) refl
]
  where
    fetched : Activation × List Effect
    fetched = fetch w m (new_activation m w.now)

    got_kinds : kinds fetched.1 ≡ fetched_kinds w w.fetched
    got_kinds = fetch-kinds w m (new_activation m w.now)
