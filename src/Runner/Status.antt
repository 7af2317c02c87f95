-- ===== src/Runner/Status.antt =====
-- The status and the response of an activation (`Invoke` of pkg/runner/runner.go).
use functions_invoker.Base.{
  ◌&&◌, some, none, refl, inl, inr, Bool-cases, not, ◌||◌, str_eq, if◌then◌else◌, true, Bool, false,
  ◌≡◌, ◌≢◌, ◌⊎◌, Option, [], ◌∷◌, arith,
}
use functions_invoker.Container.{ContainerState, status_exited}
use functions_invoker.Runner.Whole.{
  get_failed, use_container, with_logs, with_function, fetch, invoke,
}
use functions_invoker.Pool.State.{Outcome, got, failed, GetError, broken_during_reuse}
use functions_invoker.Entities.{
  Function, ActivationMessage, is_empty, Text, StatusCode, success, application_error,
  developer_error, system_error, Activation,
}
use functions_invoker.Messages.{
  function_init_timeout, function_timeout, function_invalid_run_response,
  function_truncated_response,
}
use functions_invoker.Runner.Logs.{parse_error_from_response}
use functions_invoker.Runner.Invoke.{
  deadline_exceeded, other, not_found, fetch_failed, new_activation, found, init_timeout,
  limit_exceeded, continues, returned, Fetched, Phase, cause_of_state, init_phase, run_phase,
  Answers, RequestError, fail, classify, finish_run,
}

abbrev pub IsNonempty : Text → Type 0
IsNonempty [] = ⊥
IsNonempty (x ∷ xs) = Unit

-- A success has no error text; errors of the developer and the system have an error
-- text and no result; an application error has one of the two.
abbrev pub Proper : StatusCode → Text → Text → Type 0
Proper success result error = error ≡ []
Proper application_error result error = (result ≡ []) × IsNonempty error ⊎ (error ≡ [])
Proper developer_error result error = (result ≡ []) × IsNonempty error
Proper system_error result error = (result ≡ []) × IsNonempty error

abbrev pub IsProper : Activation → Type 0
IsProper a = Proper a.response.status_code a.response.result a.response.error

-- On its way an activation has neither.
abbrev IsBlank : Activation → Type 0
IsBlank a = (a.response.result ≡ []) × (a.response.error ≡ [])

-- The response of an activation that ended in a developer's or an application's error, or well.
abbrev IsUserEnd : Activation → Type 0
IsUserEnd a = IsProper a × (a.response.status_code ≢ system_error)

classify-IsUserEnd :
    (w : Answers) (s : Option ContainerState) (e : RequestError) (r t g : Text) (a : Activation)
    → a.response.result ≡ []
    → IsNonempty t
    → IsNonempty g
    → IsUserEnd (classify w s e r t g a)
unfolding classify fail parse_error_from_response
classify-IsUserEnd w s e r t g a h ht hg = ground arith

finish_run-IsUserEnd :
    (w : Answers) (r : Text) (a : Activation) → IsBlank a → IsUserEnd (finish_run w r a)
unfolding finish_run fail function_invalid_run_response
finish_run-IsUserEnd w r a h = ground arith

cause_of_state-IsNonempty :
    (s : Option ContainerState) (t : Text) → cause_of_state s ≡ some t → IsNonempty t
cause_of_state-IsNonempty s t e = ground arith

get_failed-IsProper :
    (e : GetError) (a : Activation) → a.response.result ≡ [] → IsProper (get_failed e a)
unfolding get_failed fail
get_failed-IsProper e a h = ground arith

-- The end of an initialization, or an activation that is blank still.
abbrev InitEnd : Phase → Type 0
InitEnd (returned a broken) = IsUserEnd a
InitEnd (continues a) = IsBlank a

init_phase-InitEnd :
    (w : Answers) (fn : Function) (a : Activation) → IsBlank a → InitEnd (init_phase w fn a)
unfolding init_phase
init_phase-InitEnd w fn a h = go w.init_reply.error refl
  where
    timed_out : IsNonempty (function_init_timeout w.printing (init_timeout fn))
    timed_out = unfold function_init_timeout in tt

    go : (o : Option RequestError) → w.init_reply.error ≡ o → InitEnd (init_phase w fn a)
    go none e = rw (e, init_phase) h
    go (some (limit_exceeded n)) e =
        rw (e, init_phase) (unfold fail function_truncated_response in ((h.0, tt), (λ q. cc)))
    go (some deadline_exceeded) e =
        rw (e, init_phase)
          (classify-IsUserEnd w w.init_state deadline_exceeded _ _ _ _ h.0 timed_out tt)
    go (some other) e =
        rw (e, init_phase) (classify-IsUserEnd w w.init_state other _ _ _ _ h.0 timed_out tt)

run_phase-IsUserEnd :
    (w : Answers) (fn : Function) (a : Activation) → IsBlank a → IsUserEnd (run_phase w fn a).0
unfolding run_phase
run_phase-IsUserEnd w fn a h = go w.run_reply.error refl
  where
    timed_out : IsNonempty (function_timeout w.printing fn.limits.timeout)
    timed_out = unfold function_timeout in tt

    go : (o : Option RequestError) → w.run_reply.error ≡ o → IsUserEnd (run_phase w fn a).0
    go none e = rw (e, run_phase) (finish_run-IsUserEnd w _ _ h)
    go (some (limit_exceeded n)) e =
        rw (e, run_phase) (unfold fail function_truncated_response in (inl (h.0, tt), (λ q. cc)))
    go (some deadline_exceeded) e =
        rw (e, run_phase)
          (classify-IsUserEnd w w.run_state deadline_exceeded _ _ _ _ h.0 timed_out tt)
    go (some other) e =
        rw (e, run_phase) (classify-IsUserEnd w w.run_state other _ _ _ _ h.0 timed_out tt)

use_container-IsUserEnd :
    (w : Answers) (m : ActivationMessage) (fn : Function) (reused : Bool) (a : Activation)
    → IsBlank a
    → IsUserEnd (use_container w m fn reused a).0
unfolding use_container
use_container-IsUserEnd w m fn true a h = run_phase-IsUserEnd w fn a h
use_container-IsUserEnd w m fn false a h = go (init_phase w fn a) refl (init_phase-InitEnd w fn a h)
  where
    go :
        (r : Phase) → init_phase w fn a ≡ r → InitEnd r → IsUserEnd (use_container w m fn false a).0
    go (returned b broken) e i = rw (e, use_container) i
    go (continues b) e i = rw (e, use_container) (run_phase-IsUserEnd w fn b i)

with_logs-response :
    (w : Answers) (fn : Function) (a : Activation) (broken : Bool)
    → (with_logs w fn a broken).0.response ≡ a.response
unfolding with_logs
with_logs-response w fn a broken = elim (Bool-cases w.log_timeout) [ inl t ↦ rw t | inr f ↦ rw f ]

-- The system is at fault if the function could not be fetched, unless it is gone, or if no
-- container could be provided, unless the user broke the one at hand.
abbrev pub broken_by_user : GetError → Bool
broken_by_user (broken_during_reuse s) = s.oom_killed || str_eq s.status status_exited
broken_by_user e = false

abbrev pub provision_fault : Outcome → Bool
provision_fault (got c reused) = false
provision_fault (failed e) = not (broken_by_user e)

abbrev pub system_fault : Fetched → Outcome → Bool
system_fault not_found o = false
system_fault fetch_failed o = true
system_fault (found fn) o = provision_fault o

abbrev pub is_system_error : StatusCode → Bool
is_system_error system_error = true
is_system_error success = false
is_system_error application_error = false
is_system_error developer_error = false

not-system : (s : StatusCode) → s ≢ system_error → is_system_error s ≡ false
not-system system_error h = absurd (h refl)
not-system success h = refl
not-system application_error h = refl
not-system developer_error h = refl

get_failed-system :
    (e : GetError) (a : Activation)
    → is_system_error (get_failed e a).response.status_code ≡ not (broken_by_user e)
unfolding get_failed fail
get_failed-system e a = ground arith

-- The response of the whole, and whether it is a system error.
abbrev pub Judged : Fetched → Outcome → Activation → Type 0
Judged f o a = IsProper a × (is_system_error a.response.status_code ≡ system_fault f o)

with_function-Judged :
    (w : Answers) (m : ActivationMessage) (fn : Function) (a : Activation)
    → IsBlank a
    → Judged (found fn) w.outcome (with_function w m fn a).0
unfolding with_function
with_function-Judged w m fn a h = go w.outcome refl
  where
    judged :
        (reused : Bool) (b : Activation)
        → IsBlank b
        → IsProper
            (with_logs w fn (use_container w m fn reused b).0 (use_container w m fn reused b).1).0
          × (is_system_error
                (with_logs w fn
                  (use_container w m fn reused b).0
                  (use_container w m fn reused b).1).0.response.status_code
              ≡ false)
    judged reused b k =
        let u = use_container-IsUserEnd w m fn reused b k in
        rw
          (with_logs-response w fn (use_container w m fn reused b).0
            (use_container w m fn reused b).1)
          (u.0, not-system _ u.1)

    asked : Activation
    asked = record a {
      function = record (a.function) {
        entrypoint = if is_empty fn.exec.main then "main" else fn.exec.main;
        kind = fn.exec.kind;
        limits = fn.limits;
      };
    }

    go : (o : Outcome) → w.outcome ≡ o → Judged (found fn) o (with_function w m fn a).0
    go (failed e) q = rw (q, with_function) (get_failed-IsProper e _ h.0, get_failed-system e _)
    go (got c reused) q = elim (Bool-cases (is_empty m.caused_by)) [
      | inl y ↦
          rw (q, with_function, y) (judged reused (record asked { wait_time = w.wait_time }) h)
      | inr n ↦ rw (q, with_function, n) (judged reused asked h)
    ]

fetch-Judged :
    (w : Answers) (m : ActivationMessage) (a : Activation)
    → IsBlank a
    → Judged w.fetched w.outcome (fetch w m a).0
unfolding fetch fail
fetch-Judged w m a h = go w.fetched refl
  where
    go : (o : Fetched) → w.fetched ≡ o → Judged o w.outcome (fetch w m a).0
    go not_found q = rw (q, fetch) (inl (h.0, tt), refl)
    go fetch_failed q = rw (q, fetch) ((h.0, tt), refl)
    go (found fn) q = rw (q, fetch) (with_function-Judged w m fn a h)

-- Whatever the container, its runtime, the pool and the function store do, a success carries no
-- error text, an error of the developer or the system carries an error text and no result, and an
-- application error one of the two forms; and the activation is a system error exactly if the store
-- failed (a missing function is no failure), or if the pool gave no container (unless that is due
-- to a container that its user broke).
pub invoke-Judged :
    (w : Answers) (m : ActivationMessage) → Judged w.fetched w.outcome (invoke w m).0
unfolding invoke
invoke-Judged w m =
    elim (Bool-cases (not m.is_blocking && m.invocation_identity.store_activations)) [
      | inl y ↦ rw y start
      | inr n ↦ rw n start
    ]
  where
    start : Judged w.fetched w.outcome (fetch w m (new_activation m w.now)).0
    start = unfold new_activation in fetch-Judged w m (new_activation m w.now) (refl, refl)
