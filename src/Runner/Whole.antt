-- ===== src/Runner/Whole.antt =====
-- `Invoke` put together: the order of its phases and of its deferred functions
-- (pkg/runner/runner.go).
use functions_invoker.Base.{
  String, none, some, ℕ, ◌+◌, Bool, true, not, ◌&&◌, List, [], ◌∷◌, ◌++◌, codes, if◌then◌else◌,
}
use functions_invoker.Pool.State.{got, failed, GetError, broken_during_reuse}
use functions_invoker.Entities.{
  Text, is_empty, is_truthy, Function, application_error, system_error, developer_error, Activation,
  ActivationMessage,
}
use functions_invoker.Messages.{
  function_fetch, function_not_found, function_provision, function_log_collection,
}
use functions_invoker.Runner.Logs.{stderr, format_log, punctuate, collect_logs}
use functions_invoker.Runner.Invoke.{
  Answers, found, not_found, fetch_failed, InvocationEnvironment, ContainerInitPayload,
  ContainerRunPayload, Effect, gets_container, puts, puts_to_destroy, initializes, runs, writes,
  qualified_name, new_activation, fail, cause_of_state, returned, continues, init_phase,
  init_timeout, run_phase,
}

-- The environment of a call; the API key is left out if an annotation says so.
unfoldable pub environment : ActivationMessage → Function → ℕ → InvocationEnvironment
environment m fn deadline = record {
  activation_id = m.activation_id;
  transaction_id = m.transaction_id;
  namespace = m.invocation_identity.namespace;
  function_name = codes "/" ++ qualified_name m;
  function_version = m.function.version;
  deadline = deadline;
  api_key =
      if is_truthy fn.annotations "provide-api-key" true then m.invocation_identity.api_key else "";
}

-- The error of the pool: a container that its user broke is the user's error.
unfoldable pub get_failed : GetError → Activation → Activation
get_failed e a = elim e [
  | broken_during_reuse s ↦ elim (cause_of_state (some s)) [
    | some message ↦ fail developer_error message a
    | none ↦ fail system_error function_provision a
  ]
  | _ ↦ fail system_error function_provision a
]

abbrev pub entrypoint_of : Function → String
entrypoint_of fn = if is_empty fn.exec.main then "main" else fn.exec.main

-- The steps between the container's arrival and the deferred functions.
unfoldable pub use_container :
    Answers → ActivationMessage → Function → Bool → Activation → Activation × Bool × List Effect
use_container w m fn reused a =
    let run_payload : ContainerRunPayload = record {
      environment = environment m fn (w.run_start + fn.limits.timeout);
      parameters = m.parameters;
    } in
    let init_payload : ContainerInitPayload = record {
      name = fn.name;
      entrypoint = entrypoint_of fn;
      code = fn.exec.code;
      is_binary = fn.exec.binary;
      environment = environment m fn (w.init_start + init_timeout fn);
      parameters = m.init_parameters;
    } in
    let run = runs run_payload in
    let init = initializes init_payload in
    if reused
    then ((run_phase w fn a).0, (run_phase w fn a).1, run ∷ [])
    else elim (init_phase w fn a) [
      | returned b broken ↦ (b, broken, init ∷ [])
      | continues b ↦ ((run_phase w fn b).0, (run_phase w fn b).1, init ∷ run ∷ [])
    ]

-- The deferred collection of the logs.
unfoldable pub with_logs : Answers → Function → Activation → Bool → Activation × Bool
with_logs w fn a broken =
    let logs = collect_logs w.printing fn.limits.logs w.log_events in
    let message : Text = elim a.response.error [
      | [] ↦ function_log_collection
      | x ∷ xs ↦ punctuate (x ∷ xs) ++ codes " Logs might be missing."
    ] in
    if w.log_timeout
    then (record a { logs = logs ++ format_log w.printing w.log_end stderr message ∷ [] }, true)
    else (record a { logs = logs }, broken)

-- The function was fetched: a container is asked for, used, and given back.
unfoldable pub with_function :
    Answers → ActivationMessage → Function → Activation → Activation × List Effect
unfolding use_container with_logs get_failed
with_function w m fn a0 =
    let a1 = record a0 {
      function = record (a0.function) {
        entrypoint = entrypoint_of fn;
        kind = fn.exec.kind;
        limits = fn.limits;
      };
    } in
    elim w.outcome [
      | failed e ↦ (get_failed e a1, gets_container ∷ [])
      | got c reused ↦
          let a2 = if is_empty m.caused_by then record a1 { wait_time = w.wait_time } else a1 in
          let (a3, broken, effects) = use_container w m fn reused a2 in
          let (a4, destroy) = with_logs w fn a3 broken in
          (a4, gets_container ∷ (effects ++ (if destroy then puts_to_destroy else puts) ∷ []))
    ]

unfoldable pub fetch : Answers → ActivationMessage → Activation → Activation × List Effect
fetch w m a = elim w.fetched [
  | not_found ↦ (fail application_error function_not_found a, [])
  | fetch_failed ↦ (fail system_error function_fetch a, [])
  | found fn ↦ with_function w m fn a
]

-- The activation that is returned, and the effects in their order. The record is written last.
unfoldable pub invoke : Answers → ActivationMessage → Activation × List Effect
unfolding fetch with_function
invoke w m =
    let (a, effects) = fetch w m (new_activation m w.now) in
    if not m.is_blocking && m.invocation_identity.store_activations
    then (a, effects ++ writes a ∷ [])
    else (a, effects)
