-- ===== src/Runner/Invoke.antt =====
-- `Invoke` (pkg/runner/runner.go). What the rest of the system answers, with the readings of the
-- clock, is the argument `Answers`. Readings do not go back, so differences of them are exact. The
-- log goroutine and the timer are the events of the collection and whether the timer came first.
use functions_invoker.Base.{
  ◌||◌, ℕ, ◌-◌, Bool, true, false, String, Option, none, some, List, [], ◌∷◌, ◌++◌, codes, length,
  insert, string_eq, str_eq, ltb, if◌then◌else◌,
}
use functions_invoker.Container.{ContainerState, status_exited}
use functions_invoker.Pool.State.{Outcome}
use functions_invoker.Entities.{
  Text, Annotations, text, is_empty, Function, StatusCode, success, application_error,
  developer_error, system_error, Activation, ActivationMessage,
}
use functions_invoker.Messages.{
  Printing, function_abnormal_init, function_abnormal_run, function_memory_exhausted,
  function_init_timeout, function_timeout, function_truncated_response,
  function_invalid_run_response,
}
use functions_invoker.Runner.Logs.{LogEvent, parse_error_from_response}

pub data Fetched : Type 0 where
  found : Function → Fetched
  not_found fetch_failed : Fetched

-- What is wrong with a request to a container, if anything.
pub data RequestError : Type 0 where
  limit_exceeded : (content_length : ℕ) → RequestError
  deadline_exceeded other : RequestError

pub record Reply : Type 0 where
  pub response : Text
  pub error : Option RequestError

-- What the JSON decoder makes of a response as an object: nothing, null, or the keys.
pub data Parsed : Type 0 where
  unparsable nil_object : Parsed
  object : List String → Parsed

pub record Answers : Type 0 where
  pub printing : Printing
  pub fetched : Fetched
  pub outcome : Outcome
  pub init_reply : Reply
  pub init_state : Option ContainerState
  pub run_reply : Reply
  pub run_state : Option ContainerState
  pub decode_error : Text → Option Text
  pub parse_object : Text → Parsed
  pub log_events : List LogEvent
  pub log_timeout : Bool
  pub now : ℕ
  pub wait_time : ℕ
  pub init_start : ℕ
  pub init_end : ℕ
  pub run_start : ℕ
  pub run_end : ℕ
  pub log_end : ℕ

pub record InvocationEnvironment : Type 0 where
  pub activation_id : String
  pub transaction_id : String
  pub namespace : String
  pub function_name : Text
  pub function_version : String
  pub deadline : ℕ
  pub api_key : String

pub record ContainerInitPayload : Type 0 where
  pub name : String
  pub entrypoint : String
  pub code : Text
  pub is_binary : Bool
  pub environment : InvocationEnvironment
  pub parameters : List (String × Text)

pub record ContainerRunPayload : Type 0 where
  pub environment : InvocationEnvironment
  pub parameters : List (String × Text)

pub data Effect : Type 0 where
  gets_container puts puts_to_destroy : Effect
  initializes : ContainerInitPayload → Effect
  runs : ContainerRunPayload → Effect
  writes : Activation → Effect

abbrev pub qualified_name : ActivationMessage → Text
qualified_name m = codes m.function.namespace ++ (codes "/" ++ codes m.function.name)

-- The namespace's annotations are added to those of the activation.
unfoldable pub add_annotations : List (String × String) → Annotations → Annotations
add_annotations [] a = a
add_annotations ((k, v) ∷ rest) a = add_annotations rest (insert k (text v) a)

abbrev pub initial_annotations : ActivationMessage → Annotations
initial_annotations m =
    add_annotations m.invocation_identity.annotations
      (if is_empty m.caused_by then [] else ("causedBy", text "sequence") ∷ [])

unfoldable pub new_activation : ActivationMessage → ℕ → Activation
new_activation m now = record {
  activation_id = m.activation_id;
  namespace = m.invocation_identity.namespace;
  subject = m.invocation_identity.subject;
  cause = m.caused_by;
  annotations = initial_annotations m;
  function = record {
    name = m.function.name;
    version = m.function.version;
    path = qualified_name m;
    kind = "";
    entrypoint = "";
    limits = record { timeout = 0; memory = 0; logs = 0 };
    binding = m.function.binding;
  };
  start = now;
  finish = now;
  is_timeout = false;
  init_time = 0;
  wait_time = 0;
  response = record { result = []; error = []; status_code = system_error };
  logs = [];
}

unfoldable pub fail : StatusCode → Text → Activation → Activation
fail status message a = record a {
  response = record (a.response) { status_code = status; error = message };
}

-- An activation that is returned, with whether the container is broken, or that goes on.
pub data Phase : Type 0 where
  returned : Activation → Bool → Phase
  continues : Activation → Phase

abbrev pub cause_of_state : Option ContainerState → Option Text
cause_of_state none = none
cause_of_state (some s) =
    if s.oom_killed
    then some function_memory_exhausted
    else (if str_eq s.status status_exited then some function_abnormal_run else none)

abbrev pub is_deadline : RequestError → Bool
is_deadline deadline_exceeded = true
is_deadline (limit_exceeded n) = false
is_deadline other = false

-- A container's failure that is not an exceeded response limit: what its state says, else a
-- timeout, else the error of the runtime, else the generic text. The init and the run share it.
unfoldable pub classify :
    Answers → Option ContainerState → RequestError → Text → Text → Text → Activation → Activation
classify w state e response timeout generic a = elim (cause_of_state state) [
  | some message ↦ fail developer_error message a
  | none ↦
      if is_deadline e
      then record (fail developer_error timeout a) { is_timeout = true }
      else elim response [
        | [] ↦ fail developer_error generic a
        | x ∷ xs ↦ elim (parse_error_from_response w.decode_error (x ∷ xs)) [
          | none ↦ fail developer_error generic a
          | some message ↦ fail developer_error message a
        ]
      ]
]

abbrev pub min_init_duration : ℕ
min_init_duration = 10000000000

abbrev pub init_timeout : Function → ℕ
init_timeout fn =
    if ltb min_init_duration fn.limits.timeout then fn.limits.timeout else min_init_duration

unfoldable pub init_phase : Answers → Function → Activation → Phase
init_phase w fn a0 =
    let a = record a0 {
      init_time = w.init_end - w.init_start;
      start = w.init_start;
      finish = w.init_end;
    } in
    let r = w.init_reply.response in
    elim w.init_reply.error [
      | none ↦ continues a
      | some e ↦
          returned
            (elim e [
              | limit_exceeded n ↦
                  fail developer_error (function_truncated_response w.printing r n (length r)) a
              | failure ↦
                  classify w w.init_state failure r
                    (function_init_timeout w.printing (init_timeout fn)) function_abnormal_init a
            ])
            true
    ]

abbrev pub has_error : List String → Bool
has_error [] = false
has_error (k ∷ ks) = str_eq k "error" || has_error ks

-- The response of a run that succeeded.
unfoldable pub finish_run : Answers → Text → Activation → Activation
finish_run w r a = elim (w.parse_object r) [
  | unparsable ↦ fail developer_error (function_invalid_run_response r) a
  | nil_object ↦ record a {
    response = record (a.response) { result = codes "{}"; status_code = success };
  }
  | object keys ↦ record a {
    response = record (a.response) {
      result = r;
      status_code = if has_error keys then application_error else success;
    };
  }
]

unfoldable pub run_phase : Answers → Function → Activation → Activation × Bool
unfolding finish_run
run_phase w fn a0 =
    let a = record a0 { start = w.run_start - a0.init_time; finish = w.run_end } in
    let r = w.run_reply.response in
    elim w.run_reply.error [
      | none ↦ (finish_run w r a, false)
      | some e ↦ elim e [
        | limit_exceeded n ↦ (
          fail application_error (function_truncated_response w.printing r n (length r)) a,
          false,
        )
        | failure ↦ (
          classify w w.run_state failure r (function_timeout w.printing fn.limits.timeout)
              function_abnormal_run a,
          true,
        )
      ]
    ]
