-- ===== src/Runner/Examples.antt =====
-- An invocation at concrete inputs, for the tests.
use functions_invoker.Base.{true, false, none, some, [], ◌∷◌, codes}
use functions_invoker.Container.{PooledContainer}
use functions_invoker.Entities.{Function, ActivationMessage}
use functions_invoker.Messages.{Printing}
use functions_invoker.Pool.State.{got}
use functions_invoker.Runner.Invoke.{Answers, found, object, deadline_exceeded}

abbrev pub plain : Printing
plain = record { decimal = λ n. 48 ∷ []; time = λ t. codes "T" }

abbrev pub hello_message : ActivationMessage
hello_message = record {
  transaction_id = "t1";
  transaction_start = 5000000;
  activation_id = "a1";
  root_controller_index = "0";
  caused_by = "";
  is_blocking = false;
  function = record {
    namespace = "guest";
    name = "hello";
    version = "0.0.1";
    revision = "1-a";
    binding = "";
  };
  invocation_identity = record {
    subject = "guest";
    namespace = "guest";
    annotations = [];
    api_key = "k";
    store_activations = true;
  };
  parameters = [];
  init_parameters = [];
}

abbrev pub hello_function : Function
hello_function = record {
  name = "hello";
  namespace = "guest";
  exec = record { kind = "nodejs:14"; code = codes "code"; main = ""; binary = false };
  annotations = [];
  limits = record { timeout = 60; memory = 128; logs = 45 };
}

abbrev pub container : PooledContainer
container = record {
  handle = 1;
  initialized_for = record { invocation_namespace = "guest"; function = hello_message.function };
  last_used = 0;
  memory = 128;
  firewall_cleanup = false;
}

-- A cold container whose run fails by exceeding the time limit.
abbrev pub late : Answers
late = record {
  printing = plain;
  fetched = found hello_function;
  outcome = got container false;
  init_reply = record { response = []; error = none };
  init_state = none;
  run_reply = record { response = []; error = some deadline_exceeded };
  run_state = none;
  decode_error = λ t. none;
  parse_object = λ t. object [];
  log_events = [];
  log_timeout = false;
  now = 10;
  wait_time = 3;
  init_start = 20;
  init_end = 25;
  run_start = 30;
  run_end = 90;
  log_end = 95;
}
