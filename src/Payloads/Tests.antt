-- ===== src/Payloads/Tests.antt =====
-- The environments at concrete inputs.
use functions_invoker.Base.{◌≡◌, refl, [], ◌∷◌, codes, insert, fine, false}
use functions_invoker.Runner.Invoke.{InvocationEnvironment}
use functions_invoker.Payloads.{init_env}

abbrev environment : InvocationEnvironment
environment = record {
  activation_id = "1";
  transaction_id = "2";
  namespace = "guest";
  function_name = codes "/guest/hello";
  function_version = "0.0.1";
  deadline = 5000000;
  api_key = "";
}

-- A parameter takes the place of the entry of the same name.
overridden :
    init_env
      (λ n. n ∷ [])
      (λ t. fine t)
      (record {
        name = "hello";
        entrypoint = "main";
        code = [];
        is_binary = false;
        environment = environment;
        parameters = ("__OW_NAMESPACE", codes "7") ∷ [];
      })
    ≡ fine (
        ("__OW_ACTIVATION_ID", codes "1")
        ∷ ("__OW_TRANSACTION_ID", codes "2")
        ∷ ("__OW_NAMESPACE", codes "7")
        ∷ ("__OW_ACTION_NAME", codes "/guest/hello")
        ∷ ("__OW_ACTION_VERSION", codes "0.0.1")
        ∷ ("__OW_DEADLINE", 5 ∷ [])
        ∷ [])
unfolding init_env insert
overridden = refl
