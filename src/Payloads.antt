-- ===== src/Payloads.antt =====
-- The environments that are passed to a container (pkg/exec/payload.go), before their encoding in JSON.
-- The parser of a JSON string, the printing of numbers and of strings are arguments.
use functions_invoker.Base.{
  refl, ◌∙◌, Bool-cases, inl, inr, erred, fine, ℕ, ◌++◌, ◌≡◌, ◌⊎◌, refl, Bool, true, false, String,
  Option, none, some, List, [], ◌∷◌, codes, if◌then◌else◌, lookup, insert, lookup-insert, string_eq,
  str_eq, str_eq_iff, Fallible, fine, erred, context, and_then, ◌==◌,
}
use functions_invoker.Entities.{Text, is_empty}
use functions_invoker.Messages.{milliseconds}
use functions_invoker.Runner.Invoke.{
  InvocationEnvironment, ContainerInitPayload, ContainerRunPayload,
}
mod Tests

abbrev pub Env : Type 0
Env = List (String × Text)

-- The entry for an API key, if there is one.
abbrev pub with_api_key : String → String → Env → Env
with_api_key name api_key env = if is_empty api_key then env else insert name (codes api_key) env

-- The environment of an initialization, without the parameters.
unfoldable pub base_env : (ℕ → Text) → InvocationEnvironment → Env
base_env decimal e = with_api_key "__OW_API_KEY" e.api_key (
    ("__OW_ACTIVATION_ID", codes e.activation_id)
    ∷ ("__OW_TRANSACTION_ID", codes e.transaction_id)
    ∷ ("__OW_NAMESPACE", codes e.namespace)
    ∷ ("__OW_ACTION_NAME", e.function_name)
    ∷ ("__OW_ACTION_VERSION", codes e.function_version)
    ∷ ("__OW_DEADLINE", decimal (milliseconds e.deadline))
    ∷ [])

-- A parameter as text: a JSON string is parsed, everything else is taken as it is.
unfoldable pub text_of_value : (Text → Fallible Text) → String → Text → Fallible Text
text_of_value parse k [] = fine []
text_of_value parse k (c ∷ v) =
    if c == b'"'
    then context (codes "failed to parse init parameter " ++ (codes k ++ codes " into string: "))
        (parse (c ∷ v))
    else fine (c ∷ v)

-- The loop over the parameters, which are set over what is there.
unfoldable pub add_parameters : (Text → Fallible Text) → List (String × Text) → Env → Fallible Env
unfolding text_of_value
add_parameters parse [] env = fine env
add_parameters parse ((k, v) ∷ parameters) env =
    and_then (text_of_value parse k v) λ value. add_parameters parse parameters (insert k value env)

-- The environment of `ContainerInitPayload`.
unfoldable pub init_env : (ℕ → Text) → (Text → Fallible Text) → ContainerInitPayload → Fallible Env
unfolding base_env add_parameters
init_env decimal parse p = add_parameters parse p.parameters (base_env decimal p.environment)

-- The fields of `ContainerRunPayload` beside the parameters.
unfoldable pub run_env : (ℕ → Text) → InvocationEnvironment → Env
run_env decimal e = with_api_key "api_key" e.api_key (
    ("activation_id", codes e.activation_id)
    ∷ ("transaction_id", codes e.transaction_id)
    ∷ ("namespace", codes e.namespace)
    ∷ ("action_name", e.function_name)
    ∷ ("action_version", codes e.function_version)
    ∷ ("deadline", decimal (milliseconds e.deadline))
    ∷ [])

-- What is no parameter's name keeps its value.
add_parameters-others :
    (parse : Text → Fallible Text) (k : String) (parameters : List (String × Text)) (env out : Env)
    → add_parameters parse parameters env ≡ fine out
    → lookup k parameters ≡ none
    → lookup k out ≡ lookup k env
unfolding add_parameters lookup
add_parameters-others parse k [] env out h none_there = let same : env ≡ out = cc in rw same refl
add_parameters-others parse k ((j, v) ∷ parameters) env out h none_there =
    elim (Bool-cases (str_eq j k)) [
      | inl y ↦ absurd (let found : some v ≡ none = rw y at none_there in cc)
      | inr n ↦ after (text_of_value parse j v) (str_eq j k) n h (λ value rest.
          add_parameters-others parse k parameters (insert j value env) out rest
            (rw n at none_there))
    ]
  where
    after :
        (o : Fallible Text) (b : Bool)
        → str_eq j k ≡ false
        → and_then o (λ value. add_parameters parse parameters (insert j value env)) ≡ fine out
        → ((value : Text)
            → add_parameters parse parameters (insert j value env) ≡ fine out
            → lookup k out ≡ lookup k (insert j value env))
        → lookup k out ≡ lookup k env
    after (erred error) b n e ih = cc
    after (fine value) b n e ih = ih value e ∙ (lookup-insert j k value env ∙ (rw n refl))
