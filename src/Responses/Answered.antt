-- ===== src/Responses/Answered.antt =====
-- What the messages of an invocation say (pkg/kafka/runner.go and pkg/http/runner.go).
use functions_invoker.Base.{
  codes, is_member, ◌∙◌, ℕ, ◌-◌, ◌<◌, ◌≡◌, ◌≢◌, ◌⊎◌, inl, inr, refl, sym, Bool, true, false, ◌||◌,
  Bool-cases, Option, none, some, List, [], ◌∷◌, arith,
}
use functions_invoker.Entities.{Text, Activation, ActivationMessage}
use functions_invoker.Runner.Invoke.{Answers}
use functions_invoker.Runner.Whole.{invoke}
use functions_invoker.Runner.Status.{system_fault, is_system_error, invoke-Judged}
use functions_invoker.Responses.{
  HttpAnswer, Quoting, KafkaRunner, KafkaMessage, kafka_invoke, response_of, has_system_error,
  mini_combined_completion_message, combined_completion_message, completed_topic, is_too_old,
  blocking_invocation_cutoff,
}

-- The invocation is worthless: its namespace is blocked, or its caller waits for it and it is older
-- than the cutoff.
abbrev pub IsWorthless : KafkaRunner → ℕ → ActivationMessage → Type 0
IsWorthless r now m =
    (is_member m.invocation_identity.namespace r.blocked_namespaces ≡ true)
    ⊎ ((m.is_blocking ≡ true) × (blocking_invocation_cutoff < now - m.transaction_start))

-- The message for an activation: with the activation, if the caller waits and it can be encoded,
-- else with its id.
abbrev pub Tells :
    Quoting → ℕ → (Activation → Option Text) → ActivationMessage → Activation → Bool → Text → Type 0
Tells f n marshal m a fault t =
    ((m.is_blocking ≡ false ⊎ (marshal a ≡ none))
      × (t
          ≡ mini_combined_completion_message f n m.transaction_id m.transaction_start
              m.activation_id fault))
    ⊎ ((bytes : Text) × (m.is_blocking ≡ true)
        × (marshal a ≡ some bytes)
        × (t ≡ combined_completion_message f n m.transaction_id m.transaction_start bytes fault))

response_of-Tells :
    (f : Quoting) (n : ℕ) (marshal : Activation → Option Text) (m : ActivationMessage)
    (a : Activation)
    → Tells f n marshal m a (has_system_error a) (response_of f n marshal m a)
unfolding response_of
response_of-Tells f n marshal m a = ground arith

has_system_error-same :
    (a : Activation) → has_system_error a ≡ is_system_error a.response.status_code
has_system_error-same a = ground arith

absurd_false : false ≢ true
absurd_false q = cc

worthless :
    (r : KafkaRunner) (now : ℕ) (m : ActivationMessage)
    → (is_member m.invocation_identity.namespace r.blocked_namespaces || is_too_old now m) ≡ true
    → IsWorthless r now m
worthless r now m h = ground arith

worthy :
    (r : KafkaRunner) (now : ℕ) (m : ActivationMessage)
    → IsWorthless r now m
    → (is_member m.invocation_identity.namespace r.blocked_namespaces || is_too_old now m) ≡ true
worthy r now m h = ground arith

not-worthless :
    (r : KafkaRunner) (now : ℕ) (m : ActivationMessage)
    → ¬ IsWorthless r now m
    → (is_member m.invocation_identity.namespace r.blocked_namespaces || is_too_old now m) ≡ false
not-worthless r now m h =
    elim (Bool-cases
      (is_member m.invocation_identity.namespace r.blocked_namespaces || is_too_old now m)) [
        | inl y ↦ absurd (h (worthless r now m y))
        | inr n ↦ n
      ]

abbrev pub Skipped :
    Quoting → KafkaRunner → ActivationMessage → Option Activation × List KafkaMessage → Type 0
Skipped f r m out =
    (out.0 ≡ none)
    × (out.1
        ≡ record {
          topic = completed_topic m;
          value =
              mini_combined_completion_message f r.instance_id m.transaction_id m.transaction_start
                m.activation_id false;
        }
          ∷ [])

-- The two ways in which a message from Kafka is answered.
abbrev pub Answered :
    Quoting → KafkaRunner → (Activation → Option Text) → Answers → ℕ → ActivationMessage → Type 0
Answered f r marshal w now m =
    (IsWorthless r now m × Skipped f r m (kafka_invoke f r marshal (λ q. (invoke w q).0) now m))
    ⊎ ((¬ IsWorthless r now m)
        × ((value : Text) × (kafka_invoke f r marshal (λ q. (invoke w q).0) now m
              ≡ (some (invoke w m).0, record { topic = completed_topic m; value = value } ∷ []))
            × Tells f r.instance_id marshal m (invoke w m).0 (system_fault w.fetched w.outcome)
                value))

-- An invocation whose namespace is blocked, or that is blocking and older than the cutoff, is not
-- done, and one message that reports no system error is written. Every other one is done, and one
-- message is written to the topic of its controller: with the activation if the caller waits for it
-- and it can be encoded, else with its id; and it reports a system error exactly if the function
-- store or the pool is at fault.
pub kafka_invoke-answers :
    (f : Quoting) (r : KafkaRunner) (marshal : Activation → Option Text) (w : Answers) (now : ℕ)
    (m : ActivationMessage)
    → Answered f r marshal w now m
unfolding kafka_invoke
kafka_invoke-answers f r marshal w now m =
    elim (Bool-cases
      (is_member m.invocation_identity.namespace r.blocked_namespaces || is_too_old now m)) [
        | inl y ↦ inl (worthless r now m y, rw y (refl, refl))
        | inr n ↦ inr (
          (λ b. absurd_false (sym n ∙ worthy r now m b)),
          (
            response_of f r.instance_id marshal m (invoke w m).0,
            rw n refl,
            rw (← fault) (response_of-Tells f r.instance_id marshal m (invoke w m).0),
          ),
        )
      ]
  where
    fault : has_system_error (invoke w m).0 ≡ system_fault w.fetched w.outcome
    fault = has_system_error-same (invoke w m).0 ∙ (invoke-Judged w m).1

-- What the HTTP server answers to a request, whose body may be unreadable.
abbrev pub Served :
    Quoting
    → ℕ
    → (Text → Option ActivationMessage)
    → (Activation → Option Text)
    → Answers
    → Option Text
    → HttpAnswer
    → Type 0
Served f n parse marshal w request_body out =
    ((request_body ≡ none) × (out.status ≡ 500) × (out.activation ≡ none))
    ⊎ (((input : Text) × (request_body ≡ some input)
          × (parse input ≡ none)
          × (out.status ≡ 400)
          × (out.activation ≡ none))
        ⊎ ((input : Text) × (m : ActivationMessage) × (request_body ≡ some input)
            × (parse input ≡ some m)
            × (out.status ≡ 200)
            × (out.content_type ≡ some (codes "application/json"))
            × (out.activation ≡ some (invoke w m).0)
            × Tells f n marshal m (invoke w m).0 (system_fault w.fetched w.outcome) out.body))
