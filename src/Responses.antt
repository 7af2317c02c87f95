-- ===== src/Responses.antt =====
-- How an invocation is answered: the messages of pkg/protocol/ack.go, over Kafka
-- (pkg/kafka/runner.go) and over HTTP (pkg/http/runner.go). How Go prints is the argument `Quoting`;
-- the JSON encoding of an activation, which may fail, is an argument; so is the inner runner.
use functions_invoker.Base.{
  is_member, ℕ, ◌-◌, ◌*◌, Bool, true, false, not, ◌&&◌, ◌||◌, String, Option, none, some, List, [],
  ◌∷◌, ◌++◌, codes, str_eq, ltb, if◌then◌else◌,
}
use functions_invoker.Entities.{
  Text, Activation, ActivationMessage, StatusCode, system_error, success, application_error,
  developer_error,
}
use functions_invoker.Messages.{milliseconds}
pub mod Answered
mod Tests

-- `%q` and `%d` of Go.
pub record Quoting : Type 0 where
  pub quote : String → Text
  pub number : ℕ → Text

abbrev pub printed_bool : Bool → Text
printed_bool true = codes "true"
printed_bool false = codes "false"

unfoldable pub combined_completion_message : Quoting → ℕ → String → ℕ → Text → Bool → Text
combined_completion_message f instance_id tid transaction_start activation is_system_error =
    codes "{\"transid\":["
    ++ (f.quote tid
        ++ (codes ","
            ++ (f.number (milliseconds transaction_start)
                ++ (codes "],\"response\":"
                    ++ (activation
                        ++ (codes ",\"isSystemError\":"
                            ++ (printed_bool is_system_error
                                ++ (codes ",\"invoker\":{\"instance\":"
                                    ++ (f.number instance_id
                                        ++ codes ",\"userMemory\":\"0 g\"}}")))))))))

unfoldable pub mini_combined_completion_message : Quoting → ℕ → String → ℕ → String → Bool → Text
mini_combined_completion_message f instance_id tid transaction_start aid is_system_error =
    combined_completion_message f instance_id tid transaction_start (f.quote aid) is_system_error

abbrev pub has_system_error : Activation → Bool
has_system_error a = elim a.response.status_code [
  | system_error ↦ true
  | success ↦ false
  | application_error ↦ false
  | developer_error ↦ false
]

-- The message of an invocation that was done, over Kafka.
unfoldable pub response_of :
    Quoting → ℕ → (Activation → Option Text) → ActivationMessage → Activation → Text
response_of f instance_id marshal m a =
    let mini =
      mini_combined_completion_message f instance_id m.transaction_id m.transaction_start
        m.activation_id (has_system_error a) in
    if m.is_blocking
    then elim (marshal a) [
      | none ↦ mini
      | some bytes ↦
          combined_completion_message f instance_id m.transaction_id m.transaction_start bytes
            (has_system_error a)
    ]
    else mini

pub record KafkaMessage : Type 0 where
  pub topic : Text
  pub value : Text

pub record KafkaRunner : Type 0 where
  pub instance_id : ℕ
  pub blocked_namespaces : List String

-- Ten minutes in nanoseconds.
abbrev pub blocking_invocation_cutoff : ℕ
blocking_invocation_cutoff = 600000000000

abbrev pub completed_topic : ActivationMessage → Text
completed_topic m = codes "completed" ++ codes m.root_controller_index

-- A start that lies in the future has age 0 here and a negative one there; neither is too old.
abbrev pub is_too_old : ℕ → ActivationMessage → Bool
is_too_old now m = m.is_blocking && ltb blocking_invocation_cutoff (now - m.transaction_start)

-- The activation, if the function was invoked, and the messages that are written.
unfoldable pub kafka_invoke :
    Quoting
    → KafkaRunner
    → (Activation → Option Text)
    → (ActivationMessage → Activation)
    → ℕ
    → ActivationMessage
    → Option Activation × List KafkaMessage
kafka_invoke f r marshal invoke now m =
    let is_blocked = is_member m.invocation_identity.namespace r.blocked_namespaces in
    let skipped =
      mini_combined_completion_message f r.instance_id m.transaction_id m.transaction_start
        m.activation_id false in
    if is_blocked || is_too_old now m
    then (none, record { topic = completed_topic m; value = skipped } ∷ [])
    else (
      some (invoke m),
      record { topic = completed_topic m; value = response_of f r.instance_id marshal m (invoke m) }
          ∷ [],
    )

-- The body for an invocation that was done, over HTTP.
unfoldable pub http_response_of :
    Quoting → ℕ → (Activation → Option Text) → ActivationMessage → Activation → Text
http_response_of f instance_id marshal m a =
    let mini =
      mini_combined_completion_message f instance_id m.transaction_id m.transaction_start
        m.activation_id (has_system_error a) in
    if not m.is_blocking then mini else elim (marshal a) [
      | none ↦ mini
      | some bytes ↦
          combined_completion_message f instance_id m.transaction_id m.transaction_start bytes
            (has_system_error a)
    ]

-- What the HTTP server sends, and the activation, if the function was invoked.
pub record HttpAnswer : Type 0 where
  pub status : ℕ
  pub content_type : Option Text
  pub body : Text
  pub activation : Option Activation

unfoldable pub serve_http :
    Quoting
    → ℕ
    → (Text → Option ActivationMessage)
    → (Activation → Option Text)
    → (ActivationMessage → Activation)
    → Option Text
    → HttpAnswer
serve_http f instance_id parse marshal invoke request_body = elim request_body [
  | none ↦ record { status = 500; content_type = none; body = []; activation = none }
  | some input ↦ elim (parse input) [
    | none ↦ record { status = 400; content_type = none; body = []; activation = none }
    | some m ↦ record {
      status = 200;
      content_type = some (codes "application/json");
      body = http_response_of f instance_id marshal m (invoke m);
      activation = some (invoke m);
    }
  ]
]
