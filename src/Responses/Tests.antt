-- ===== src/Responses/Tests.antt =====
-- The theorems on the answers at concrete inputs.
use functions_invoker.Base.{some, none, Option, [], ◌∷◌, codes}
use functions_invoker.Entities.{Text, Activation, ActivationMessage}
use functions_invoker.Runner.Examples.{hello_message, late}
use functions_invoker.Responses.{Quoting, KafkaRunner}
use functions_invoker.Responses.Answered.{Answered, kafka_invoke-answers}

abbrev quoting : Quoting
quoting = record { quote = λ s. codes s; number = λ n. codes "1" }

abbrev runner : KafkaRunner
runner = record { instance_id = 1; blocked_namespaces = "spam" ∷ [] }

abbrev marshal : Activation → Option Text
marshal a = none

kafka_invoke-answers_example : Answered quoting runner marshal late 6000000 hello_message
kafka_invoke-answers_example =
    kafka_invoke-answers quoting runner marshal late 6000000 hello_message

abbrev parse : Text → Option ActivationMessage
parse t = some hello_message
