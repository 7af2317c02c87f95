-- ===== src/Client/Tests.antt =====
-- The requests to CouchDB at concrete inputs.
use functions_invoker.Base.{false, some, ◌≡◌, ℕ, zero, suc, none, Option, codes, ◌↔◌}
use functions_invoker.Client.{Attempt, failed, answered, request}
use functions_invoker.Client.{Document, document, missing, Stored, get_function}
use functions_invoker.Client.Fetching.{IsMissing, get_function-IsMissing}
use functions_invoker.Entities.{Text}
use functions_invoker.Runner.Invoke.{not_found}
use functions_invoker.Runner.Examples.{hello_function}
use functions_invoker.Client.Retries.{Ends, TakesTime, request-Ends}

-- The second attempt is answered.
second_answer : ℕ → Attempt
second_answer zero = record { took = 3; result = failed }
second_answer (suc n) = record {
  took = 5;
  result = answered (record { status = 200; body = none });
}

second_answer-TakesTime : TakesTime second_answer
unfolding second_answer
second_answer-TakesTime zero q = cc
second_answer-TakesTime (suc n) q = cc

request-Ends_example : Ends second_answer 0 (request second_answer)
request-Ends_example = request-Ends second_answer second_answer-TakesTime

-- A function whose code is an attachment that is gone.
abbrev attached : Stored
attached = record { function = hello_function; attachment_id = codes "a1"; is_binary = false }

abbrev parse : Text → Option Stored
parse t = some attached

abbrev encode : Text → Text
encode t = t

abbrev gone : Text → Document
gone id = missing

get_function-IsMissing_example :
    (get_function parse encode (document (codes "{}")) gone ≡ not_found)
    ↔ IsMissing parse gone (document (codes "{}"))
get_function-IsMissing_example = get_function-IsMissing parse encode (document (codes "{}")) gone
