-- ===== src/Invoker/Workers.antt =====
-- What a worker does with the messages that it reads, and what the main program computes beside the
-- workers (cmd/invoker/main.go, and `FetchLastOffset` of pkg/kafka/kafka.go).
use functions_invoker.Base.{
  ℕ, zero, suc, ◌+◌, ◌-◌, ◌/◌, String, List, [], ◌∷◌, ◌++◌, Option, none, some, if◌then◌else◌, ltb,
  ◌==◌, length, codes, map, ◌≡◌, refl, Fallible, fine, erred, lookup, string_eq,
}
use functions_invoker.Entities.{Text, ActivationMessage}
use functions_invoker.Responses.{KafkaRunner}
use functions_invoker.Invoker.Offsets.{next_offset}

-- What `ReadMessage` returns: an error after the shutdown has begun, another error, or a message with its
-- offset and its value; its age only goes into a metric.
pub data Read : Type 0 where
  cancelled : Read
  read_failed : Read
  message : (offset : ℕ) (value : Text) → Read

-- What a worker does: it records an offset, and it invokes a function.
pub data Action : Type 0 where
  records : (offset : ℕ) → Action
  invokes : ActivationMessage → Action

-- One message, once it is parsed.
unfoldable pub handle_message : ℕ → Option ActivationMessage → List Action
handle_message offset none = records (next_offset offset) ∷ []
handle_message offset (some m) = records (next_offset offset) ∷ invokes m ∷ []

-- The loop of a worker. It ends when the shutdown cancels a read.
unfoldable pub work : (Text → Option ActivationMessage) → List Read → List Action
unfolding handle_message
work parse [] = []
work parse (cancelled ∷ reads) = []
work parse (read_failed ∷ reads) = work parse reads
work parse (message offset value ∷ reads) = handle_message offset (parse value) ++ work parse reads

-- The messages that the worker reads before its end.
unfoldable pub received : List Read → List (ℕ × Text)
received [] = []
received (cancelled ∷ reads) = []
received (read_failed ∷ reads) = received reads
received (message offset value ∷ reads) = (offset, value) ∷ received reads

unfoldable pub offsets_of : List Action → List ℕ
offsets_of [] = []
offsets_of (records offset ∷ actions) = offset ∷ offsets_of actions
offsets_of (invokes m ∷ actions) = offsets_of actions

unfoldable pub invoked_of : List Action → List ActivationMessage
invoked_of [] = []
invoked_of (records offset ∷ actions) = invoked_of actions
invoked_of (invokes m ∷ actions) = m ∷ invoked_of actions

abbrev pub list_of : Option ActivationMessage → List ActivationMessage
list_of none = []
list_of (some m) = m ∷ []

-- The messages that can be parsed.
unfoldable pub parsed : (Text → Option ActivationMessage) → List (ℕ × Text) → List ActivationMessage
parsed parse [] = []
parsed parse ((offset, value) ∷ messages) = list_of (parse value) ++ parsed parse messages

handled :
    (offset : ℕ) (o : Option ActivationMessage) (actions : List Action)
    → (offsets_of (handle_message offset o ++ actions) ≡ next_offset offset ∷ offsets_of actions)
      × (invoked_of (handle_message offset o ++ actions) ≡ list_of o ++ invoked_of actions)
unfolding offsets_of invoked_of handle_message
handled offset none actions = (refl, refl)
handled offset (some m) actions = (refl, refl)

-- A worker goes on after every error but a cancelled read: it records the offset after each message that
-- it reads, in order, and invokes a function for each of these messages that can be parsed, in order.
pub work-received :
    (parse : Text → Option ActivationMessage) (reads : List Read)
    → (offsets_of (work parse reads) ≡ map (λ m. next_offset m.0) (received reads))
      × (invoked_of (work parse reads) ≡ parsed parse (received reads))
unfolding work received parsed
work-received parse [] = unfold offsets_of invoked_of in (refl, refl)
work-received parse (cancelled ∷ reads) = unfold offsets_of invoked_of in (refl, refl)
work-received parse (read_failed ∷ reads) = work-received parse reads
work-received parse (message offset value ∷ reads) =
    let (offsets, invoked) = handled offset (parse value) (work parse reads) in
    let rest = work-received parse reads in rw (offsets, invoked, rest.0, rest.1) (refl, refl)

-- The addresses from 172.18.0.2 to 172.18.0.254.
unfoldable pub addresses_from : (ℕ → Text) → (first count : ℕ) → List Text
addresses_from decimal first zero = []
addresses_from decimal first (suc count) =
    (codes "172.18.0." ++ decimal first) ∷ addresses_from decimal (first + 1) count

unfoldable pub usable_ips : (ℕ → Text) → List Text
unfolding addresses_from
usable_ips decimal = addresses_from decimal 2 253

-- As many workers as functions of the least memory fit, if there are addresses for as many containers.
unfoldable pub start_workers :
    (ips : List Text) (user_memory minimum_function_memory : ℕ) → Option ℕ
start_workers ips user_memory minimum_function_memory =
    let workers = user_memory / minimum_function_memory in
    if ltb (length ips) workers then none else some workers

-- `FetchLastOffset`: the offsets by topic, of each partition that was asked for.
unfoldable pub fetch_last_offset :
    (String → Text) → Fallible (List (String × List ℕ)) → String → Fallible ℕ
fetch_last_offset quote (erred error) topic =
    erred (codes "failed to read offsets from kafka: " ++ error)
fetch_last_offset quote (fine topics) topic = elim (lookup topic topics) [
  | none ↦ erred (codes "offsets from kafka didn't contain " ++ quote topic)
  | some [] ↦ erred (codes "offsets didn't contain expected partition 0")
  | some (last ∷ others) ↦ fine last
]

-- How far the workers are behind the topic. Offsets are below 2^53, where they are exact as floating-point
-- numbers; a negative difference counts as none.
unfoldable pub lag : (last_committed_offset : ℕ) → Fallible ℕ → ℕ
lag last_committed_offset (erred error) = 0
lag last_committed_offset (fine last_offset_on_topic) =
    if last_committed_offset == 0 then 0 else last_offset_on_topic - last_committed_offset

-- The periodic update of the blocked namespaces. If it fails, the result is the nil map.
unfoldable pub update_blocked_namespaces : Fallible (List String) → KafkaRunner → KafkaRunner
update_blocked_namespaces (erred error) r = record r { blocked_namespaces = [] }
update_blocked_namespaces (fine blocked) r = record r { blocked_namespaces = blocked }
