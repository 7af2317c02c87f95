-- ===== src/Client.antt =====
-- Requests to CouchDB (pkg/couchdb/client.go): the loop of `request` with its growing intervals,
-- `getRequest` and `GetFunction`. What the HTTP client answers to each attempt, how long it takes,
-- the JSON decoder and base64 are arguments. Times are milliseconds. The loop takes one unit of fuel
-- per attempt.
use functions_invoker.Base.{
  ℕ, zero, suc, ◌+◌, ◌*◌, Bool, true, false, Option, none, some, List, [], ◌∷◌, leb, ltb, ◌==◌,
  if◌then◌else◌,
}
use functions_invoker.Entities.{Text, Function, Exec}
use functions_invoker.Runner.Invoke.{Fetched, found, not_found, fetch_failed}
pub mod Fetching
pub mod Retries
pub mod Documents
mod Tests

-- A response, whose body may fail to be read.
pub record HttpReply : Type 0 where
  pub status : ℕ
  pub body : Option Text

-- `timed_out` is an exceeded deadline.
pub data Result : Type 0 where
  answered : HttpReply → Result
  timed_out failed : Result

pub record Attempt : Type 0 where
  pub took : ℕ
  pub result : Result

abbrev pub base_retry_interval : ℕ
base_retry_interval = 50

abbrev pub retry_interval_factor : ℕ
retry_interval_factor = 2

abbrev pub max_retry_interval : ℕ
max_retry_interval = 5000

abbrev pub max_retry_duration : ℕ
max_retry_duration = 120000

unfoldable pub next_interval : ℕ → ℕ
next_interval interval =
    let longer = interval * retry_interval_factor in
    if ltb max_retry_interval longer then max_retry_interval else longer

-- The time after a failed attempt, the sleep included, and the interval.
unfoldable pub after_attempt : Attempt → ℕ → ℕ → ℕ × ℕ
after_attempt a elapsed interval = elim a.result [
  | answered r ↦ (elapsed + a.took, interval)
  | timed_out ↦ (elapsed + a.took, interval)
  | failed ↦ (elapsed + a.took + next_interval interval, next_interval interval)
]

-- The reply, or that the deadline has passed; with the number of retries.
pub data Requested : Type 0 where
  replied : HttpReply → ℕ → Requested
  gave_up : ℕ → Requested

unfoldable pub request_loop : ℕ → (ℕ → Attempt) → ℕ → ℕ → ℕ → Option Requested
unfolding after_attempt
request_loop zero attempt retries elapsed interval = none
request_loop (suc fuel) attempt retries elapsed interval =
    let a = attempt retries in
    let next = after_attempt a elapsed interval in
    let rest = request_loop fuel attempt (suc retries) next.0 next.1 in
    if leb max_retry_duration elapsed
    then some (gave_up retries)
    else elim a.result [ answered r ↦ some (replied r retries) | timed_out ↦ rest | failed ↦ rest ]

-- The deadline comes with the first attempt that ends two minutes after the start.
unfoldable pub request : (ℕ → Attempt) → Option Requested
request attempt = request_loop (suc max_retry_duration) attempt 0 0 base_retry_interval

pub data Document : Type 0 where
  document : Text → Document
  missing broken : Document

unfoldable pub get_request : Requested → Document
get_request (gave_up n) = broken
get_request (replied r n) = elim r.body [
  | none ↦ broken
  | some bytes ↦
      if r.status == 404 then missing else (if r.status == 200 then document bytes else broken)
]

-- A stored function: its code is an attachment if that has an id.
pub record Stored : Type 0 where
  pub function : Function
  pub attachment_id : Text
  pub is_binary : Bool

abbrev pub with_code : Text → Function → Function
with_code code fn = record fn { exec = record (fn.exec) { code = code } }

unfoldable pub get_attachment : (Text → Text) → Stored → Document → Fetched
get_attachment encode s missing = not_found
get_attachment encode s broken = fetch_failed
get_attachment encode s (document bytes) =
    found (with_code (if s.is_binary then encode bytes else bytes) s.function)

unfoldable pub get_function :
    (Text → Option Stored) → (Text → Text) → Document → (Text → Document) → Fetched
unfolding get_attachment
get_function parse encode missing attachment = not_found
get_function parse encode broken attachment = fetch_failed
get_function parse encode (document bytes) attachment = elim (parse bytes) [
  | none ↦ fetch_failed
  | some s ↦ elim s.attachment_id [
    | [] ↦ found s.function
    | x ∷ xs ↦ get_attachment encode s (attachment (x ∷ xs))
  ]
]
