-- ===== src/Runner/Logs.antt =====
-- Collecting the logs of an invocation (`collectLogs`, `formatLog`, `punctuate` and
-- `parseErrorFromResponse` of pkg/runner/runner.go). What the loop's `select` receives is a list of
-- events; the end of the list stands for a cancelled context too.
use functions_invoker.Base.{
  ℕ, ◌-◌, Bool, true, false, ◌&&◌, Option, none, some, List, [], ◌∷◌, ◌++◌, codes, length,
  replicate, add64, ltb, if◌then◌else◌, ends_with,
}
use functions_invoker.Entities.{Text}
use functions_invoker.Messages.{Printing, function_truncated_logs}

pub data Stream : Type 0 where
  stdout stderr : Stream

abbrev pub stream_name : Stream → Text
stream_name stdout = codes "stdout"
stream_name stderr = codes "stderr"

pub record LogLine : Type 0 where
  pub message : Text
  pub stream : Stream
  pub time : ℕ
  pub is_sentinel : Bool

-- A line, with the clock at its arrival, or the end of the context.
pub data LogEvent : Type 0 where
  arrives : LogLine → (now : ℕ) → LogEvent
  cancelled : LogEvent

-- `fmt.Sprintf("%-30s %s: %s", …)`.
unfoldable pub format_log : Printing → ℕ → Stream → Text → Text
format_log f time stream message =
    let printed = f.time time in
    printed
    ++ (replicate (30 - length printed) b' '
        ++ (codes " " ++ (stream_name stream ++ (codes ": " ++ message))))

unfoldable pub punctuate : Text → Text
punctuate message = if ends_with message (codes ".") then message else message ++ codes "."

pub record Collector : Type 0 where
  pub logs : List Text
  pub collected : ℕ
  pub exceeded : Bool
  pub stdout_found : Bool
  pub stderr_found : Bool

abbrev pub new_collector : Collector
new_collector = record {
  logs = [];
  collected = 0;
  exceeded = false;
  stdout_found = false;
  stderr_found = false;
}

-- A sentinel is noted; a line is kept if it fits, and the first that does not is announced.
unfoldable pub found_sentinel : Stream → Collector → Collector
found_sentinel stdout c = record c { stdout_found = true }
found_sentinel stderr c = record c { stderr_found = true }

unfoldable pub collect_line : Printing → ℕ → LogLine → ℕ → Collector → Collector
unfolding found_sentinel
collect_line f limit line now c =
    let formatted = format_log f line.time line.stream line.message in
    let total = add64 c.collected (length formatted) in
    if line.is_sentinel
    then found_sentinel line.stream c
    else (if c.exceeded
        then c
        else (if ltb limit total
            then record c {
              logs = c.logs ++ format_log f now stderr (function_truncated_logs f limit) ∷ [];
              exceeded = true;
            }
            else record c { collected = total; logs = c.logs ++ formatted ∷ [] }))

abbrev pub finished : Collector → Bool
finished c = c.stdout_found && c.stderr_found

unfoldable pub collect : Printing → ℕ → List LogEvent → Collector → Collector
collect f limit [] c = c
collect f limit (cancelled ∷ es) c = c
collect f limit (arrives line now ∷ es) c =
    let rest = collect f limit es (collect_line f limit line now c) in
    if finished c then c else rest

unfoldable pub collect_logs : Printing → ℕ → List LogEvent → List Text
collect_logs f limit es = (collect f limit es new_collector).logs

-- The error field that the JSON decoder found, if the response is JSON for an object with a text
-- there; an absent field reads as the empty text.
unfoldable pub parse_error_from_response : (Text → Option Text) → Text → Option Text
parse_error_from_response decode response = elim (decode response) [
  | none ↦ none
  | some [] ↦ none
  | some (x ∷ xs) ↦ some (x ∷ xs)
]
