-- ===== src/Runner/Tests.antt =====
-- The runner's theorems at concrete inputs.
use functions_invoker.Base.{List, ◌≡◌, true, false, [], ◌∷◌, codes, arith}
use functions_invoker.Pool.State.{got}
use functions_invoker.Runner.Logs.{stdout, stderr, LogEvent, arrives, collect_logs, format_log}
use functions_invoker.Runner.Bounds.{Clipped, written, until_sentinels, collect_logs-Clipped}
use functions_invoker.Runner.Invoke.{found}
use functions_invoker.Runner.Examples.{plain, hello_message, hello_function, container, late}
use functions_invoker.Runner.Whole.{invoke}
use functions_invoker.Runner.Status.{Judged, invoke-Judged}
use functions_invoker.Runner.Giving.{
  acquired, initialized, ran, destroyed, wrote, kinds, invoke-kinds,
}

abbrev events : List LogEvent
events =
    arrives (record { message = codes "hi"; stream = stdout; time = 1; is_sentinel = false }) 2
    ∷ arrives
        (record { message = codes "too long"; stream = stderr; time = 3; is_sentinel = false }) 4
    ∷ arrives (record { message = []; stream = stdout; time = 0; is_sentinel = true }) 5
    ∷ arrives (record { message = []; stream = stderr; time = 0; is_sentinel = true }) 6
    ∷ []

collect_logs-Clipped_example :
    Clipped plain 45
      (written plain (until_sentinels false false events))
      (collect_logs plain 45 events)
unfolding format_log
collect_logs-Clipped_example =
    collect_logs-Clipped plain 45 events
      (omega arith, (omega arith, (omega arith, (omega arith, tt))))

invoke-kinds_example :
    kinds (invoke late hello_message).1
    ≡ acquired ∷ initialized ∷ ran ∷ destroyed ∷ wrote (invoke late hello_message).0 ∷ []
invoke-kinds_example = invoke-kinds late hello_message

invoke-Judged_example :
    Judged (found hello_function) (got container false) (invoke late hello_message).0
invoke-Judged_example = invoke-Judged late hello_message
