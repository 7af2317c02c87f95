-- ===== src/Messages.antt =====
-- The error texts of an invocation (pkg/protocol/messages.go). How Go prints numbers and times is
-- the argument `Printing`.
use functions_invoker.Base.{ℕ, ◌/◌, ◌++◌, codes}
use functions_invoker.Entities.{Text}

pub record Printing : Type 0 where
  pub decimal : ℕ → Text
  pub time : ℕ → Text

abbrev pub function_fetch : Text
function_fetch = codes "Function could not be fetched."

abbrev pub function_not_found : Text
function_not_found = codes "Function could not be found or may have been deleted."

abbrev pub function_provision : Text
function_provision = codes "Failed to provision resources to run the function."

abbrev pub function_abnormal_init : Text
function_abnormal_init = codes "The function did not initialize and exited unexpectedly."

abbrev pub function_abnormal_run : Text
function_abnormal_run =
    codes "The function did not produce a valid response and exited unexpectedly."

abbrev pub function_memory_exhausted : Text
function_memory_exhausted = codes "The function exhausted its memory and was aborted."

abbrev pub function_log_collection : Text
function_log_collection =
    codes "There was an issue while collecting your logs. Logs might be missing."

abbrev pub milliseconds : ℕ → ℕ
milliseconds ns = ns / 1000000

unfoldable pub function_init_timeout : Printing → ℕ → Text
function_init_timeout f timeout =
    codes "The function exceeded its time limits of "
    ++ (f.decimal (milliseconds timeout) ++ codes " milliseconds during initialization.")

unfoldable pub function_timeout : Printing → ℕ → Text
function_timeout f timeout =
    codes "The function exceeded its time limits of "
    ++ (f.decimal (milliseconds timeout) ++ codes " milliseconds.")

unfoldable pub function_truncated_response : Printing → Text → ℕ → ℕ → Text
function_truncated_response f truncated got allowed =
    codes "The function produced a response that exceeded the allowed length: "
    ++ (f.decimal got
        ++ (codes " > "
            ++ (f.decimal allowed ++ (codes " bytes. The truncated response was: " ++ truncated))))

unfoldable pub function_truncated_logs : Printing → ℕ → Text
function_truncated_logs f allowed =
    codes "Logs were truncated because the total bytes size exceeds the limit of "
    ++ (f.decimal allowed ++ codes " bytes.")

unfoldable pub function_invalid_run_response : Text → Text
function_invalid_run_response resp =
    codes "The function did not produce a valid JSON response: " ++ resp
