-- ===== src/Firewall/Exec.antt =====
-- Commands in the firewall's container (pkg/firewall/docker_exec.go). What Docker answers is an
-- argument; how Go prints numbers is another.
use functions_invoker.Base.{
  ℕ, Bool, ◌++◌, List, [], ◌∷◌, ltb, length, if◌then◌else◌, ◌==◌, codes, Fallible, Done, fine,
  erred, context, and_then,
}
use functions_invoker.Entities.{Text}

-- Docker's answers to one command: to its creation, to the attachment of its streams, to the write of
-- its input and the close of it, to the copy of its output, and to the request for its exit code.
pub record ExecAnswers : Type 0 where
  pub created : Fallible Done
  pub attached : Fallible Done
  pub written : Fallible Done
  pub closed : Fallible Done
  pub copied : Fallible Done
  pub stdout : Text
  pub stderr : Text
  pub inspected : Fallible ℕ

-- The command that Docker is asked to create, and whether it gets an input.
pub record ExecConfig : Type 0 where
  pub cmd : List Text
  pub attach_stdin : Bool

abbrev pub exec_config : List Text → Text → ExecConfig
exec_config args input = record { cmd = args; attach_stdin = ltb 0 (length input) }

-- The input is written and closed only if there is any.
unfoldable pub send_input : ExecAnswers → Text → Fallible Done
send_input w [] = fine tt
send_input w (b ∷ input) =
    and_then (context (codes "failed to write exec stdin: ") w.written)
      λ _. context (codes "failed to close stdin: ") w.closed

unfoldable pub check_exit_code : (ℕ → Text) → ExecAnswers → ℕ → Fallible Text
check_exit_code decimal w exit_code =
    if exit_code == 0
    then fine w.stdout
    else erred (
        codes "failed to execute command, exitCode: "
        ++ decimal exit_code
        ++ codes ", stdout: "
        ++ w.stdout
        ++ codes ", stderr: "
        ++ w.stderr)

unfoldable pub exec : (ℕ → Text) → ExecAnswers → Text → Fallible Text
unfolding send_input check_exit_code
exec decimal w input = and_then (context (codes "failed to create exec: ") w.created) λ _.
    and_then (context (codes "failed to attach to exec: ") w.attached) λ _.
      and_then (send_input w input) λ _.
        and_then (context (codes "failed to read exec output: ") w.copied) λ _.
          and_then (context (codes "failed to inspect exec for status code: ") w.inspected)
            λ exit_code. check_exit_code decimal w exit_code

abbrev pub iptables_save : List Text
iptables_save = codes "iptables-save" ∷ codes "--table" ∷ codes "filter" ∷ []

abbrev pub iptables_restore : List Text
iptables_restore = codes "iptables-restore" ∷ codes "--table" ∷ codes "filter" ∷ []

unfoldable pub get_state : (ℕ → Text) → ExecAnswers → Fallible Text
unfolding exec
get_state decimal w = exec decimal w []

unfoldable pub write_state : (ℕ → Text) → ExecAnswers → Text → Fallible Done
unfolding exec
write_state decimal w state = and_then (exec decimal w state) λ _. fine tt

abbrev pub iptables : List Text → List Text
iptables args = codes "iptables" ∷ args

-- `Exec`, of `iptables args`.
unfoldable pub exec_iptables : (ℕ → Text) → ExecAnswers → Fallible Done
unfolding exec
exec_iptables decimal w = and_then (exec decimal w []) λ _. fine tt
