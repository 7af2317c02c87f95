-- ===== src/Firewall/Ending.antt =====
-- When a command and a reconciliation succeed (pkg/firewall/docker_exec.go and
-- pkg/firewall/firewall.go).
use functions_invoker.Base.{
  ℕ, List, [], ◌∷◌, ◌≡◌, ◌↔◌, refl, ap, ◌∙◌, codes, Fallible, fine, erred, context, and_then, arith,
}
use functions_invoker.Entities.{Text}
use functions_invoker.Firewall.Exec.{ExecAnswers, exec, send_input, check_exit_code}
use functions_invoker.Firewall.Table.{scan_lines, reconcile, Reconciler}
use functions_invoker.Firewall.Reconciling.{Listers, Inputs, TableAnswers, Command}

-- Docker answers without an error up to an exit code of 0; an input is written and closed.
abbrev pub TakesInput : ExecAnswers → Text → Type 0
TakesInput w [] = Unit
TakesInput w (b ∷ rest) = (w.written ≡ fine tt) × (w.closed ≡ fine tt)

abbrev pub Works : ExecAnswers → Text → Type 0
Works w input =
    (w.created ≡ fine tt)
    × (w.attached ≡ fine tt)
    × TakesInput w input
    × (w.copied ≡ fine tt)
    × (w.inspected ≡ fine 0)

module _ {ℓ κ} {A : Type ℓ} {B : Type κ} (f : A → Fallible B) where
  -- A chain that gives a result has one in its first part.
  and_then-fine :
      (m : Fallible A) (b : B) → and_then m f ≡ fine b → (a : A) × (m ≡ fine a) × (f a ≡ fine b)
  and_then-fine (fine a) b h = (a, refl, h)
  and_then-fine (erred error) b h = cc

context-fine {ℓ} :
    {A : Type ℓ} (front : Text) (m : Fallible A) (a : A) → context front m ≡ fine a → m ≡ fine a
context-fine front (fine b) a h = h
context-fine front (erred error) a h = cc

send_input_iff :
    (w : ExecAnswers) (input : Text) → (send_input w input ≡ fine tt) ↔ TakesInput w input
unfolding send_input
send_input_iff w [] = (λ _. tt, λ _. refl)
send_input_iff w (b ∷ input) = (
  λ h.
      let (_, written, rest) =
        and_then-fine _ (context (codes "failed to write exec stdin: ") w.written) tt h in
      (
        context-fine (codes "failed to write exec stdin: ") w.written tt written,
        context-fine (codes "failed to close stdin: ") w.closed tt rest,
      ),
  λ h. rw (h.0, h.1) refl,
)

check_exit_code_iff :
    (decimal : ℕ → Text) (w : ExecAnswers) (exit_code : ℕ) (out : Text)
    → (check_exit_code decimal w exit_code ≡ fine out) ↔ ((exit_code ≡ 0) × (out ≡ w.stdout))
unfolding check_exit_code
check_exit_code_iff decimal w exit_code out = ground arith

module _ {ℓ κ} {A : Type ℓ} {B : Type κ} (f : A → Fallible B) (front : Text) (m : Fallible A)
    (b : B) where
  step-fine : and_then (context front m) f ≡ fine b → (a : A) × (m ≡ fine a) × (f a ≡ fine b)
  step-fine h =
      let (a, found, rest) = and_then-fine f (context front m) b h in
      (a, context-fine front m a found, rest)

module _ (decimal : ℕ → Text) (w : ExecAnswers) (input out : Text) where
  exec-Works : exec decimal w input ≡ fine out → Works w input × (out ≡ w.stdout)
  unfolding exec
  exec-Works h =
      let (_, created, h1) = step-fine _ (codes "failed to create exec: ") w.created out h in
      let (_, attached, h2) = step-fine _ (codes "failed to attach to exec: ") w.attached out h1 in
      let (_, sent, h3) = and_then-fine _ (send_input w input) out h2 in
      let (_, copied, h4) = step-fine _ (codes "failed to read exec output: ") w.copied out h3 in
      let (exit_code, inspected, h5) =
        step-fine _ (codes "failed to inspect exec for status code: ") w.inspected out h4 in
      let (zero_code, output) = (check_exit_code_iff decimal w exit_code out).0 h5 in
      (
        (created, attached, (send_input_iff w input).0 sent, copied, inspected ∙ ap fine zero_code),
        output,
      )

  exec_complete : Works w input × (out ≡ w.stdout) → exec decimal w input ≡ fine out
  unfolding exec
  exec_complete ((created, attached, takes, copied, inspected), output) =
      rw (created, attached, (send_input_iff w input).1 takes, copied, inspected)
        ((check_exit_code_iff decimal w 0 out).1 (refl, output))

  -- A command in the firewall's container succeeds exactly if Docker answers without an error, the
  -- input, if there is any, is written and closed, and the exit code is 0; it then gives its output.
  pub exec_iff : (exec decimal w input ≡ fine out) ↔ (Works w input × (out ≡ w.stdout))
  exec_iff = (exec-Works, exec_complete)

-- The nodes, the endpoints of Kubernetes' API, the DNS service, and the endpoints that belong to it.
abbrev pub Found : Listers → Inputs → Type 0
Found listers i =
    (listers.list_nodes ≡ fine i.nodes)
    × (listers.get_endpoints (codes "default") (codes "kubernetes") ≡ fine i.kube_api_endpoints)
    × (listers.get_service (codes "serverless-coredns") (codes "serverless-coredns")
        ≡ fine i.core_dns_service)
    × (listers.get_endpoints i.core_dns_service.namespace i.core_dns_service.name
        ≡ fine i.core_dns_endpoints)

-- What a successful reconciliation has read and run.
abbrev pub Reconciled : Reconciler → Listers → TableAnswers → List Command → Type 0
Reconciled r listers w commands =
    (i : Inputs) × (table : Text) × Found listers i
    × (table
        ≡ reconcile r (scan_lines w.saving.stdout) i.nodes i.kube_api_endpoints i.core_dns_service
            i.core_dns_endpoints)
    × Works w.saving []
    × Works w.restoring table
    × (commands
        ≡ record {
          args = codes "iptables-save" ∷ codes "--table" ∷ codes "filter" ∷ [];
          input = [];
        }
          ∷ record {
            args = codes "iptables-restore" ∷ codes "--table" ∷ codes "filter" ∷ [];
            input = table;
          }
          ∷ [])
