-- ===== src/Firewall/Reconciling.antt =====
-- A reconciliation (`Reconcile` of pkg/firewall/firewall.go): what it reads, and what it writes.
use functions_invoker.Base.{
  ℕ, ◌++◌, List, [], ◌∷◌, codes, Fallible, Done, fine, erred, context, and_then,
}
use functions_invoker.Entities.{Text}
use functions_invoker.Firewall.Table.{Reconciler, Node, Service, Endpoints, reconcile, scan_lines}
use functions_invoker.Firewall.Exec.{
  ExecAnswers, get_state, write_state, iptables_save, iptables_restore,
}

abbrev pub core_dns_namespace : Text
core_dns_namespace = codes "serverless-coredns"

abbrev pub core_dns_name : Text
core_dns_name = codes "serverless-coredns"

abbrev pub kube_api_namespace : Text
kube_api_namespace = codes "default"

abbrev pub kube_api_name : Text
kube_api_name = codes "kubernetes"

-- What the listers answer.
pub record Listers : Type 0 where
  pub list_nodes : Fallible (List Node)
  pub get_endpoints : (namespace name : Text) → Fallible Endpoints
  pub get_service : (namespace name : Text) → Fallible Service

-- The objects that a reconciliation is about.
pub record Inputs : Type 0 where
  pub nodes : List Node
  pub kube_api_endpoints : Endpoints
  pub core_dns_service : Service
  pub core_dns_endpoints : Endpoints

-- The first half of `Reconcile`. The endpoints of the DNS service are asked for by the name that the
-- service found has.
unfoldable pub read_inputs : Listers → Fallible Inputs
read_inputs listers = and_then (context (codes "failed to get nodes: ") listers.list_nodes) λ nodes.
    and_then
      (context (codes "failed to get default service endpoints: ")
        (listers.get_endpoints kube_api_namespace kube_api_name))
      λ kube_api_endpoints.
        and_then
          (context (codes "failed to get CoreDNS service: ")
            (listers.get_service core_dns_namespace core_dns_name))
          λ core_dns_service.
            and_then
              (context (codes "failed to get CoreDNS service endpoints: ")
                (listers.get_endpoints core_dns_service.namespace core_dns_service.name))
              λ core_dns_endpoints. fine (record {
                nodes = nodes;
                kube_api_endpoints = kube_api_endpoints;
                core_dns_service = core_dns_service;
                core_dns_endpoints = core_dns_endpoints;
              })

-- A command that was run, with its input.
pub record Command : Type 0 where
  pub args : List Text
  pub input : Text

unfoldable pub new_table : Reconciler → Text → Inputs → Text
unfolding reconcile
new_table r current i =
    reconcile r (scan_lines current) i.nodes i.kube_api_endpoints i.core_dns_service
      i.core_dns_endpoints

-- Docker's answers to the two commands.
pub record TableAnswers : Type 0 where
  pub saving : ExecAnswers
  pub restoring : ExecAnswers

abbrev pub save_command : Command
save_command = record { args = iptables_save; input = [] }

abbrev pub restore_command : Text → Command
restore_command table = record { args = iptables_restore; input = table }

-- The second half of `Reconcile`, once the current table is known: the commands, in their order, and
-- how it ends.
unfoldable pub with_state :
    (ℕ → Text) → Reconciler → TableAnswers → Inputs → Fallible Text → List Command × Fallible Done
unfolding new_table write_state
with_state decimal r w i (erred error) =
    (save_command ∷ [], erred (codes "failed to get current iptables: " ++ error))
with_state decimal r w i (fine current) = (
  save_command ∷ restore_command (new_table r current i) ∷ [],
  context (codes "failed to write iptables: ")
      (write_state decimal w.restoring (new_table r current i)),
)

unfoldable pub with_inputs :
    (ℕ → Text) → Reconciler → TableAnswers → Fallible Inputs → List Command × Fallible Done
unfolding with_state get_state
with_inputs decimal r w (erred error) = ([], erred error)
with_inputs decimal r w (fine i) = with_state decimal r w i (get_state decimal w.saving)

unfoldable pub run_reconcile :
    (ℕ → Text) → Reconciler → Listers → TableAnswers → List Command × Fallible Done
unfolding read_inputs with_inputs
run_reconcile decimal r listers w = with_inputs decimal r w (read_inputs listers)
