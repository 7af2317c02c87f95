-- ===== src/Firewall/Events.antt =====
-- The events that bring a reconciliation about (pkg/firewall/events.go).
use functions_invoker.Base.{Bool, true, false, not, ◌&&◌, ◌||◌, List, codes_eq, if◌then◌else◌}
use functions_invoker.Firewall.Table.{Node, NodeAddress, Service, Endpoints, Subset}
use functions_invoker.Firewall.Reconciling.{
  core_dns_namespace, core_dns_name, kube_api_namespace, kube_api_name,
}

-- The objects that the informers tell of, by their dynamic type.
pub data Object : Type 0 where
  node : Node → Object
  service : Service → Object
  endpoints : Endpoints → Object
  other : Object

-- `equality.Semantic.DeepEqual` on the two types that it is used on.
pub record DeepEqual : Type 0 where
  pub same_addresses : List NodeAddress → List NodeAddress → Bool
  pub same_subsets : List Subset → List Subset → Bool

unfoldable pub is_relevant_service : Service → Bool
is_relevant_service svc =
    codes_eq svc.namespace core_dns_namespace && codes_eq svc.name core_dns_name

unfoldable pub is_relevant_endpoints : Endpoints → Bool
is_relevant_endpoints eps =
    (codes_eq eps.namespace core_dns_namespace && codes_eq eps.name core_dns_name)
    || (codes_eq eps.namespace kube_api_namespace && codes_eq eps.name kube_api_name)

-- Whether the handlers of the three events call the function.
unfoldable pub is_relevant : Object → Bool
unfolding is_relevant_service is_relevant_endpoints
is_relevant (service svc) = is_relevant_service svc
is_relevant (endpoints eps) = is_relevant_endpoints eps
is_relevant (node n) = true
is_relevant other = true

unfoldable pub add_func : Object → (is_in_initial_list : Bool) → Bool
unfolding is_relevant
add_func obj is_in_initial_list = if is_in_initial_list then false else is_relevant obj

unfoldable pub update_func : DeepEqual → Object → Object → Bool
unfolding is_relevant_service is_relevant_endpoints
update_func e (node old) (node changed) = not (e.same_addresses old.addresses changed.addresses)
update_func e (service old) (service changed) =
    is_relevant_service changed && not (codes_eq old.cluster_ip changed.cluster_ip)
update_func e (endpoints old) (endpoints changed) =
    is_relevant_endpoints changed && not (e.same_subsets old.subsets changed.subsets)
update_func e old changed = false

unfoldable pub delete_func : Object → Bool
unfolding is_relevant
delete_func obj = is_relevant obj

pub data Event : Type 0 where
  adds : Object → (is_in_initial_list : Bool) → Event
  updates : (old changed : Object) → Event
  deletes : Object → Event

unfoldable pub notifies : DeepEqual → Event → Bool
unfolding add_func update_func delete_func
notifies e (adds obj is_in_initial_list) = add_func obj is_in_initial_list
notifies e (updates old changed) = update_func e old changed
notifies e (deletes obj) = delete_func obj
