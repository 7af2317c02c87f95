-- ===== src/Firewall/Verdicts.antt =====
-- Rules, what they print as, their verdict on a packet, and the policy that they are to follow
-- (pkg/firewall/firewall.go). Iptables takes the verdict of the first rule that matches a packet; whether
-- a packet goes to a destination is an argument.
use functions_invoker.Base.{Bool, false, not, ◌||◌, ◌&&◌, List, [], ◌∷◌, ◌++◌, if◌then◌else◌, codes}
use functions_invoker.Entities.{Text}
use functions_invoker.Firewall.Table.{
  Reconciler, Node, NodeAddress, Service, Endpoints, Subset, is_external,
}

-- A packet: of an established connection or not, from the containers' bridge, to that bridge, from
-- an address of the containers' network, and the destinations that it matches.
pub record Packet : Type 0 where
  pub is_established : Bool
  pub in_bridge : Bool
  pub out_bridge : Bool
  pub from_subnet : Bool
  pub goes_to : Text → Bool

pub data Verdict : Type 0 where
  accepted rejected returned : Verdict

pub data Rule : Type 0 where
  accept_established : Rule
  reject_service : (destination comment : Text) → Rule
  accept_service : (destination comment : Text) → Rule
  reject_link_local : Rule
  return_all : Rule

-- The text of a rule, as iptables reads it.
unfoldable pub print_rule : Reconciler → Rule → Text
print_rule r accept_established =
    codes "-A WHISK-FIREWALL -m conntrack --ctstate ESTABLISHED -j ACCEPT"
print_rule r (reject_service d c) =
    codes "-A WHISK-FIREWALL -i "
    ++ r.container_bridge
    ++ codes " ! -o "
    ++ r.container_bridge
    ++ codes " -d "
    ++ d
    ++ codes " -j REJECT -m comment --comment \""
    ++ c
    ++ codes "\""
print_rule r (accept_service d c) =
    codes "-A WHISK-FIREWALL -i "
    ++ r.container_bridge
    ++ codes " ! -o "
    ++ r.container_bridge
    ++ codes " -d "
    ++ d
    ++ codes " -j ACCEPT -m comment --comment \""
    ++ c
    ++ codes "\""
print_rule r reject_link_local =
    codes "-A WHISK-FIREWALL -i "
    ++ r.container_bridge
    ++ codes " ! -o "
    ++ r.container_bridge
    ++ codes " -s "
    ++ r.container_subnet
    ++ codes " -d 169.254.0.0/16 -j REJECT -m comment --comment \"link local subnet\""
print_rule r return_all = codes "-A WHISK-FIREWALL -j RETURN"

abbrev pub is_leaving : Packet → Bool
is_leaving p = p.in_bridge && not p.out_bridge

-- The first rule that matches decides.
unfoldable pub verdict : Packet → List Rule → Verdict
verdict p [] = returned
verdict p (accept_established ∷ rules) = if p.is_established then accepted else verdict p rules
verdict p (reject_service d c ∷ rules) =
    if is_leaving p && p.goes_to d then rejected else verdict p rules
verdict p (accept_service d c ∷ rules) =
    if is_leaving p && p.goes_to d then accepted else verdict p rules
verdict p (reject_link_local ∷ rules) =
    if is_leaving p && p.from_subnet && p.goes_to (codes "169.254.0.0/16")
    then rejected
    else verdict p rules
verdict p (return_all ∷ rules) = returned

-- Whether a packet goes to a public address of a node.
unfoldable pub to_public : Packet → List NodeAddress → Bool
to_public p [] = false
to_public p (a ∷ addresses) =
    let rest = to_public p addresses in
    if is_external a.address_type then p.goes_to a.address || rest else rest

unfoldable pub to_node : Packet → List Node → Bool
to_node p [] = false
to_node p (node ∷ nodes) = to_public p node.addresses || to_node p nodes

unfoldable pub to_one_of : Packet → List Text → Bool
to_one_of p [] = false
to_one_of p (ip ∷ ips) = p.goes_to ip || to_one_of p ips

unfoldable pub to_subsets : Packet → List Subset → Bool
to_subsets p [] = false
to_subsets p (s ∷ subsets) = to_one_of p s.addresses || to_subsets p subsets

-- The policy: answers may pass. What leaves the containers' bridge may not go to a public address of a
-- node or to the API of Kubernetes. It may go to the DNS service and its pods, and otherwise not into
-- the cluster's network, to the gateway, or, from the containers' network, to link-local addresses.
unfoldable pub policy : Reconciler → List Node → Endpoints → Service → Endpoints → Packet → Verdict
policy r nodes kube_api_endpoints core_dns_service core_dns_endpoints p =
    if p.is_established
    then accepted
    else if not (is_leaving p)
    then returned
    else if to_node p nodes || to_subsets p kube_api_endpoints.subsets
    then rejected
    else if p.goes_to core_dns_service.cluster_ip || to_subsets p core_dns_endpoints.subsets
    then accepted
    else if p.goes_to (codes "10.0.0.0/8")
        || p.goes_to r.container_subnet
        || (p.from_subnet && p.goes_to (codes "169.254.0.0/16"))
    then rejected
    else returned
