-- ===== src/Firewall/Policy.antt =====
-- The texts of the chain WHISK-FIREWALL follow the policy (pkg/firewall/firewall.go).
use mathlib.Core.List.{append_assoc, map-append}
use functions_invoker.Base.{
  ◌∙◌, arith, ◌&&◌, List, [], ◌∷◌, ◌++◌, if◌then◌else◌, codes, ◌≡◌, refl, sym, ap, map, inl, inr,
  Bool-cases,
}
use functions_invoker.Entities.{Text}
use functions_invoker.Firewall.Table.{
  Reconciler, Node, NodeAddress, Service, Endpoints, Subset, is_external, service_rule,
  link_local_rule, reject_addresses, reject_nodes, rule_subsets, whisk_rules,
}
use functions_invoker.Firewall.Verdicts.{
  Packet, Verdict, accepted, rejected, Rule, accept_established, reject_service, accept_service,
  reject_link_local, return_all, print_rule, is_leaving, verdict, to_public, to_node, to_one_of,
  to_subsets, policy,
}

-- The rules behind the texts of the loops.
address_rules : Text → List NodeAddress → List Rule
address_rules name [] = []
address_rules name (a ∷ addresses) =
    let rest = address_rules name addresses in
    if is_external a.address_type
    then reject_service a.address (codes "node: " ++ name) ∷ rest
    else rest

node_rules : List Node → List Rule
unfolding address_rules
node_rules [] = []
node_rules (node ∷ nodes) = address_rules node.name node.addresses ++ node_rules nodes

module _ (rule : Text → Rule) where
  subset_rules : List Subset → List Rule
  subset_rules [] = []
  subset_rules (s ∷ subsets) = map rule s.addresses ++ subset_rules subsets

abbrev reject_api : Text → Rule
reject_api ip = reject_service ip (codes "kube api service")

abbrev accept_pod : Text → Rule
accept_pod ip = accept_service ip (codes "CoreDNS pod")

abbrev last_rules : Reconciler → List Rule
last_rules r =
    reject_service (codes "10.0.0.0/8") (codes "cluster services")
    ∷ reject_service r.container_subnet (codes "bridge gateway")
    ∷ reject_link_local
    ∷ return_all
    ∷ []

chain : Reconciler → List Node → Endpoints → Service → Endpoints → List Rule
unfolding node_rules subset_rules
chain r nodes kube_api_endpoints core_dns_service core_dns_endpoints =
    accept_established
    ∷ (node_rules nodes
        ++ (subset_rules reject_api kube_api_endpoints.subsets
            ++ (accept_service core_dns_service.cluster_ip (codes "CoreDNS service")
                ∷ (subset_rules accept_pod core_dns_endpoints.subsets ++ last_rules r))))

-- The text around an action is the same for all actions.
service_rule-around :
    (r : Reconciler) (d action c : Text)
    → service_rule r d action c
      ≡ codes "-A WHISK-FIREWALL -i "
        ++ r.container_bridge
        ++ codes " ! -o "
        ++ r.container_bridge
        ++ codes " -d "
        ++ d
        ++ (codes " -j " ++ (action ++ codes " -m comment --comment \""))
        ++ c
        ++ codes "\""
unfolding service_rule
service_rule-around r d action c =
    ap (λ (t : Text). t ++ c ++ codes "\"")
      (append_assoc (upto ++ codes " -j ") action (codes " -m comment --comment \"")
        ∙ append_assoc upto (codes " -j ") (action ++ codes " -m comment --comment \""))
  where
    upto : Text
    upto =
        codes "-A WHISK-FIREWALL -i "
        ++ r.container_bridge
        ++ codes " ! -o "
        ++ r.container_bridge
        ++ codes " -d "
        ++ d

print-reject :
    (r : Reconciler) (d c : Text)
    → print_rule r (reject_service d c) ≡ service_rule r d (codes "REJECT") c
unfolding print_rule
print-reject r d c = sym (service_rule-around r d (codes "REJECT") c)

print-accept :
    (r : Reconciler) (d c : Text)
    → print_rule r (accept_service d c) ≡ service_rule r d (codes "ACCEPT") c
unfolding print_rule
print-accept r d c = sym (service_rule-around r d (codes "ACCEPT") c)

print-link_local : (r : Reconciler) → print_rule r reject_link_local ≡ link_local_rule r
unfolding print_rule link_local_rule
print-link_local r = refl

module _ (r : Reconciler) where
  address_rules-print :
      (name : Text) (addresses : List NodeAddress)
      → map (print_rule r) (address_rules name addresses) ≡ reject_addresses r name addresses
  unfolding address_rules reject_addresses
  address_rules-print name [] = refl
  address_rules-print name (a ∷ addresses) = elim (Bool-cases (is_external a.address_type)) [
    | inr n ↦ rw n (address_rules-print name addresses)
    | inl y ↦
        rw (y, print-reject r a.address (codes "node: " ++ name))
          (ap
            (λ (l : List Text).
              service_rule r a.address (codes "REJECT") (codes "node: " ++ name) ∷ l)
            (address_rules-print name addresses))
  ]

  node_rules-print :
      (nodes : List Node) → map (print_rule r) (node_rules nodes) ≡ reject_nodes r nodes
  unfolding node_rules reject_nodes
  node_rules-print [] = refl
  node_rules-print (node ∷ nodes) =
      rw (map-append, address_rules-print node.name node.addresses, node_rules-print nodes) refl

  module _ (rule : Text → Rule) (action comment : Text)
      (prints : (ip : Text) → print_rule r (rule ip) ≡ service_rule r ip action comment) where
    map-print :
        (ips : List Text)
        → map (print_rule r) (map rule ips) ≡ map (λ ip. service_rule r ip action comment) ips
    map-print [] = refl
    map-print (ip ∷ ips) = rw (prints ip, map-print ips) refl

    subset_rules-print :
        (subsets : List Subset)
        → map (print_rule r) (subset_rules rule subsets) ≡ rule_subsets r action comment subsets
    unfolding subset_rules rule_subsets
    subset_rules-print [] = refl
    subset_rules-print (s ∷ subsets) =
        rw (map-append, map-print s.addresses, subset_rules-print subsets) refl

  chain-print :
      (nodes : List Node) (kube : Endpoints) (dns : Service) (pods : Endpoints)
      → map (print_rule r) (chain r nodes kube dns pods) ≡ whisk_rules r nodes kube dns pods
  unfolding chain whisk_rules print_rule
  chain-print nodes kube dns pods =
      rw
        (
          map-append (print_rule r),
          map-append (print_rule r),
          map-append (print_rule r),
          print-accept r dns.cluster_ip (codes "CoreDNS service"),
          print-reject r (codes "10.0.0.0/8") (codes "cluster services"),
          print-reject r r.container_subnet (codes "bridge gateway"),
          print-link_local r,
          node_rules-print nodes,
          subset_rules-print reject_api (codes "REJECT") (codes "kube api service")
              (λ ip. print-reject r ip (codes "kube api service")) kube.subsets,
          subset_rules-print accept_pod (codes "ACCEPT") (codes "CoreDNS pod")
              (λ ip. print-accept r ip (codes "CoreDNS pod")) pods.subsets,
        )
        refl

module _ (p : Packet) (rest : List Rule) where
  address_rules-verdict :
      (name : Text) (addresses : List NodeAddress)
      → verdict p (address_rules name addresses ++ rest)
        ≡ (if is_leaving p && to_public p addresses then rejected else verdict p rest)
  unfolding address_rules verdict to_public
  address_rules-verdict name [] = ground arith
  address_rules-verdict name (a ∷ addresses) = ground (arith, address_rules-verdict name addresses)

module _ (p : Packet) where
  node_rules-verdict :
      (nodes : List Node) (rest : List Rule)
      → verdict p (node_rules nodes ++ rest)
        ≡ (if is_leaving p && to_node p nodes then rejected else verdict p rest)
  unfolding node_rules to_node
  node_rules-verdict [] rest = ground arith
  node_rules-verdict (node ∷ nodes) rest =
      rw (append_assoc (address_rules node.name node.addresses) (node_rules nodes) rest) (
        ground (
          arith,
          address_rules-verdict p (node_rules nodes ++ rest) node.name node.addresses,
          node_rules-verdict nodes rest,
        ))

  module _ (rule : Text → Rule) (outcome : Verdict)
      (decides : (ip : Text) (rest : List Rule)
        → verdict p (rule ip ∷ rest)
          ≡ (if is_leaving p && p.goes_to ip then outcome else verdict p rest)) where
    map-verdict :
        (ips : List Text) (rest : List Rule)
        → verdict p (map rule ips ++ rest)
          ≡ (if is_leaving p && to_one_of p ips then outcome else verdict p rest)
    unfolding to_one_of
    map-verdict [] rest = ground arith
    map-verdict (ip ∷ ips) rest =
        ground (arith, decides ip (map rule ips ++ rest), map-verdict ips rest)

    subset_rules-verdict :
        (subsets : List Subset) (rest : List Rule)
        → verdict p (subset_rules rule subsets ++ rest)
          ≡ (if is_leaving p && to_subsets p subsets then outcome else verdict p rest)
    unfolding subset_rules to_subsets
    subset_rules-verdict [] rest = ground arith
    subset_rules-verdict (s ∷ subsets) rest =
        rw (append_assoc (map rule s.addresses) (subset_rules rule subsets) rest) (
          ground (
            arith,
            map-verdict s.addresses (subset_rules rule subsets ++ rest),
            subset_rules-verdict subsets rest,
          ))

chain-verdict :
    (r : Reconciler) (nodes : List Node) (kube : Endpoints) (dns : Service) (pods : Endpoints)
    (p : Packet)
    → verdict p (chain r nodes kube dns pods) ≡ policy r nodes kube dns pods p
unfolding chain policy verdict
chain-verdict r nodes kube dns pods p =
    let accepts : List Rule = subset_rules accept_pod pods.subsets ++ last_rules r in
    let after : List Rule = accept_service dns.cluster_ip (codes "CoreDNS service") ∷ accepts in
    rw
      (
        node_rules-verdict p nodes (subset_rules reject_api kube.subsets ++ after),
        subset_rules-verdict p reject_api rejected (λ ip rest. refl) kube.subsets after,
        subset_rules-verdict p accept_pod accepted (λ ip rest. refl) pods.subsets (last_rules r),
      )
      (ground arith)

-- The texts that the reconciler writes for the chain WHISK-FIREWALL are those of a list of rules, and
-- for every packet the first of these rules that matches it decides as the policy says.
pub whisk_rules-Policy :
    (r : Reconciler) (nodes : List Node) (kube : Endpoints) (dns : Service) (pods : Endpoints)
    → (rules : List Rule) × (whisk_rules r nodes kube dns pods ≡ map (print_rule r) rules)
      × ((p : Packet) → verdict p rules ≡ policy r nodes kube dns pods p)
whisk_rules-Policy r nodes kube dns pods = (
  chain r nodes kube dns pods,
  sym (chain-print r nodes kube dns pods),
  chain-verdict r nodes kube dns pods,
)
