-- ===== src/Firewall/Table.antt =====
-- The table that the firewall is brought to (`reconcile` and `serviceRule` of
-- pkg/firewall/firewall.go), line by line. The lines of the current table are those that the scanner
-- returns. The warnings about the order of rules, which are only logged, are left out.
use functions_invoker.Base.{
  has_prefix, Bool, true, false, not, ◌||◌, ◌&&◌, List, [], ◌∷◌, ◌++◌, if◌then◌else◌, nat_eq, codes,
  codes_eq, map,
}
use functions_invoker.Entities.{Text}

abbrev pub firewall_chain : Text
firewall_chain = codes ":WHISK-FIREWALL - [0:0]"

abbrev pub per_container_chain : Text
per_container_chain = codes ":PER-CONTAINER-FIREWALL - [0:0]"

abbrev pub per_container_forward_rule : Text
per_container_forward_rule = codes "-A FORWARD -j PER-CONTAINER-FIREWALL"

abbrev pub firewall_forward_rule : Text
firewall_forward_rule = codes "-A FORWARD -j WHISK-FIREWALL"

abbrev pub firewall_input_rule : Text
firewall_input_rule = codes "-A INPUT -j WHISK-FIREWALL"

-- The cluster's objects, with the parts that the firewall reads and, as one text, the others.
pub data AddressType : Type 0 where
  external_ip other_address : AddressType

abbrev pub is_external : AddressType → Bool
is_external external_ip = true
is_external other_address = false

pub record NodeAddress : Type 0 where
  pub address_type : AddressType
  pub address : Text

pub record Node : Type 0 where
  pub name : Text
  pub addresses : List NodeAddress
  pub others : Text

pub record Service : Type 0 where
  pub namespace : Text
  pub name : Text
  pub cluster_ip : Text
  pub others : Text

pub record Subset : Type 0 where
  pub addresses : List Text
  pub others : Text

pub record Endpoints : Type 0 where
  pub namespace : Text
  pub name : Text
  pub subsets : List Subset
  pub others : Text

pub record Reconciler : Type 0 where
  pub container_subnet : Text
  pub container_bridge : Text

-- `strings.Join`.
unfoldable pub join : Text → List Text → Text
join separator [] = []
join separator (text ∷ []) = text
join separator (text ∷ other ∷ rest) = text ++ separator ++ join separator (other ∷ rest)

-- `bufio.ScanLines` removes a carriage return at the end of a line.
unfoldable pub drop_cr : Text → Text
drop_cr [] = []
drop_cr (c ∷ []) = if nat_eq c b'\r' then [] else c ∷ []
drop_cr (c ∷ d ∷ line) = c ∷ drop_cr (d ∷ line)

-- The lines of a text, behind the bytes of a line that has begun. The scanner's buffer holds lines of
-- less than 64 KB, which the lines of a table are.
unfoldable pub lines_from : Text → Text → List Text
unfolding drop_cr
lines_from [] [] = []
lines_from (b ∷ begun) [] = drop_cr (b ∷ begun) ∷ []
lines_from begun (c ∷ rest) = elim (nat_eq c b'\n') [
  | true ↦ drop_cr begun ∷ lines_from [] rest
  | false ↦ lines_from (begun ++ c ∷ []) rest
]

abbrev pub scan_lines : Text → List Text
scan_lines text = lines_from [] text

-- Chain lines and rules.
unfoldable pub is_chain_or_rule : Text → Bool
unfolding has_prefix
is_chain_or_rule line =
    has_prefix line (codes "*") || has_prefix line (codes ":") || has_prefix line (codes "-")

-- The rules that are removed, to be added again.
unfoldable pub is_own_rule : Text → Bool
unfolding has_prefix
is_own_rule line =
    has_prefix line (codes "-A WHISK-FIREWALL")
    || has_prefix line firewall_forward_rule
    || has_prefix line per_container_forward_rule
    || has_prefix line firewall_input_rule

-- What the loop over the current table has found.
pub record Scanned : Type 0 where
  pub contains_firewall_chain : Bool
  pub contains_per_container_chain : Bool
  pub rules : List Text

-- One round of the loop.
unfoldable pub scan_line : Scanned → Text → Scanned
unfolding is_chain_or_rule is_own_rule has_prefix
scan_line found line =
    if not (is_chain_or_rule line)
    then found
    else if codes_eq line firewall_chain
    then record found { contains_firewall_chain = true; rules = found.rules ++ line ∷ [] }
    else if codes_eq line per_container_chain
    then record found { contains_per_container_chain = true; rules = found.rules ++ line ∷ [] }
    else if has_prefix line (codes "-A") && is_own_rule line
    then found
    else record found { rules = found.rules ++ line ∷ [] }

unfoldable pub scan : Scanned → List Text → Scanned
unfolding scan_line
scan found [] = found
scan found (line ∷ lines) = scan (scan_line found line) lines

abbrev pub nothing_found : Scanned
nothing_found = record {
  contains_firewall_chain = false;
  contains_per_container_chain = false;
  rules = [];
}

unfoldable pub service_rule : Reconciler → Text → Text → Text → Text
service_rule r destination action comment =
    codes "-A WHISK-FIREWALL -i "
    ++ r.container_bridge
    ++ codes " ! -o "
    ++ r.container_bridge
    ++ codes " -d "
    ++ destination
    ++ codes " -j "
    ++ action
    ++ codes " -m comment --comment \""
    ++ comment
    ++ codes "\""

unfoldable pub link_local_rule : Reconciler → Text
link_local_rule r =
    codes "-A WHISK-FIREWALL -i "
    ++ r.container_bridge
    ++ codes " ! -o "
    ++ r.container_bridge
    ++ codes " -s "
    ++ r.container_subnet
    ++ codes " -d 169.254.0.0/16 -j REJECT -m comment --comment \"link local subnet\""

-- The loop over the addresses of a node.
unfoldable pub reject_addresses : Reconciler → Text → List NodeAddress → List Text
unfolding service_rule
reject_addresses r name [] = []
reject_addresses r name (a ∷ addresses) =
    let rest = reject_addresses r name addresses in
    if is_external a.address_type
    then service_rule r a.address (codes "REJECT") (codes "node: " ++ name) ∷ rest
    else rest

unfoldable pub reject_nodes : Reconciler → List Node → List Text
unfolding reject_addresses
reject_nodes r [] = []
reject_nodes r (node ∷ nodes) = reject_addresses r node.name node.addresses ++ reject_nodes r nodes

-- The loop over the addresses of all subsets.
unfoldable pub rule_subsets : Reconciler → Text → Text → List Subset → List Text
unfolding service_rule
rule_subsets r action comment [] = []
rule_subsets r action comment (s ∷ subsets) =
    map (λ ip. service_rule r ip action comment) s.addresses
    ++ rule_subsets r action comment subsets

abbrev pub missing_chain : Bool → Text → List Text
missing_chain contained line = if contained then [] else line ∷ []

abbrev pub insertions : List Text
insertions =
    codes "-I FORWARD -j WHISK-FIREWALL"
    ∷ codes "-I FORWARD -j PER-CONTAINER-FIREWALL"
    ∷ codes "-I INPUT -j WHISK-FIREWALL"
    ∷ []

-- The rules of the chain WHISK-FIREWALL.
unfoldable pub whisk_rules : Reconciler → List Node → Endpoints → Service → Endpoints → List Text
unfolding service_rule link_local_rule reject_nodes rule_subsets
whisk_rules r nodes kube_api_endpoints core_dns_service core_dns_endpoints =
    codes "-A WHISK-FIREWALL -m conntrack --ctstate ESTABLISHED -j ACCEPT"
    ∷ (reject_nodes r nodes
        ++ (rule_subsets r (codes "REJECT") (codes "kube api service") kube_api_endpoints.subsets
            ++ (service_rule r core_dns_service.cluster_ip (codes "ACCEPT")
                  (codes "CoreDNS service")
                ∷ (rule_subsets r (codes "ACCEPT") (codes "CoreDNS pod") core_dns_endpoints.subsets
                    ++ (service_rule r (codes "10.0.0.0/8") (codes "REJECT")
                          (codes "cluster services")
                        ∷ service_rule r r.container_subnet (codes "REJECT")
                            (codes "bridge gateway")
                        ∷ link_local_rule r
                        ∷ codes "-A WHISK-FIREWALL -j RETURN"
                        ∷ [])))))

-- The lines of the new table.
unfoldable pub table_lines :
    Reconciler → List Text → List Node → Endpoints → Service → Endpoints → List Text
unfolding scan whisk_rules
table_lines r current nodes kube_api_endpoints core_dns_service core_dns_endpoints =
    let found = scan nothing_found current in
    found.rules
    ++ (missing_chain found.contains_firewall_chain firewall_chain
        ++ (missing_chain found.contains_per_container_chain per_container_chain
            ++ (insertions
                ++ (whisk_rules r nodes kube_api_endpoints core_dns_service core_dns_endpoints
                    ++ (codes "COMMIT" ∷ [])))))

unfoldable pub reconcile :
    Reconciler → List Text → List Node → Endpoints → Service → Endpoints → Text
unfolding table_lines join
reconcile r current nodes kube_api_endpoints core_dns_service core_dns_endpoints =
    join (codes "\n")
      (table_lines r current nodes kube_api_endpoints core_dns_service core_dns_endpoints)
    ++ codes "\n"
