-- ===== src/Firewall/Tests.antt =====
-- The theorems of the firewall at concrete inputs, and tests of the table.
use functions_invoker.Base.{
  inl, inr, ◌+◌, ◌||◌, Bool, true, false, ◌&&◌, List, [], ◌∷◌, ◌++◌, ◌≡◌, ◌↔◌, refl, codes,
  codes_eq, map, fine, ℕ, both, codes_eq-same,
}
use functions_invoker.Entities.{Text}
use functions_invoker.Firewall.Table.{
  is_own_rule, is_chain_or_rule, Reconciler, Node, NodeAddress, Service, Endpoints, Subset,
  AddressType, external_ip, other_address, whisk_rules, table_lines, reconcile, firewall_chain,
  per_container_chain,
}
use functions_invoker.Firewall.Verdicts.{
  to_one_of, to_subsets, to_public, to_node, Packet, Rule, print_rule, verdict, policy, accepted,
}
use functions_invoker.Firewall.Policy.{whisk_rules-Policy}
use functions_invoker.Firewall.Kept.{select, contains, front}
use functions_invoker.Firewall.Managed.{
  is_chain_or_rule_iff, IsIgnored, Differ, ended, both_have, one_has, other_has, Keeps, Missing,
  from_input, from_forward_container,
}
use functions_invoker.Firewall.Rebuilt.{table_lines-Rebuilt, reconcile-Differ}
use functions_invoker.Firewall.Exec.{ExecAnswers, exec}
use functions_invoker.Firewall.Reconciling.{
  TableAnswers, run_reconcile, core_dns_namespace, core_dns_name, kube_api_namespace, kube_api_name,
}
use functions_invoker.Firewall.Events.{DeepEqual, updates, node, notifies, update_func}
use functions_invoker.Firewall.Watching.{Cluster, listers, node_updated}
use functions_invoker.Firewall.Unchanged.{run_reconcile-unchanged}
use functions_invoker.Firewall.Ending.{Works, exec_iff}

abbrev bridge : Reconciler
bridge = record { container_subnet = codes "172.18.0.0/16"; container_bridge = codes "functions" }

abbrev internal : NodeAddress
internal = record { address_type = other_address; address = codes "10.1.2.3" }

abbrev public_address : NodeAddress
public_address = record { address_type = external_ip; address = codes "1.2.3.4" }

abbrev first_node : Node
first_node = record {
  name = codes "first";
  addresses = internal ∷ public_address ∷ [];
  others = codes "v1";
}

abbrev heartbeat : Node
heartbeat = record {
  name = codes "first";
  addresses = internal ∷ public_address ∷ [];
  others = codes "v2";
}

abbrev kube : Endpoints
kube = record {
  namespace = kube_api_namespace;
  name = kube_api_name;
  subsets = record { addresses = codes "5.6.7.8" ∷ []; others = [] } ∷ [];
  others = [];
}

abbrev dns : Service
dns = record {
  namespace = core_dns_namespace;
  name = core_dns_name;
  cluster_ip = codes "10.245.0.10";
  others = [];
}

abbrev pods : Endpoints
pods = record {
  namespace = core_dns_namespace;
  name = core_dns_name;
  subsets = record { addresses = codes "10.2.2.2" ∷ codes "10.2.2.3" ∷ []; others = [] } ∷ [];
  others = [];
}

-- A new connection from a container to the DNS service, which is inside the cluster's network.
abbrev query : Packet
query = record {
  is_established = false;
  in_bridge = true;
  out_bridge = false;
  from_subnet = true;
  goes_to = λ d. codes_eq d (codes "10.245.0.10") || codes_eq d (codes "10.0.0.0/8");
}

query_accepted : policy bridge (first_node ∷ []) kube dns pods query ≡ accepted
unfolding policy to_node to_public to_subsets to_one_of codes_eq
query_accepted = refl

whisk_rules-Policy_example :
    (rules : List Rule) × (whisk_rules bridge (first_node ∷ []) kube dns pods
      ≡ map (print_rule bridge) rules)
    × ((p : Packet) → verdict p rules ≡ policy bridge (first_node ∷ []) kube dns pods p)
whisk_rules-Policy_example = whisk_rules-Policy bridge (first_node ∷ []) kube dns pods

-- A saved table with a comment, a rule of another program, one of the chains, and an own rule that is
-- not the first of its chain.
abbrev saved : List Text
saved =
    codes "# Generated by iptables-save"
    ∷ codes "*filter"
    ∷ codes ":INPUT ACCEPT [0:0]"
    ∷ firewall_chain
    ∷ codes "-A INPUT -j KUBE-FIREWALL"
    ∷ codes "-A INPUT -j WHISK-FIREWALL"
    ∷ codes "-A WHISK-FIREWALL -j RETURN"
    ∷ codes "COMMIT"
    ∷ []

front-saved :
    front saved
    ≡ codes "*filter"
      ∷ codes ":INPUT ACCEPT [0:0]"
      ∷ firewall_chain
      ∷ codes "-A INPUT -j KUBE-FIREWALL"
      ∷ per_container_chain
      ∷ []
unfolding select contains is_chain_or_rule is_own_rule codes_eq
front-saved = refl

table_lines-Rebuilt_example :
    (kept : List Text) × (first : List Text) × (second : List Text) × Keeps saved kept
    × Missing (codes ":WHISK-FIREWALL - [0:0]") saved first
    × Missing (codes ":PER-CONTAINER-FIREWALL - [0:0]") saved second
    × (table_lines bridge saved (first_node ∷ []) kube dns pods
        ≡ kept
          ++ (first ++ second)
          ++ (codes "-I FORWARD -j WHISK-FIREWALL"
              ∷ codes "-I FORWARD -j PER-CONTAINER-FIREWALL"
              ∷ codes "-I INPUT -j WHISK-FIREWALL"
              ∷ (whisk_rules bridge (first_node ∷ []) kube dns pods ++ (codes "COMMIT" ∷ []))))
table_lines-Rebuilt_example = table_lines-Rebuilt bridge saved (first_node ∷ []) kube dns pods

-- The same table without the comment, and with two own rules in other places and one more.
abbrev saved_again : List Text
saved_again =
    codes "*filter"
    ∷ codes ":INPUT ACCEPT [0:0]"
    ∷ firewall_chain
    ∷ codes "-A INPUT -j WHISK-FIREWALL"
    ∷ codes "-A INPUT -j KUBE-FIREWALL"
    ∷ codes "-A FORWARD -j PER-CONTAINER-FIREWALL"
    ∷ codes "-A WHISK-FIREWALL -j RETURN"
    ∷ codes "COMMIT"
    ∷ []

no_table_line : is_chain_or_rule (codes "# Generated by iptables-save") ≡ false
unfolding is_chain_or_rule
no_table_line = refl

not_true : (b : Bool) → b ≡ false → b ≡ true → ⊥
not_true b n y = cc

comment-IsIgnored : IsIgnored (codes "# Generated by iptables-save")
comment-IsIgnored = inl (λ t.
    not_true (is_chain_or_rule (codes "# Generated by iptables-save")) no_table_line
      ((is_chain_or_rule_iff (codes "# Generated by iptables-save")).1 t))

own_only : Differ saved_again saved
own_only = other_has comment-IsIgnored (
    both_have (
      both_have (
        both_have (
          one_has (inr (from_input ([], refl))) (
            both_have (
              one_has (inr (from_forward_container ([], refl)))
                (other_has (inr (from_input ([], refl))) (both_have (both_have ended)))))))))

reconcile-Differ_example :
    reconcile bridge saved_again (first_node ∷ []) kube dns pods
    ≡ reconcile bridge saved (first_node ∷ []) kube dns pods
reconcile-Differ_example =
    reconcile-Differ bridge saved saved_again (first_node ∷ []) kube dns pods own_only

abbrev answers : ExecAnswers
answers = record {
  created = fine tt;
  attached = fine tt;
  written = fine tt;
  closed = fine tt;
  copied = fine tt;
  stdout = codes "*filter\nCOMMIT\n";
  stderr = [];
  inspected = fine 0;
}

abbrev table_answers : TableAnswers
table_answers = record { saving = answers; restoring = answers }

abbrev small : ℕ → Text
small n = (b'0' + n) ∷ []

abbrev unknown_object : Text → Text → Text
unknown_object namespace name = name ++ codes " not found"

-- Equality of lists of node addresses and of subsets, element by element.
module _ {A : Type 0} (same : A → A → Bool) (sound : (a b : A) → same a b ≡ true → a ≡ b) where
  all_same : List A → List A → Bool
  all_same [] [] = true
  all_same (x ∷ xs) (y ∷ ys) = same x y && all_same xs ys
  all_same [] (y ∷ ys) = false
  all_same (x ∷ xs) [] = false

  all_same_sound : (xs ys : List A) → all_same xs ys ≡ true → xs ≡ ys
  unfolding all_same
  all_same_sound [] [] h = refl
  all_same_sound (x ∷ xs) (y ∷ ys) h =
      let (a, b) = both (same x y) (all_same xs ys) h in
      rw (sound x y a, all_same_sound xs ys b) refl
  all_same_sound [] (y ∷ ys) h = cc
  all_same_sound (x ∷ xs) [] h = cc

same_type : AddressType → AddressType → Bool
same_type external_ip external_ip = true
same_type other_address other_address = true
same_type external_ip other_address = false
same_type other_address external_ip = false

same_type_sound : (a b : AddressType) → same_type a b ≡ true → a ≡ b
unfolding same_type
same_type_sound external_ip external_ip h = refl
same_type_sound other_address other_address h = refl
same_type_sound external_ip other_address h = cc
same_type_sound other_address external_ip h = cc

same_address : NodeAddress → NodeAddress → Bool
unfolding same_type
same_address a b = same_type a.address_type b.address_type && codes_eq a.address b.address

same_address_sound : (a b : NodeAddress) → same_address a b ≡ true → a ≡ b
unfolding same_address
same_address_sound a b h =
    let (types, addresses) = both (same_type a.address_type b.address_type) _ h in
    λ i. record {
      address_type = same_type_sound a.address_type b.address_type types i;
      address = codes_eq-same a.address b.address addresses i;
    }

same_subset : Subset → Subset → Bool
unfolding all_same
same_subset a b =
    all_same codes_eq codes_eq-same a.addresses b.addresses && codes_eq a.others b.others

same_subset_sound : (a b : Subset) → same_subset a b ≡ true → a ≡ b
unfolding same_subset
same_subset_sound a b h =
    let (addresses, others) = both (all_same codes_eq codes_eq-same a.addresses b.addresses) _ h in
    λ i. record {
      addresses = all_same_sound codes_eq codes_eq-same a.addresses b.addresses addresses i;
      others = codes_eq-same a.others b.others others i;
    }

abbrev element_by_element : DeepEqual
element_by_element = record {
  same_addresses = all_same same_address same_address_sound;
  same_subsets = all_same same_subset same_subset_sound;
}

-- A node's heartbeat is no reason to reconcile.
heartbeat_quiet : notifies element_by_element (updates (node first_node) (node heartbeat)) ≡ false
unfolding notifies update_func all_same same_address codes_eq
heartbeat_quiet = refl

abbrev cluster : Node → Cluster
cluster n = record { nodes = n ∷ []; services = dns ∷ []; all_endpoints = kube ∷ pods ∷ [] }

exec_iff_example :
    (exec small answers [] ≡ fine (codes "*filter\nCOMMIT\n"))
    ↔ (Works answers [] × (codes "*filter\nCOMMIT\n" ≡ answers.stdout))
exec_iff_example = exec_iff small answers [] (codes "*filter\nCOMMIT\n")

run_reconcile-unchanged_example :
    run_reconcile small bridge (listers unknown_object (cluster first_node)) table_answers
    ≡ run_reconcile small bridge (listers unknown_object (cluster heartbeat)) table_answers
run_reconcile-unchanged_example =
    run_reconcile-unchanged small unknown_object bridge table_answers element_by_element
      (updates (node first_node) (node heartbeat)) (cluster first_node) (cluster heartbeat)
      (all_same_sound same_address same_address_sound, all_same_sound same_subset same_subset_sound)
      (node_updated [] [] first_node heartbeat (dns ∷ []) (kube ∷ pods ∷ []) refl) heartbeat_quiet
