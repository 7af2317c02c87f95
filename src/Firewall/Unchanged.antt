-- ===== src/Firewall/Unchanged.antt =====
-- What the filter of events leaves out does not matter (pkg/firewall/events.go and
-- pkg/firewall/firewall.go).
use mathlib.Core.Option.{map as option_map}
use functions_invoker.Base.{
  arith, both, codes_eq-same, not, ℕ, inr, ◌⊎◌, refl, sym, ap, inl, true, Bool, false, ◌&&◌, List,
  [], ◌≡◌, some, Fallible, fine, erred,
}
use functions_invoker.Entities.{Text}
use functions_invoker.Firewall.Exec.{get_state}
use functions_invoker.Firewall.Table.{
  whisk_rules, table_lines, reconcile, Reconciler, reject_nodes, Service, Endpoints,
}
use functions_invoker.Firewall.Reconciling.{
  with_inputs, with_state, Inputs, TableAnswers, read_inputs, run_reconcile, kube_api_name,
  kube_api_namespace, core_dns_name, new_table, core_dns_namespace,
}
use functions_invoker.Firewall.Events.{
  DeepEqual, Event, notifies, add_func, update_func, delete_func, is_relevant, is_relevant_service,
  is_relevant_endpoints,
}
use functions_invoker.Firewall.Watching.{
  Cluster, find_first, service_named, endpoints_named, listers, Happens, IsSound, node_added,
  node_updated, node_deleted, service_added, service_updated, service_deleted, endpoints_added,
  endpoints_updated, endpoints_deleted,
}
use functions_invoker.Firewall.Finding.{
  find_first-insert, find_first-replace, find_first-passes, map-agree, nodes_agree,
}

-- What a reconciliation depends on.
Agree : Reconciler → Cluster → Cluster → Type 0
Agree r c d =
    (reject_nodes r c.nodes ≡ reject_nodes r d.nodes)
    × (option_map Service.cluster_ip
          (find_first (service_named core_dns_namespace core_dns_name) c.services)
        ≡ option_map Service.cluster_ip
            (find_first (service_named core_dns_namespace core_dns_name) d.services))
    × (option_map Endpoints.subsets
          (find_first (endpoints_named kube_api_namespace kube_api_name) c.all_endpoints)
        ≡ option_map Endpoints.subsets
            (find_first (endpoints_named kube_api_namespace kube_api_name) d.all_endpoints))
    × (option_map Endpoints.subsets
          (find_first (endpoints_named core_dns_namespace core_dns_name) c.all_endpoints)
        ≡ option_map Endpoints.subsets
            (find_first (endpoints_named core_dns_namespace core_dns_name) d.all_endpoints))

service_found :
    (services : List Service) (svc : Service)
    → find_first (service_named core_dns_namespace core_dns_name) services ≡ some svc
    → (svc.namespace ≡ core_dns_namespace) × (svc.name ≡ core_dns_name)
service_found services svc h =
    let (space, name) = both _ _ (find_first-passes _ Service.cluster_ip services svc h) in
    (codes_eq-same _ _ space, codes_eq-same _ _ name)

-- Inputs with the same relevant parts.
abbrev Same : Reconciler → Inputs → Inputs → Type 0
Same r i j =
    (reject_nodes r i.nodes ≡ reject_nodes r j.nodes)
    × (i.kube_api_endpoints.subsets ≡ j.kube_api_endpoints.subsets)
    × (i.core_dns_service.cluster_ip ≡ j.core_dns_service.cluster_ip)
    × (i.core_dns_endpoints.subsets ≡ j.core_dns_endpoints.subsets)

module _ (decimal : ℕ → Text) (r : Reconciler) (w : TableAnswers) where
  new_table-Same :
      (current : Text) (i j : Inputs) → Same r i j → new_table r current i ≡ new_table r current j
  unfolding new_table reconcile table_lines whisk_rules
  new_table-Same current i j (n, k, s, e) = rw (n, k, s, e) refl

  with_state-Same :
      (i j : Inputs) (state : Fallible Text)
      → Same r i j
      → with_state decimal r w i state ≡ with_state decimal r w j state
  unfolding with_state
  with_state-Same i j (erred error) same = refl
  with_state-Same i j (fine current) same = rw (new_table-Same current i j same) refl

  -- Both fail in the same way, or both give the same relevant parts.
  Alike : Fallible Inputs → Fallible Inputs → Type 0
  Alike (erred e) (erred f) = e ≡ f
  Alike (fine i) (fine j) = Same r i j
  Alike (erred e) (fine j) = ⊥
  Alike (fine i) (erred f) = ⊥

  with_inputs-Alike :
      (a b : Fallible Inputs) → Alike a b → with_inputs decimal r w a ≡ with_inputs decimal r w b
  unfolding with_inputs Alike
  with_inputs-Alike (erred e) (erred f) same = ap (λ (t : Text). ([], erred t)) same
  with_inputs-Alike (fine i) (fine j) same = with_state-Same i j (get_state decimal w.saving) same
  with_inputs-Alike (erred e) (fine j) same = absurd same
  with_inputs-Alike (fine i) (erred f) same = absurd same

  module _ (not_found : Text → Text → Text) (c d : Cluster) where
    read_inputs-Agree :
        Agree r c d → Alike (read_inputs (listers not_found c)) (read_inputs (listers not_found d))
    unfolding Agree Alike read_inputs listers
    read_inputs-Agree (n, s, k, e) =
        elim (map-agree (endpoints_named kube_api_namespace kube_api_name) Endpoints.subsets _ _
          k) [
            | inl none_there ↦ rw (none_there.0, none_there.1) refl
            | inr kube ↦
                elim (map-agree (service_named core_dns_namespace core_dns_name) Service.cluster_ip
                  _ _ s) [
                    | inl none_there ↦ rw (kube.2, kube.3, none_there.0, none_there.1) refl
                    | inr dns ↦
                        let mine = service_found c.services dns.0 dns.2 in
                        let yours = service_found d.services dns.1 dns.3 in
                        rw (kube.2, kube.3, dns.2, dns.3, mine.0, mine.1, yours.0, yours.1)
                          (elim (map-agree (endpoints_named core_dns_namespace core_dns_name)
                            Endpoints.subsets _ _ e) [
                              | inl none_there ↦ rw (none_there.0, none_there.1) refl
                              | inr pods ↦ rw (pods.2, pods.3) (n, kube.4, dns.4, pods.4)
                            ])
                  ]
          ]

    run_reconcile-Agree :
        Agree r c d
        → run_reconcile decimal r (listers not_found c) w
          ≡ run_reconcile decimal r (listers not_found d) w
    unfolding run_reconcile
    run_reconcile-Agree same =
        with_inputs-Alike (read_inputs (listers not_found c)) (read_inputs (listers not_found d))
          (read_inputs-Agree same)

irrelevant_endpoints :
    (eps : Endpoints)
    → is_relevant_endpoints eps ≡ false
    → (endpoints_named kube_api_namespace kube_api_name eps ≡ false)
      × (endpoints_named core_dns_namespace core_dns_name eps ≡ false)
unfolding is_relevant_endpoints
irrelevant_endpoints eps h = ground arith

relevant_endpoints :
    (eps : Endpoints)
    → (endpoints_named kube_api_namespace kube_api_name eps ≡ true)
      ⊎ (endpoints_named core_dns_namespace core_dns_name eps ≡ true)
    → is_relevant_endpoints eps ≡ true
unfolding is_relevant_endpoints
relevant_endpoints eps h = ground arith

-- A change that passes no relevance test, or in which the compared parts are the same.
unchanged : (b same : Bool) → (b && not same) ≡ false → b ≡ true → same ≡ true
unchanged true true h t = refl
unchanged true false h t = cc
unchanged false same h t = cc

Happens-Agree :
    (r : Reconciler) (e : DeepEqual) (ev : Event) (c d : Cluster)
    → IsSound e
    → Happens ev c d
    → notifies e ev ≡ false
    → Agree r c d
unfolding Agree notifies add_func update_func delete_func is_relevant is_relevant_service
Happens-Agree r e _ _ _ sound (node_added before after n svcs epss) quiet = cc
Happens-Agree r e _ _ _ sound (node_updated before after old changed svcs epss same) quiet = (
  nodes_agree r before after old changed same
      (sound.0 old.addresses changed.addresses (unchanged true _ quiet refl)),
  refl,
  refl,
  refl,
)
Happens-Agree r e _ _ _ sound (node_deleted before after n svcs epss) quiet = cc
Happens-Agree r e _ _ _ sound (service_added before after svc ns epss) quiet = (
  refl,
  ap (option_map Service.cluster_ip)
      (sym (find_first-insert _ Service.cluster_ip before after svc quiet)),
  refl,
  refl,
)
Happens-Agree r e _ _ _ sound (service_updated before after old changed ns epss space name) quiet =
    (
      refl,
      find_first-replace _ Service.cluster_ip before after old changed (rw (space, name) refl)
          (λ relevant. codes_eq-same _ _ (unchanged _ _ quiet relevant)),
      refl,
      refl,
    )
Happens-Agree r e _ _ _ sound (service_deleted before after svc ns epss) quiet = (
  refl,
  ap (option_map Service.cluster_ip)
      (find_first-insert _ Service.cluster_ip before after svc quiet),
  refl,
  refl,
)
Happens-Agree r e _ _ _ sound (endpoints_added before after eps ns svcs) quiet =
    let (kube, dns) = irrelevant_endpoints eps quiet in
    (
      refl,
      refl,
      ap (option_map Endpoints.subsets)
          (sym (find_first-insert _ Endpoints.subsets before after eps kube)),
      ap (option_map Endpoints.subsets)
          (sym (find_first-insert _ Endpoints.subsets before after eps dns)),
    )
Happens-Agree r e _ _ _ sound (endpoints_updated before after old changed ns svcs space name)
      quiet =
    (
      refl,
      refl,
      find_first-replace _ Endpoints.subsets before after old changed (rw (space, name) refl)
          (λ k. sound.1 _ _ (unchanged _ _ quiet (relevant_endpoints changed (inl k)))),
      find_first-replace _ Endpoints.subsets before after old changed (rw (space, name) refl)
          (λ k. sound.1 _ _ (unchanged _ _ quiet (relevant_endpoints changed (inr k)))),
    )
Happens-Agree r e _ _ _ sound (endpoints_deleted before after eps ns svcs) quiet =
    let (kube, dns) = irrelevant_endpoints eps quiet in
    (
      refl,
      refl,
      ap (option_map Endpoints.subsets)
          (find_first-insert _ Endpoints.subsets before after eps kube),
      ap (option_map Endpoints.subsets)
          (find_first-insert _ Endpoints.subsets before after eps dns),
    )

-- An event, other than of the initial list, after which the handlers do not ask for a reconciliation changes nothing about it: for the
-- cluster before and the cluster after the event, a reconciliation runs the same commands with the
-- same inputs and ends in the same way. This holds whatever the commands answer, if objects that
-- `DeepEqual` calls equal are equal.
pub run_reconcile-unchanged :
    (decimal : ℕ → Text) (not_found : Text → Text → Text) (r : Reconciler) (w : TableAnswers)
    (e : DeepEqual) (ev : Event) (c d : Cluster)
    → IsSound e
    → Happens ev c d
    → notifies e ev ≡ false
    → run_reconcile decimal r (listers not_found c) w
      ≡ run_reconcile decimal r (listers not_found d) w
run_reconcile-unchanged decimal not_found r w e ev c d sound happens quiet =
    run_reconcile-Agree decimal r w not_found c d (Happens-Agree r e ev c d sound happens quiet)
