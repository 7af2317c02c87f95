-- ===== src/Firewall/Watching.antt =====
-- The cluster that the informers watch, and the events about it (pkg/firewall/events.go and
-- pkg/firewall/firewall.go).
use functions_invoker.Base.{
  true, Bool, false, ◌&&◌, List, [], ◌∷◌, ◌++◌, ◌≡◌, if◌then◌else◌, codes_eq, Option, none, some,
  Fallible, fine, erred,
}
use functions_invoker.Entities.{Text}
use functions_invoker.Firewall.Table.{Subset, NodeAddress, Node, Service, Endpoints}
use functions_invoker.Firewall.Reconciling.{Listers}
use functions_invoker.Firewall.Events.{
  DeepEqual, node, service, endpoints, Event, adds, updates, deletes,
}

-- The objects of the cluster, as the informers know them.
pub record Cluster : Type 0 where
  pub nodes : List Node
  pub services : List Service
  pub all_endpoints : List Endpoints

abbrev pub is_named : Text → Text → Text → Text → Bool
is_named namespace name other_namespace other_name =
    codes_eq other_namespace namespace && codes_eq other_name name

-- The first element that passes a test.
unfoldable pub find_first {ℓ} : {A : Type ℓ} → (A → Bool) → List A → Option A
find_first p [] = none
find_first p (x ∷ xs) = if p x then some x else find_first p xs

abbrev pub service_named : Text → Text → Service → Bool
service_named namespace name svc = is_named namespace name svc.namespace svc.name

abbrev pub endpoints_named : Text → Text → Endpoints → Bool
endpoints_named namespace name eps = is_named namespace name eps.namespace eps.name

abbrev pub or_error {ℓ} : {A : Type ℓ} → Text → Option A → Fallible A
or_error error none = erred error
or_error error (some a) = fine a

-- Listers that answer with the objects of the cluster, or with an error that names what is missing.
unfoldable pub listers : (Text → Text → Text) → Cluster → Listers
unfolding find_first
listers not_found c = record {
  list_nodes = fine c.nodes;
  get_endpoints = λ namespace name.
      or_error (not_found namespace name)
        (find_first (endpoints_named namespace name) c.all_endpoints);
  get_service = λ namespace name.
      or_error (not_found namespace name) (find_first (service_named namespace name) c.services);
}

-- What an event tells of the cluster: an object is new, is gone, or has another content under the same
-- name.
pub data Happens : Event → Cluster → Cluster → Type 0 where
  node_added :
      (before after : List Node) (n : Node) (svcs : List Service) (epss : List Endpoints)
      → Happens
          (adds (node n) false)
          (record { nodes = before ++ after; services = svcs; all_endpoints = epss })
          (record { nodes = before ++ n ∷ after; services = svcs; all_endpoints = epss })
  node_updated :
      (before after : List Node) (old changed : Node) (svcs : List Service) (epss : List Endpoints)
      → old.name ≡ changed.name
      → Happens
          (updates (node old) (node changed))
          (record { nodes = before ++ old ∷ after; services = svcs; all_endpoints = epss })
          (record { nodes = before ++ changed ∷ after; services = svcs; all_endpoints = epss })
  node_deleted :
      (before after : List Node) (n : Node) (svcs : List Service) (epss : List Endpoints)
      → Happens
          (deletes (node n))
          (record { nodes = before ++ n ∷ after; services = svcs; all_endpoints = epss })
          (record { nodes = before ++ after; services = svcs; all_endpoints = epss })
  service_added :
      (before after : List Service) (svc : Service) (ns : List Node) (epss : List Endpoints)
      → Happens
          (adds (service svc) false)
          (record { nodes = ns; services = before ++ after; all_endpoints = epss })
          (record { nodes = ns; services = before ++ svc ∷ after; all_endpoints = epss })
  service_updated :
      (before after : List Service) (old changed : Service) (ns : List Node) (epss : List Endpoints)
      → old.namespace ≡ changed.namespace
      → old.name ≡ changed.name
      → Happens
          (updates (service old) (service changed))
          (record { nodes = ns; services = before ++ old ∷ after; all_endpoints = epss })
          (record { nodes = ns; services = before ++ changed ∷ after; all_endpoints = epss })
  service_deleted :
      (before after : List Service) (svc : Service) (ns : List Node) (epss : List Endpoints)
      → Happens
          (deletes (service svc))
          (record { nodes = ns; services = before ++ svc ∷ after; all_endpoints = epss })
          (record { nodes = ns; services = before ++ after; all_endpoints = epss })
  endpoints_added :
      (before after : List Endpoints) (eps : Endpoints) (ns : List Node) (svcs : List Service)
      → Happens
          (adds (endpoints eps) false)
          (record { nodes = ns; services = svcs; all_endpoints = before ++ after })
          (record { nodes = ns; services = svcs; all_endpoints = before ++ eps ∷ after })
  endpoints_updated :
      (before after : List Endpoints) (old changed : Endpoints) (ns : List Node)
      (svcs : List Service)
      → old.namespace ≡ changed.namespace
      → old.name ≡ changed.name
      → Happens
          (updates (endpoints old) (endpoints changed))
          (record { nodes = ns; services = svcs; all_endpoints = before ++ old ∷ after })
          (record { nodes = ns; services = svcs; all_endpoints = before ++ changed ∷ after })
  endpoints_deleted :
      (before after : List Endpoints) (eps : Endpoints) (ns : List Node) (svcs : List Service)
      → Happens
          (deletes (endpoints eps))
          (record { nodes = ns; services = svcs; all_endpoints = before ++ eps ∷ after })
          (record { nodes = ns; services = svcs; all_endpoints = before ++ after })

-- The law of `DeepEqual` that the filter relies on: what it calls equal is equal.
abbrev pub IsSound : DeepEqual → Type 0
IsSound e =
    ((a b : List NodeAddress) → e.same_addresses a b ≡ true → a ≡ b)
    × ((a b : List Subset) → e.same_subsets a b ≡ true → a ≡ b)
