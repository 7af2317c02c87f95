-- ===== src/Firewall/Rebuilt.antt =====
-- The table after a reconciliation (pkg/firewall/firewall.go).
use functions_invoker.Base.{List, [], ◌∷◌, ◌++◌, ◌≡◌, refl, sym, ap, ◌∙◌, codes, true}
use functions_invoker.Entities.{Text}
use functions_invoker.Firewall.Table.{
  Reconciler, Node, Service, Endpoints, missing_chain, table_lines, firewall_chain, reconcile,
  per_container_chain, whisk_rules,
}
use functions_invoker.Firewall.Kept.{
  is_kept, select, contains, select-contains, table_lines-front, chain_kept,
}
use functions_invoker.Firewall.Managed.{
  Keeps, Missing, Differ, select-Keeps, missing_chain-Missing, Differ-select,
}

-- The new table consists of the lines of the current one that count, in their order: the beginning of
-- a table, chains, and rules that do not begin like those of the firewall; then of those of the chains WHISK-FIREWALL
-- and PER-CONTAINER-FIREWALL that the current table lacks; then of the three rules that lead to them;
-- then of the rules of WHISK-FIREWALL; and of COMMIT.
pub table_lines-Rebuilt :
    (r : Reconciler) (current : List Text) (nodes : List Node) (kube : Endpoints) (dns : Service)
    (pods : Endpoints)
    → (kept : List Text) × (first : List Text) × (second : List Text) × Keeps current kept
      × Missing (codes ":WHISK-FIREWALL - [0:0]") current first
      × Missing (codes ":PER-CONTAINER-FIREWALL - [0:0]") current second
      × (table_lines r current nodes kube dns pods
          ≡ kept
            ++ (first ++ second)
            ++ (codes "-I FORWARD -j WHISK-FIREWALL"
                ∷ codes "-I FORWARD -j PER-CONTAINER-FIREWALL"
                ∷ codes "-I INPUT -j WHISK-FIREWALL"
                ∷ (whisk_rules r nodes kube dns pods ++ (codes "COMMIT" ∷ []))))
table_lines-Rebuilt r current nodes kube dns pods = (
  select is_kept current,
  missing_chain (contains firewall_chain current) firewall_chain,
  missing_chain (contains per_container_chain current) per_container_chain,
  select-Keeps current,
  missing_chain-Missing firewall_chain current,
  missing_chain-Missing per_container_chain current,
  table_lines-front r current nodes kube dns pods,
)

-- If the current table is replaced by one that is the same up to rules that begin like those of the
-- firewall and to lines that are neither chains nor rules, in whatever number and at whatever place, a reconciliation
-- writes the same text.
pub reconcile-Differ :
    (r : Reconciler) (current saved : List Text) (nodes : List Node) (kube : Endpoints)
    (dns : Service) (pods : Endpoints)
    → Differ saved current
    → reconcile r saved nodes kube dns pods ≡ reconcile r current nodes kube dns pods
unfolding reconcile
reconcile-Differ r current saved nodes kube dns pods d =
    rw
      (
        table_lines-front r saved nodes kube dns pods,
        table_lines-front r current nodes kube dns pods,
        has firewall_chain chain_kept.0,
        has per_container_chain chain_kept.1,
        Differ-select saved current d,
      )
      refl
  where
    has : (line : Text) → is_kept line ≡ true → contains line saved ≡ contains line current
    has line k =
        sym (select-contains is_kept line saved k)
        ∙ (ap (λ (l : List Text). contains line l) (Differ-select saved current d)
            ∙ select-contains is_kept line current k)
