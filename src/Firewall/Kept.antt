-- ===== src/Firewall/Kept.antt =====
-- What the reconciliation keeps of the current table (pkg/firewall/firewall.go).
use mathlib.Core.Bool.{and-false}
use mathlib.Core.List.{append_assoc, append-nil}
use functions_invoker.Base.{
  has_prefix, sym, Bool, true, false, not, ◌||◌, ◌&&◌, List, [], ◌∷◌, ◌++◌, if◌then◌else◌, codes,
  codes_eq, codes_eq-same, both, nat_eq, ◌≡◌, refl, ap, ◌∙◌, inl, inr, Bool-cases, arith, All,
}
use functions_invoker.Entities.{Text}
use functions_invoker.Firewall.Table.{
  whisk_rules, insertions, nothing_found, Service, Endpoints, Node, Reconciler, missing_chain, scan,
  table_lines, scan_line, Scanned, is_chain_or_rule, is_own_rule, firewall_chain,
  per_container_chain,
}

-- A line that is kept: a chain or a rule, but none of the firewall's own rules.
abbrev pub is_kept : Text → Bool
is_kept line = is_chain_or_rule line && not (is_own_rule line)

unfoldable pub select : (Text → Bool) → List Text → List Text
select keeps [] = []
select keeps (line ∷ lines) =
    let rest = select keeps lines in if keeps line then line ∷ rest else rest

unfoldable pub contains : Text → List Text → Bool
contains line [] = false
contains line (other ∷ lines) = codes_eq other line || contains line lines

module _ (keeps : Text → Bool) where
  pub select-append :
      (xs ys : List Text) → select keeps (xs ++ ys) ≡ select keeps xs ++ select keeps ys
  unfolding select
  select-append [] ys = refl
  select-append (x ∷ xs) ys = elim (Bool-cases (keeps x)) [
    | inl y ↦ rw y (ap (λ (l : List Text). x ∷ l) (select-append xs ys))
    | inr n ↦ rw n (select-append xs ys)
  ]

  pub select-All : (lines : List Text) → All (λ line. keeps line ≡ true) (select keeps lines)
  unfolding select
  select-All [] = tt
  select-All (x ∷ xs) = elim (Bool-cases (keeps x)) [
    | inl y ↦ rw y (y, select-All xs)
    | inr n ↦ rw n (select-All xs)
  ]

  -- A line that is kept is among the lines exactly if it is among those that are kept.
  pub select-contains :
      (line : Text) (lines : List Text)
      → keeps line ≡ true
      → contains line (select keeps lines) ≡ contains line lines
  unfolding select contains
  select-contains line [] k = refl
  select-contains line (x ∷ xs) k = elim (Bool-cases (keeps x)) [
    | inl y ↦ rw (y, select-contains line xs k) refl
    | inr n ↦ elim (Bool-cases (codes_eq x line)) [
      | inl same ↦ absurd (let e : keeps x ≡ true = ap keeps (codes_eq-same x line same) ∙ k in cc)
      | inr other ↦ rw (n, other) (select-contains line xs k)
    ]
  ]

pub contains-append :
    (line : Text) (xs ys : List Text)
    → contains line (xs ++ ys) ≡ (contains line xs || contains line ys)
unfolding contains
contains-append line [] ys = refl
contains-append line (x ∷ xs) ys = ground (arith, contains-append line xs ys)

-- A text with a prefix has the beginnings of that prefix.
has_prefix-front :
    (text front rest : Text) → has_prefix text (front ++ rest) ≡ true → has_prefix text front ≡ true
unfolding has_prefix
has_prefix-front text [] rest h = refl
has_prefix-front [] (y ∷ ys) rest h = cc
has_prefix-front (x ∷ xs) (y ∷ ys) rest h =
    let (a, b) = both (nat_eq x y) (has_prefix xs (ys ++ rest)) h in
    rw (a, has_prefix-front xs ys rest b) refl

-- Every rule of the firewall is an appended rule.
own-appended : (line : Text) → is_own_rule line ≡ true → has_prefix line (codes "-A") ≡ true
unfolding is_own_rule
own-appended line h = ground (
  arith,
  has_prefix-front line (codes "-A") (codes " WHISK-FIREWALL"),
  has_prefix-front line (codes "-A") (codes " FORWARD -j WHISK-FIREWALL"),
  has_prefix-front line (codes "-A") (codes " FORWARD -j PER-CONTAINER-FIREWALL"),
  has_prefix-front line (codes "-A") (codes " INPUT -j WHISK-FIREWALL"),
)

pub chain_kept : (is_kept firewall_chain ≡ true) × (is_kept per_container_chain ≡ true)
unfolding is_chain_or_rule is_own_rule has_prefix
chain_kept = (refl, refl)

-- What a round of the loop adds to what was found.
Found : Scanned → List Text → Scanned → Type 0
Found found lines next =
    (next.rules ≡ found.rules ++ select is_kept lines)
    × (next.contains_firewall_chain
        ≡ (found.contains_firewall_chain || contains firewall_chain lines))
    × (next.contains_per_container_chain
        ≡ (found.contains_per_container_chain || contains per_container_chain lines))

scan_line-Found : (found : Scanned) (line : Text) → Found found (line ∷ []) (scan_line found line)
unfolding Found select contains
scan_line-Found found line = elim (Bool-cases (codes_eq line firewall_chain)) [
  | inl same ↦
      rw (codes_eq-same line firewall_chain same)
        (unfold scan_line is_chain_or_rule is_own_rule has_prefix codes_eq in ground arith)
  | inr other ↦ elim (Bool-cases (codes_eq line per_container_chain)) [
    | inl same ↦
        rw (codes_eq-same line per_container_chain same)
          (unfold scan_line is_chain_or_rule is_own_rule has_prefix codes_eq in ground arith)
    | inr neither ↦ elim (Bool-cases (is_chain_or_rule line)) [
      | inr n ↦ rw (other, neither, n) (unfold scan_line in rw n unchanged)
      | inl y ↦ elim (Bool-cases (is_own_rule line)) [
        | inl own ↦
            rw (other, neither, y, own)
              (unfold scan_line in rw (y, other, neither, own-appended line own, own) unchanged)
        | inr foreign ↦
            rw (other, neither, y, foreign)
              (unfold scan_line in
                rw (y, other, neither, foreign, and-false (has_prefix line (codes "-A")))
                  added_line)
      ]
    ]
  ]
]
  where
    unchanged :
        (found.rules ≡ found.rules ++ [])
        × (found.contains_firewall_chain ≡ (found.contains_firewall_chain || false))
        × (found.contains_per_container_chain ≡ (found.contains_per_container_chain || false))
    unchanged = (sym (append-nil found.rules), ground arith, ground arith)

    added_line :
        (found.rules ++ line ∷ [] ≡ found.rules ++ line ∷ [])
        × (found.contains_firewall_chain ≡ (found.contains_firewall_chain || false))
        × (found.contains_per_container_chain ≡ (found.contains_per_container_chain || false))
    added_line = (refl, unchanged.1, unchanged.2)

Found-trans :
    (a b c : Scanned) (xs ys : List Text) → Found a xs b → Found b ys c → Found a (xs ++ ys) c
unfolding Found
Found-trans a b c xs ys (r, f, p) (r', f', p') = (
  r'
      ∙ (ap (λ (l : List Text). l ++ select is_kept ys) r
          ∙ (append_assoc a.rules (select is_kept xs) (select is_kept ys)
              ∙ ap (λ (l : List Text). a.rules ++ l) (sym (select-append is_kept xs ys)))),
  ground (arith, contains-append firewall_chain xs ys),
  ground (arith, contains-append per_container_chain xs ys),
)

scan-Found : (found : Scanned) (lines : List Text) → Found found lines (scan found lines)
unfolding scan
scan-Found found [] = unfold Found select contains in ground (arith, append-nil found.rules)
scan-Found found (line ∷ lines) =
    Found-trans found (scan_line found line) (scan (scan_line found line) lines) (line ∷ []) lines
      (scan_line-Found found line) (scan-Found (scan_line found line) lines)

-- The lines before those that the reconciliation adds each time.
abbrev pub front : List Text → List Text
front current =
    select is_kept current
    ++ (missing_chain (contains firewall_chain current) firewall_chain
        ++ missing_chain (contains per_container_chain current) per_container_chain)

-- The lines that the reconciliation adds each time.
abbrev pub added : Reconciler → List Node → Endpoints → Service → Endpoints → List Text
added r nodes kube dns pods =
    insertions ++ (whisk_rules r nodes kube dns pods ++ (codes "COMMIT" ∷ []))

pub table_lines-front :
    (r : Reconciler) (current : List Text) (nodes : List Node) (kube : Endpoints) (dns : Service)
    (pods : Endpoints)
    → table_lines r current nodes kube dns pods ≡ front current ++ added r nodes kube dns pods
unfolding table_lines Found
table_lines-front r current nodes kube dns pods =
    let (rules, chain, per_container) = scan-Found nothing_found current in
    rw
      (
        rules,
        chain,
        per_container,
        append_assoc (select is_kept current)
            (missing_chain (contains firewall_chain current) firewall_chain
              ++ missing_chain (contains per_container_chain current) per_container_chain)
            (added r nodes kube dns pods),
        append_assoc (missing_chain (contains firewall_chain current) firewall_chain)
            (missing_chain (contains per_container_chain current) per_container_chain)
            (added r nodes kube dns pods),
      )
      refl
