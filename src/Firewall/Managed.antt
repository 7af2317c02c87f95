-- ===== src/Firewall/Managed.antt =====
-- Which lines of a table the firewall manages (pkg/firewall/firewall.go), in terms of their texts and
-- not of the code's tests.
use functions_invoker.Base.{
  if◌then◌else◌, ◌||◌, List, [], ◌∷◌, ◌++◌, ◌≡◌, ◌↔◌, ◌⊎◌, inl, inr, refl, ap, true, false,
  Bool-cases, codes, arith, both, nat_eq, nat_eq-same, has_prefix, codes_eq, codes_eq-same,
  codes_eq_refl, ◌∙◌, sym, Bool, All, ◌≢◌,
}
use functions_invoker.Entities.{Text}
use functions_invoker.Firewall.Table.{missing_chain, is_chain_or_rule, is_own_rule}
use functions_invoker.Firewall.Kept.{is_kept, select, contains}

abbrev pub StartsWith : Text → Text → Type 0
StartsWith line start = (rest : Text) × (line ≡ start ++ rest)

-- The beginning of a table, a chain, or a rule.
pub data IsTableLine (line : Text) : Type 0 where
  table : StartsWith line (codes "*") → IsTableLine line
  chain : StartsWith line (codes ":") → IsTableLine line
  rule : StartsWith line (codes "-") → IsTableLine line

-- A rule that begins like those of the firewall: of the chain WHISK-FIREWALL, or one that leads to a chain.
pub data IsOwn (line : Text) : Type 0 where
  of_chain : StartsWith line (codes "-A WHISK-FIREWALL") → IsOwn line
  from_forward : StartsWith line (codes "-A FORWARD -j WHISK-FIREWALL") → IsOwn line
  from_forward_container :
      StartsWith line (codes "-A FORWARD -j PER-CONTAINER-FIREWALL") → IsOwn line
  from_input : StartsWith line (codes "-A INPUT -j WHISK-FIREWALL") → IsOwn line

-- A line that does not count, be it a comment or the end of the table, or one of the firewall's rules.
abbrev pub IsIgnored : Text → Type 0
IsIgnored line = (¬ IsTableLine line) ⊎ IsOwn line

-- The lines of a table that count, in their order.
pub data Keeps : List Text → List Text → Type 0 where
  nothing : Keeps [] []
  drops :
      {line : Text} {lines kept : List Text}
      → IsIgnored line
      → Keeps lines kept
      → Keeps (line ∷ lines) kept
  keeps :
      {line : Text} {lines kept : List Text}
      → IsTableLine line
      → ¬ IsOwn line
      → Keeps lines kept
      → Keeps (line ∷ lines) (line ∷ kept)

-- Two tables that are the same up to lines that do not count.
pub data Differ : List Text → List Text → Type 0 where
  ended : Differ [] []
  both_have : {line : Text} {xs ys : List Text} → Differ xs ys → Differ (line ∷ xs) (line ∷ ys)
  one_has :
      {line : Text} {xs ys : List Text} → IsIgnored line → Differ xs ys → Differ (line ∷ xs) ys
  other_has :
      {line : Text} {xs ys : List Text} → IsIgnored line → Differ xs ys → Differ xs (line ∷ ys)

abbrev pub Has : Text → List Text → Type 0
Has line [] = ⊥
Has line (x ∷ xs) = (x ≡ line) ⊎ Has line xs

-- What is added for a line that has to be there.
abbrev pub Missing : Text → List Text → List Text → Type 0
Missing line lines new =
    (Has line lines × (new ≡ [])) ⊎ (All (λ x. x ≢ line) lines × (new ≡ line ∷ []))

has_prefix-StartsWith : (text start : Text) → has_prefix text start ≡ true → StartsWith text start
unfolding has_prefix
has_prefix-StartsWith text [] h = (text, refl)
has_prefix-StartsWith [] (y ∷ ys) h = cc
has_prefix-StartsWith (x ∷ xs) (y ∷ ys) h =
    let (a, b) = both (nat_eq x y) (has_prefix xs ys) h in
    let (rest, e) = has_prefix-StartsWith xs ys b in
    (rest, ap (λ z. z ∷ xs) (nat_eq-same x y a) ∙ ap (λ (l : Text). y ∷ l) e)

has_prefix-append : (start rest : Text) → has_prefix (start ++ rest) start ≡ true
unfolding has_prefix
has_prefix-append [] rest = refl
has_prefix-append (y ∷ ys) rest = ground (arith, has_prefix-append ys rest)

has_prefix_iff : (text start : Text) → (has_prefix text start ≡ true) ↔ StartsWith text start
has_prefix_iff text start = (
  has_prefix-StartsWith text start,
  λ (rest, e). ap (λ (t : Text). has_prefix t start) e ∙ has_prefix-append start rest,
)

pub is_chain_or_rule_iff : (line : Text) → (is_chain_or_rule line ≡ true) ↔ IsTableLine line
unfolding is_chain_or_rule
is_chain_or_rule_iff line = (to, from)
  where
    to :
        (has_prefix line (codes "*") || has_prefix line (codes ":") || has_prefix line (codes "-"))
          ≡ true
        → IsTableLine line
    to h = elim (Bool-cases (has_prefix line (codes "*"))) [
      | inl y ↦ table ((has_prefix_iff line (codes "*")).0 y)
      | inr n ↦ elim (Bool-cases (has_prefix line (codes ":"))) [
        | inl y ↦ chain ((has_prefix_iff line (codes ":")).0 y)
        | inr m ↦ rule ((has_prefix_iff line (codes "-")).0 (ground (arith, h, n, m)))
      ]
    ]

    from :
        IsTableLine line
        → (has_prefix line (codes "*")
            || has_prefix line (codes ":")
            || has_prefix line (codes "-"))
          ≡ true
    from (table s) = rw ((has_prefix_iff line (codes "*")).1 s) refl
    from (chain s) = let e = (has_prefix_iff line (codes ":")).1 s in ground (arith, e)
    from (rule s) = let e = (has_prefix_iff line (codes "-")).1 s in ground (arith, e)

is_own_rule_iff : (line : Text) → (is_own_rule line ≡ true) ↔ IsOwn line
unfolding is_own_rule
is_own_rule_iff line = (to, from)
  where
    to :
        (has_prefix line (codes "-A WHISK-FIREWALL")
            || has_prefix line (codes "-A FORWARD -j WHISK-FIREWALL")
            || has_prefix line (codes "-A FORWARD -j PER-CONTAINER-FIREWALL")
            || has_prefix line (codes "-A INPUT -j WHISK-FIREWALL"))
          ≡ true
        → IsOwn line
    to h = elim (Bool-cases (has_prefix line (codes "-A WHISK-FIREWALL"))) [
      | inl y ↦ of_chain ((has_prefix_iff line (codes "-A WHISK-FIREWALL")).0 y)
      | inr a ↦ elim (Bool-cases (has_prefix line (codes "-A FORWARD -j WHISK-FIREWALL"))) [
        | inl y ↦ from_forward ((has_prefix_iff line (codes "-A FORWARD -j WHISK-FIREWALL")).0 y)
        | inr b ↦
            elim (Bool-cases (has_prefix line (codes "-A FORWARD -j PER-CONTAINER-FIREWALL"))) [
              | inl y ↦
                  from_forward_container
                    ((has_prefix_iff line (codes "-A FORWARD -j PER-CONTAINER-FIREWALL")).0 y)
              | inr c ↦ from_input (
                  (has_prefix_iff line (codes "-A INPUT -j WHISK-FIREWALL")).0
                    (ground (arith, h, a, b, c)))
            ]
      ]
    ]

    from :
        IsOwn line
        → (has_prefix line (codes "-A WHISK-FIREWALL")
            || has_prefix line (codes "-A FORWARD -j WHISK-FIREWALL")
            || has_prefix line (codes "-A FORWARD -j PER-CONTAINER-FIREWALL")
            || has_prefix line (codes "-A INPUT -j WHISK-FIREWALL"))
          ≡ true
    from (of_chain s) = rw ((has_prefix_iff line (codes "-A WHISK-FIREWALL")).1 s) refl
    from (from_forward s) =
        let e = (has_prefix_iff line (codes "-A FORWARD -j WHISK-FIREWALL")).1 s in
        ground (arith, e)
    from (from_forward_container s) =
        let e = (has_prefix_iff line (codes "-A FORWARD -j PER-CONTAINER-FIREWALL")).1 s in
        ground (arith, e)
    from (from_input s) =
        let e = (has_prefix_iff line (codes "-A INPUT -j WHISK-FIREWALL")).1 s in ground (arith, e)

-- The code keeps exactly the lines that count.
IsIgnored-dropped : (line : Text) → IsIgnored line → is_kept line ≡ false
IsIgnored-dropped line (inl n) = elim (Bool-cases (is_chain_or_rule line)) [
  | inl y ↦ absurd (n ((is_chain_or_rule_iff line).0 y))
  | inr m ↦ rw m refl
]
IsIgnored-dropped line (inr own) = let e = (is_own_rule_iff line).1 own in ground (arith, e)

pub select-Keeps : (lines : List Text) → Keeps lines (select is_kept lines)
unfolding select
select-Keeps [] = nothing
select-Keeps (x ∷ xs) = elim (Bool-cases (is_chain_or_rule x)) [
  | inr n ↦ rw n (drops (inl (λ t. let e = (is_chain_or_rule_iff x).1 t in cc)) (select-Keeps xs))
  | inl y ↦ elim (Bool-cases (is_own_rule x)) [
    | inl own ↦ rw (y, own) (drops (inr ((is_own_rule_iff x).0 own)) (select-Keeps xs))
    | inr m ↦
        rw (y, m)
          (keeps ((is_chain_or_rule_iff x).0 y) (λ t. let e = (is_own_rule_iff x).1 t in cc)
            (select-Keeps xs))
  ]
]

-- What does not count makes no difference.
pub Differ-select : (xs ys : List Text) → Differ xs ys → select is_kept xs ≡ select is_kept ys
unfolding select
Differ-select _ _ ended = refl
Differ-select _ _ (both_have {line} {xs} {ys} d) =
    ap (λ (l : List Text). if is_kept line then line ∷ l else l) (Differ-select xs ys d)
Differ-select _ _ (one_has {line} {xs} {ys} i d) =
    rw (IsIgnored-dropped line i) (Differ-select xs ys d)
Differ-select _ _ (other_has {line} {xs} {ys} i d) =
    rw (IsIgnored-dropped line i) (Differ-select xs ys d)

contains-Has : (line : Text) (lines : List Text) → contains line lines ≡ true → Has line lines
unfolding contains
contains-Has line [] h = cc
contains-Has line (x ∷ xs) h = elim (Bool-cases (codes_eq x line)) [
  | inl y ↦ inl (codes_eq-same x line y)
  | inr n ↦ inr (contains-Has line xs (ground (arith, h, n)))
]

contains-All :
    (line : Text) (lines : List Text) → contains line lines ≡ false → All (λ x. x ≢ line) lines
unfolding contains
contains-All line [] h = tt
contains-All line (x ∷ xs) h = (other, contains-All line xs (ground (arith, h)))
  where
    other : x ≢ line
    other e =
        let same : codes_eq x line ≡ true =
          ap (λ (t : Text). codes_eq x t) (sym e) ∙ codes_eq_refl x in
        ground (arith, h, same)

pub missing_chain-Missing :
    (line : Text) (lines : List Text)
    → Missing line lines (missing_chain (contains line lines) line)
missing_chain-Missing line lines = go (contains line lines) refl
  where
    go : (b : Bool) → contains line lines ≡ b → Missing line lines (missing_chain b line)
    go true h = inl (contains-Has line lines h, refl)
    go false h = inr (contains-All line lines h, refl)
