-- ===== src/Parameters/Division.antt =====
-- The division of an invocation's parameters into those of the initialization and those of the run,
-- and the unlocking of encrypted ones (`ParseActivationMessage` of pkg/protocol/activation.go). The
-- JSON values are the argument's: their encoding and, if they are strings, their text. Base64 is an
-- argument. The parameters are a map, whose order Go leaves open.
use functions_invoker.Base.{
  is_member, true, arith, inl, Bool-cases, subst, false, inr, sym, ap, refl, ◌∙◌, str_eq_iff,
  lookup-insert, str_eq, Distinct, ◌≡◌, String, string_eq, Option, none, some, List, [], ◌∷◌,
  lookup, insert, if◌then◌else◌,
}
use functions_invoker.Entities.{Text}

pub record JsonValue : Type 0 where
  pub encoded : Text
  pub string : Text

-- What `lockedArgs` and the keys of `initArgs` hold, with base64 and the decryptor.
pub record Locks : Type 0 where
  pub locked : List (String × String)
  pub init_keys : List String
  pub decode : Text → Option Text
  pub decrypt_with : String → Text → Option Text

-- The value of a parameter: unlocked, if it is locked.
unfoldable pub unlock_value : Locks → String → JsonValue → Option Text
unlock_value l k v = elim (lookup k l.locked) [
  | none ↦ some v.encoded
  | some key ↦ elim (l.decode v.string) [ none ↦ none | some decoded ↦ l.decrypt_with key decoded ]
]

pub record Divided : Type 0 where
  pub init_parameters : List (String × Text)
  pub run_parameters : List (String × Text)

unfoldable pub add_parameter : Locks → String → Text → Divided → Divided
add_parameter l k x d =
    if is_member k l.init_keys
    then record d { init_parameters = insert k x d.init_parameters }
    else record d { run_parameters = insert k x d.run_parameters }

-- The loop; the first value that cannot be unlocked ends it.
unfoldable pub divide : Locks → List (String × JsonValue) → Divided → Option Divided
divide l [] d = some d
divide l ((k, v) ∷ rest) d =
    let continue = λ (x : Text). divide l rest (add_parameter l k x d) in
    elim (unlock_value l k v) [ none ↦ none | some x ↦ continue x ]

abbrev pub value_of : Locks → String → Option JsonValue → Option Text
value_of l k none = none
value_of l k (some v) = unlock_value l k v

abbrev pub place : Locks → String → Divided → Option Text
place l k d =
    if is_member k l.init_keys then lookup k d.init_parameters else lookup k d.run_parameters

abbrev pub other_place : Locks → String → Divided → Option Text
other_place l k d =
    if is_member k l.init_keys then lookup k d.run_parameters else lookup k d.init_parameters

abbrev pub empty : Divided
empty = record { init_parameters = []; run_parameters = [] }

-- One parameter goes to its place, and to no other.
place-add :
    (l : Locks) (j : String) (x : Text) (d : Divided) (k : String)
    → (place l k (add_parameter l j x d) ≡ (if str_eq j k then some x else place l k d))
      × (other_place l k (add_parameter l j x d) ≡ other_place l k d)
unfolding add_parameter
place-add l j x d k =
    let in_init = lookup-insert j k x d.init_parameters in
    let in_run = lookup-insert j k x d.run_parameters in
    elim (Bool-cases (str_eq j k)) [
      | inl y ↦
          let same : is_member j l.init_keys ≡ is_member k l.init_keys =
            ap (λ q. is_member q l.init_keys) ((str_eq_iff j k).0 y) in
          ground (arith, y, same, in_init, in_run)
      | inr n ↦ ground (arith, n, in_init, in_run)
    ]

-- What the parameters still to come add.
expected : Locks → String → Divided → Option JsonValue → Option Text
expected l k d none = place l k d
expected l k d (some v) = unlock_value l k v

expected-none : (l : Locks) (k : String) (d : Divided) → expected l k d none ≡ place l k d
unfolding expected
expected-none l k d = refl

expected-nil : (l : Locks) (k : String) (d : Divided) → expected l k d (lookup k []) ≡ place l k d
unfolding expected lookup
expected-nil l k d = refl

expected-same :
    (l : Locks) (k : String) (d e : Divided)
    → place l k d ≡ place l k e
    → (o : Option JsonValue) → expected l k d o ≡ expected l k e o
unfolding expected
expected-same l k d e h none = h
expected-same l k d e h (some v) = refl

expected-here :
    (l : Locks) (j : String) (v : JsonValue) (rest : List (String × JsonValue)) (d : Divided)
    (k : String)
    → str_eq j k ≡ true
    → expected l k d (lookup k ((j, v) ∷ rest)) ≡ unlock_value l k v
unfolding expected lookup
expected-here l j v rest d k y = rw y refl

expected-there :
    (l : Locks) (j : String) (v : JsonValue) (rest : List (String × JsonValue)) (d : Divided)
    (k : String)
    → str_eq j k ≡ false
    → expected l k d (lookup k ((j, v) ∷ rest)) ≡ expected l k d (lookup k rest)
unfolding expected lookup
expected-there l j v rest d k n = rw n refl

divide-nil : (l : Locks) (d e : Divided) → divide l [] d ≡ some e → d ≡ e
unfolding divide
divide-nil l d e h = cc

divide-step :
    (l : Locks) (j : String) (v : JsonValue) (rest : List (String × JsonValue)) (d : Divided)
    (x : Text)
    → unlock_value l j v ≡ some x
    → divide l ((j, v) ∷ rest) d ≡ divide l rest (add_parameter l j x d)
unfolding divide
divide-step l j v rest d x q = rw (divide, q) refl

divide-stops :
    (l : Locks) (j : String) (v : JsonValue) (rest : List (String × JsonValue)) (d : Divided)
    → unlock_value l j v ≡ none
    → divide l ((j, v) ∷ rest) d ≡ none
unfolding divide
divide-stops l j v rest d q = rw (divide, q) refl

divide-places :
    (l : Locks) (ps : List (String × JsonValue)) (d e : Divided)
    → Distinct ps
    → divide l ps d ≡ some e
    → (k : String)
    → (place l k e ≡ expected l k d (lookup k ps)) × (other_place l k e ≡ other_place l k d)
divide-places l [] d e dist h k =
    subst
      (λ q. (place l k q ≡ expected l k d (lookup k [])) × (other_place l k q ≡ other_place l k d))
      (divide-nil l d e h) (sym (expected-nil l k d), refl)
divide-places l ((j, v) ∷ rest) d e dist h k =
    go (unlock_value l j v) refl (λ x. divide-places l rest (add_parameter l j x d) e dist.1)
  where
    go :
        (o : Option Text)
        → unlock_value l j v ≡ o
        → ((x : Text)
            → divide l rest (add_parameter l j x d) ≡ some e
            → (k : String)
            → (place l k e ≡ expected l k (add_parameter l j x d) (lookup k rest))
              × (other_place l k e ≡ other_place l k (add_parameter l j x d)))
        → (place l k e ≡ expected l k d (lookup k ((j, v) ∷ rest)))
          × (other_place l k e ≡ other_place l k d)
    go none q ih = let stop = divide-stops l j v rest d q in cc
    go (some x) q ih =
        let (here, there) = ih x (sym (divide-step l j v rest d x q) ∙ h) k in
        let (added, other) = place-add l j x d k in
        (
          elim (Bool-cases (str_eq j k)) [
            | inl y ↦
                let same : j ≡ k = (str_eq_iff j k).0 y in
                let gone : lookup k rest ≡ none = subst (λ i. lookup i rest ≡ none) same dist.0 in
                here
                ∙ (ap (λ o. expected l k (add_parameter l j x d) o) gone
                    ∙ (expected-none l k (add_parameter l j x d)
                        ∙ (added
                            ∙ (rw y refl
                                ∙ (sym (subst (λ i. unlock_value l i v ≡ some x) same q)
                                    ∙ sym (expected-here l j v rest d k y))))))
            | inr n ↦
                here
                ∙ (expected-same l k (add_parameter l j x d) d (added ∙ rw n refl) (lookup k rest)
                    ∙ sym (expected-there l j v rest d k n))
          ],
          there ∙ other,
        )

-- A value that cannot be unlocked.
abbrev pub Blocked : Locks → List (String × JsonValue) → Type 0
Blocked l ps = (k : String) × (v : JsonValue) × (lookup k ps ≡ some v) × (unlock_value l k v ≡ none)

lookup-here :
    (j : String) (v : JsonValue) (rest : List (String × JsonValue))
    → lookup j ((j, v) ∷ rest) ≡ some v
unfolding lookup
lookup-here j v rest = rw ((str_eq_iff j j).1 refl) refl

lookup-later :
    (j : String) (v : JsonValue) (rest : List (String × JsonValue)) (k : String) (u : JsonValue)
    → lookup j rest ≡ none
    → lookup k rest ≡ some u
    → lookup k ((j, v) ∷ rest) ≡ some u
unfolding lookup
lookup-later j v rest k u fresh found = elim (Bool-cases (str_eq j k)) [
  | inl y ↦
      let gone : lookup k rest ≡ none =
        subst (λ i. lookup i rest ≡ none) ((str_eq_iff j k).0 y) fresh in
      cc
  | inr n ↦ rw n found
]

divide-Blocked :
    (l : Locks) (ps : List (String × JsonValue)) (d : Divided)
    → Distinct ps
    → divide l ps d ≡ none
    → Blocked l ps
divide-Blocked l [] d dist h = unfold divide in cc
divide-Blocked l ((j, v) ∷ rest) d dist h =
    go (unlock_value l j v) refl (λ x. divide-Blocked l rest (add_parameter l j x d) dist.1)
  where
    go :
        (o : Option Text)
        → unlock_value l j v ≡ o
        → ((x : Text) → divide l rest (add_parameter l j x d) ≡ none → Blocked l rest)
        → Blocked l ((j, v) ∷ rest)
    go none q ih = (j, v, lookup-here j v rest, q)
    go (some x) q ih =
        let (k, u, found, bad) = ih x (sym (divide-step l j v rest d x q) ∙ h) in
        (k, u, lookup-later j v rest k u dist.0 found, bad)

-- Each parameter is at its place and at no other; or one could not be unlocked.
abbrev pub Splits : Locks → List (String × JsonValue) → Option Divided → Type 0
Splits l ps none = Blocked l ps
Splits l ps (some d) =
    (k : String) → (place l k d ≡ value_of l k (lookup k ps)) × (other_place l k d ≡ none)

-- The division of parameters with distinct names fails only if one of them cannot be unlocked. If it
-- succeeds, each is, unlocked if it is locked and encoded otherwise, in exactly one of the two maps:
-- that of the initialization if its name is among `initArgs`, else that of the run; and the maps
-- hold nothing else.
pub divide-Splits :
    (l : Locks) (ps : List (String × JsonValue)) → Distinct ps → Splits l ps (divide l ps empty)
divide-Splits l ps dist = go (divide l ps empty) refl
  where
    started : (k : String) (o : Option JsonValue) → expected l k empty o ≡ value_of l k o
    started k none = unfold expected lookup in ground arith
    started k (some v) = unfold expected in refl

    go : (o : Option Divided) → divide l ps empty ≡ o → Splits l ps o
    go none h = divide-Blocked l ps empty dist h
    go (some d) h = λ k.
        let (here, there) = divide-places l ps empty d dist h k in
        (here ∙ started k (lookup k ps), there ∙ unfold lookup in ground arith)
