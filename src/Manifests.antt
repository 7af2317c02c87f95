-- ===== src/Manifests.antt =====
-- The manifests of the runtimes (pkg/exec/runtimes.go), once they are parsed from JSON: the versions of
-- each family, in some order of the families.
use functions_invoker.Base.{
  lookup-insert, str_eq_iff, str_eq, Bool, true, false, refl, ap, sym, ◌∙◌, ◌≡◌, ◌⊎◌, inl, inr,
  Bool-cases, ◌++◌, ◌≡◌, refl, true, false, String, Option, none, some, List, [], ◌∷◌,
  if◌then◌else◌, codes, lookup, insert, string_eq, Fallible, fine, erred, and_then,
}
use functions_invoker.Entities.{Text}
use functions_invoker.Pool.State.{RuntimeManifest}
mod Tests

-- The concatenation of strings.
abbrev string_append : String → String → String
string_append String.[] t = t
string_append (String.◌∷◌ c s) t = String.◌∷◌ c (string_append s t)

abbrev pub Manifests : Type 0
Manifests = List (String × RuntimeManifest)

abbrev pub default_name : String → String
default_name family = string_append family ":default"

-- A default version, unless the family has one already.
unfoldable pub set_default :
    (String → Text)
    → String
    → RuntimeManifest
    → Option RuntimeManifest
    → Manifests
    → Fallible Manifests
set_default quote family version (some other) manifests =
    erred
      (codes "at least two versions of family " ++ (quote family ++ codes " specified as default"))
set_default quote family version none manifests =
    fine (insert (default_name family) version manifests)

-- One version: it is known by its kind, and by the family's default name if it is the default.
unfoldable pub add_version :
    (String → Text) → String → RuntimeManifest → Manifests → Fallible Manifests
unfolding set_default
add_version quote family version manifests =
    let by_kind = insert version.kind version manifests in
    if version.is_default
    then set_default quote family version (lookup (default_name family) by_kind) by_kind
    else fine by_kind

unfoldable pub add_family :
    (String → Text) → String → List RuntimeManifest → Manifests → Fallible Manifests
unfolding add_version
add_family quote family [] manifests = fine manifests
add_family quote family (version ∷ versions) manifests =
    and_then (add_version quote family version manifests)
      λ more. add_family quote family versions more

unfoldable pub decode_manifests :
    (String → Text) → List (String × List RuntimeManifest) → Manifests → Fallible Manifests
unfolding add_family
decode_manifests quote [] manifests = fine manifests
decode_manifests quote ((family, versions) ∷ families) manifests =
    and_then (add_family quote family versions manifests)
      λ more. decode_manifests quote families more

lookup-insert_same :
    (k : String) (v : RuntimeManifest) (m : Manifests) → lookup k (insert k v m) ≡ some v
lookup-insert_same k v m = rw (lookup-insert k k v m, (str_eq_iff k k).1 refl) refl

-- A version that is accepted is found by its kind, and by the default name if it is a default.
add_version-found :
    (quote : String → Text) (family : String) (version : RuntimeManifest) (m out : Manifests)
    → add_version quote family version m ≡ fine out
    → (lookup version.kind out ≡ some version)
      × ((version.is_default ≡ false) ⊎ (lookup (default_name family) out ≡ some version))
unfolding add_version
add_version-found quote family version m out h = by_default version.is_default refl h
  where
    fine-same : {a b : Manifests} → fine a ≡ fine b → a ≡ b
    fine-same e = cc

    defaults :
        (found : Option RuntimeManifest)
        → set_default quote family version found (insert version.kind version m) ≡ fine out
        → (lookup version.kind out ≡ some version)
          × ((version.is_default ≡ false) ⊎ (lookup (default_name family) out ≡ some version))
    defaults (some other) e = cc
    defaults none e =
        let same : insert (default_name family) version (insert version.kind version m) ≡ out =
          fine-same e in
        (
          ap (λ x. lookup version.kind x) (sym same)
              ∙ (lookup-insert (default_name family) version.kind version
                    (insert version.kind version m)
                  ∙ either (str_eq (default_name family) version.kind)),
          inr (
              ap (λ x. lookup (default_name family) x) (sym same)
              ∙ lookup-insert_same (default_name family) version (insert version.kind version m)),
        )
      where
        either :
            (b : Bool)
            → (if b then some version else lookup version.kind (insert version.kind version m))
              ≡ some version
        either true = refl
        either false = lookup-insert_same version.kind version m

    by_default :
        (b : Bool)
        → version.is_default ≡ b
        → (if b
            then set_default quote family version
                (lookup (default_name family) (insert version.kind version m))
                (insert version.kind version m)
            else fine (insert version.kind version m))
          ≡ fine out
        → (lookup version.kind out ≡ some version)
          × ((version.is_default ≡ false) ⊎ (lookup (default_name family) out ≡ some version))
    by_default true y e = defaults (lookup (default_name family) (insert version.kind version m)) e
    by_default false n e = (
      ap (λ x. lookup version.kind x) (sym (fine-same e))
          ∙ lookup-insert_same version.kind version m,
      inl n,
    )
