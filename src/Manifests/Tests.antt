-- ===== src/Manifests/Tests.antt =====
-- The manifests at concrete inputs.
use functions_invoker.Base.{◌≡◌, refl, true, false, [], ◌∷◌, codes, lookup, insert, fine, erred}
use functions_invoker.Pool.State.{RuntimeManifest}
use functions_invoker.Manifests.{decode_manifests}

abbrev node_18 : RuntimeManifest
node_18 = record { kind = "nodejs:18"; is_default = true; image = "a/b:c"; stemcells = [] }

abbrev node_20 : RuntimeManifest
node_20 = record { kind = "nodejs:20"; is_default = false; image = "a/b:d"; stemcells = [] }

-- The default name resolves to the default version.
default_found :
    decode_manifests (λ s. codes s) (("nodejs", node_18 ∷ node_20 ∷ []) ∷ []) []
    ≡ fine (("nodejs:18", node_18) ∷ ("nodejs:default", node_18) ∷ ("nodejs:20", node_20) ∷ [])
unfolding decode_manifests insert lookup
default_found = refl

-- Two defaults of a family are refused.
two_defaults :
    decode_manifests
      (λ s. codes s)
      (("go", record node_18 { kind = "go:1" } ∷ record node_18 { kind = "go:2" } ∷ []) ∷ [])
      []
    ≡ erred (codes "at least two versions of family go specified as default")
unfolding decode_manifests insert lookup
two_defaults = refl
