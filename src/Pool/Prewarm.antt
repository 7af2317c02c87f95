-- ===== src/Pool/Prewarm.antt =====
-- Keeping prewarmed containers (`reconcilePrewarm` of pkg/exec/pool.go). No other call runs between
-- the count and the creations.
use functions_invoker.Base.{
  slice, ℕ, zero, suc, ◌-◌, String, Bool, true, false, List, [], ◌∷◌, ◌++◌, length, lookup, insert,
  add64, if◌then◌else◌, none, some, has_suffix,
}
use functions_invoker.Container.{
  PooledContainer, PrewarmContainerKey, World, prewarm, creates, WarmContainerKey,
}
use functions_invoker.Pool.State.{Pool, Prewarmed, RuntimeManifest, StemcellConfig, record_calls}
use functions_invoker.Pool.Get.{prewarm_key_eq}

abbrev pub prewarmed_at : PrewarmContainerKey → Prewarmed → List PooledContainer
prewarmed_at k m = slice (lookup k m)

-- The field `initializedFor` of a prewarmed container is the zero value.
abbrev pub no_key : WarmContainerKey
no_key = record {
  invocation_namespace = "";
  function = record { namespace = ""; name = ""; version = ""; revision = ""; binding = "" };
}

abbrev pub Creations : Type 0
Creations = List (PrewarmContainerKey × ℕ)

-- Of a configured count and what is there, a negative difference asks for nothing.
unfoldable pub count_stemcells : Prewarmed → String → List StemcellConfig → Creations → Creations
count_stemcells m kind [] out = out
count_stemcells m kind (s ∷ ss) out =
    let pk : PrewarmContainerKey = record { kind = kind; memory = s.memory } in
    count_stemcells m kind ss (insert pk (s.count - length (prewarmed_at pk m)) out)

-- The families that end in ":default" repeat another one.
unfoldable pub necessary_creations :
    Prewarmed → List (String × RuntimeManifest) → Creations → Creations
unfolding count_stemcells
necessary_creations m [] out = out
necessary_creations m ((family, manifest) ∷ rest) out = necessary_creations m rest (
    if has_suffix family ":default"
    then out
    else count_stemcells m manifest.kind manifest.stemcells out)

unfoldable pub create_prewarmed : World → PrewarmContainerKey → Pool → Pool × Bool
create_prewarmed w pk p =
    let number = add64 p.containers_created 1 in
    let name = prewarm number pk.kind in
    let p' = record_calls (creates name ∷ []) (record p { containers_created = number }) in
    elim (w.create pk.kind pk.memory name) [
      | none ↦ (p', false)
      | some h ↦
          let c : PooledContainer = record {
            handle = h;
            initialized_for = no_key;
            last_used = 0;
            memory = pk.memory;
            firewall_cleanup = false;
          } in
          (
            record p' {
              prewarmed = insert pk (prewarmed_at pk p'.prewarmed ++ c ∷ []) p'.prewarmed;
            },
            true,
          )
    ]

unfoldable pub create_many : World → PrewarmContainerKey → ℕ → Pool → Pool × Bool
create_many w pk zero p = (p, true)
create_many w pk (suc n) p =
    let (p', done) = create_prewarmed w pk p in
    let rest = create_many w pk n p' in if done then rest else (p', false)

unfoldable pub create_all : World → Creations → Pool → Pool × Bool
create_all w [] p = (p, true)
create_all w ((pk, n) ∷ todo) p =
    let (p', done) = create_many w pk n p in
    let rest = create_all w todo p' in if done then rest else (p', false)

unfoldable pub reconcile_prewarm : World → Pool → Pool × Bool
reconcile_prewarm w p = create_all w (necessary_creations p.prewarmed p.runtime_manifests []) p

-- One turn of the goroutine that serves the pokes: a failure pokes again.
unfoldable pub serve_poke : World → Pool → Pool
serve_poke w p =
    let (p', done) = reconcile_prewarm w (record p { prewarm_poke = false }) in
    if done then p' else record p' { prewarm_poke = true }
