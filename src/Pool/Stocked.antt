-- ===== src/Pool/Stocked.antt =====
-- How many prewarmed containers a reconciliation leaves (`reconcilePrewarm` of pkg/exec/pool.go).
use Prim.Native.Nat.{max}
use functions_invoker.Base.{
  ◌∙◌, insert-Distinct, inr, true, inl, length, Bool-cases, ◌-◌, ℕ, ◌≡◌, refl, String, none, List,
  [], ◌∷◌, lookup, insert, Distinct, arith, if◌then◌else◌, has_suffix,
}
use functions_invoker.Container.{World, PrewarmContainerKey}
use functions_invoker.Pool.State.{Pool, Prewarmed, RuntimeManifest, StemcellConfig}
use functions_invoker.Pool.Get.{prewarm_key_eq, prewarm_eq, prewarm_eq_iff}
use functions_invoker.Pool.Prewarm.{
  prewarmed_at, count_stemcells, necessary_creations, reconcile_prewarm, Creations,
}
use functions_invoker.Pool.Stocking.{create_all-length, requested}

-- The number that the configuration wants: the last stemcell entry for the key, of a family that
-- is not a ":default" one.
pub wanted_in : PrewarmContainerKey → String → List StemcellConfig → ℕ → ℕ
wanted_in j kind [] n = n
wanted_in j kind (s ∷ ss) n =
    wanted_in j kind ss
      (if prewarm_eq (record { kind = kind; memory = s.memory }) j then s.count else n)

pub wanted : PrewarmContainerKey → List (String × RuntimeManifest) → ℕ → ℕ
unfolding wanted_in
wanted j [] n = n
wanted j ((family, manifest) ∷ rest) n =
    wanted j rest
      (if has_suffix family ":default" then n else wanted_in j manifest.kind manifest.stemcells n)

requested-absent :
    (j : PrewarmContainerKey) (todo : Creations) → lookup j todo ≡ none → requested j todo ≡ 0
unfolding requested lookup
requested-absent j [] e = refl
requested-absent j ((pk, n) ∷ todo) e = ground (arith, requested-absent j todo)

requested-insert :
    (pk j : PrewarmContainerKey) (n : ℕ) (todo : Creations)
    → Distinct todo
    → requested j (insert pk n todo) ≡ (if prewarm_eq pk j then n else requested j todo)
unfolding requested insert
requested-insert pk j n [] d = ground arith
requested-insert pk j n ((k, i) ∷ todo) d = ground (
  arith,
  prewarm_eq_iff pk j,
  prewarm_eq_iff k pk,
  prewarm_eq_iff k j,
  requested-insert pk j n todo d.1,
  requested-absent j todo,
)

-- Counting the creations of one family, and of all.
abbrev Counts : PrewarmContainerKey → Prewarmed → ℕ → Creations → Type 0
Counts j m n out = Distinct out × (requested j out ≡ n - length (prewarmed_at j m))

count_stemcells-Counts :
    (j : PrewarmContainerKey) (m : Prewarmed) (kind : String) (ss : List StemcellConfig) (n : ℕ)
    (out : Creations)
    → Counts j m n out
    → Counts j m (wanted_in j kind ss n) (count_stemcells m kind ss out)
unfolding count_stemcells wanted_in
count_stemcells-Counts j m kind [] n out h = h
count_stemcells-Counts j m kind (s ∷ ss) n out h =
    count_stemcells-Counts j m kind ss _ _
      (insert-Distinct pk _ out h.0, requested-insert pk j _ out h.0 ∙ entry)
  where
    pk : PrewarmContainerKey
    pk = record { kind = kind; memory = s.memory }

    entry :
        (if prewarm_eq pk j then s.count - length (prewarmed_at pk m) else requested j out)
        ≡ (if prewarm_eq pk j then s.count else n) - length (prewarmed_at j m)
    entry = elim (Bool-cases (prewarm_eq pk j)) [
      | inl same ↦ let key : pk ≡ j = (prewarm_eq_iff pk j).0 same in rw same (rw key)
      | inr other ↦ rw other h.1
    ]

necessary_creations-Counts :
    (j : PrewarmContainerKey) (m : Prewarmed) (manifests : List (String × RuntimeManifest)) (n : ℕ)
    (out : Creations)
    → Counts j m n out
    → Counts j m (wanted j manifests n) (necessary_creations m manifests out)
unfolding necessary_creations wanted
necessary_creations-Counts j m [] n out h = h
necessary_creations-Counts j m ((family, manifest) ∷ rest) n out h =
    elim (Bool-cases (has_suffix family ":default")) [
      | inl skip ↦ rw skip (necessary_creations-Counts j m rest n out h)
      | inr use_it ↦ rw use_it (
          necessary_creations-Counts j m rest _ _
            (count_stemcells-Counts j m manifest.kind manifest.stemcells n out h))
    ]

-- After a reconciliation that succeeds there are, of every kind and size, as many prewarmed
-- containers as the configuration wants, or those that were there if they were more.
pub reconcile_prewarm-length :
    (w : World) (p : Pool) (j : PrewarmContainerKey)
    → (reconcile_prewarm w p).1 ≡ true
    → length (prewarmed_at j (reconcile_prewarm w p).0.prewarmed)
      ≡ max (wanted j p.runtime_manifests 0) (length (prewarmed_at j p.prewarmed))
unfolding reconcile_prewarm
reconcile_prewarm-length w p j done =
    let counts = necessary_creations-Counts j p.prewarmed p.runtime_manifests 0 [] start in
    omega (
      arith,
      create_all-length w (necessary_creations p.prewarmed p.runtime_manifests []) p j done,
      counts.1,
    )
  where
    start : Counts j p.prewarmed 0 []
    start = unfold requested in (tt, omega arith)
