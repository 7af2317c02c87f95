-- ===== src/Pool/Space.antt =====
-- Making space among the idle containers (the loop of `getContainer`, pkg/exec/pool.go). The loop
-- takes one unit of fuel a round; the number of idle containers is enough.
use functions_invoker.Base.{
  ℕ, zero, suc, Option, none, some, List, [], ◌∷◌, ◌++◌, add64, ltb, leb, if◌then◌else◌,
}
use functions_invoker.Container.{PooledContainer}
use functions_invoker.Pool.State.{Pool, Idles, drop_first}

-- The longest unused of a candidate and the first of a list.
unfoldable pub older : Option PooledContainer → List PooledContainer → Option PooledContainer
older best [] = best
older none (c ∷ cs) = some c
older (some b) (c ∷ cs) = if ltb c.last_used b.last_used then some c else some b

unfoldable pub longest_unused : Option PooledContainer → Idles → Option PooledContainer
longest_unused best [] = best
longest_unused best ((k, cs) ∷ m) = longest_unused (older best cs) m

pub data Space : Type 0 where
  made : List PooledContainer → Pool → Space
  exhausted : Pool → Space
  out_of_fuel : Space

unfoldable pub make_space : ℕ → ℕ → List PooledContainer → Pool → Space
make_space zero in_flight out p = out_of_fuel
make_space (suc fuel) in_flight out p = elim (longest_unused none p.idles) [
  | none ↦ exhausted p
  | some c ↦
      let p' = drop_first c p in
      let rest = make_space fuel in_flight (out ++ c ∷ []) p' in
      if leb (add64 p'.idles_memory in_flight) p'.max_memory then made (out ++ c ∷ []) p' else rest
]

-- The guard before the loop.
unfoldable pub ensure_space : ℕ → ℕ → Pool → Space
ensure_space fuel in_flight p =
    let loop = make_space fuel in_flight [] p in
    if ltb p.max_memory (add64 p.idles_memory in_flight) then loop else made [] p
