-- ===== src/Inspect/Runner/Tests.antt =====
-- The theorems on the runner at concrete inputs.
use mathlib.Core.List.{Perm, mem-cons_self, mem-cons_of_mem}
use storage_bot.Base.{
  ℕ, arith, ◌+◌, ◌≡◌, ◌↔◌, ◌*◌, ◌<◌, ◌≤◌, refl, true, none, List, [], ◌∷◌, ◌++◌, map, lit, length,
  All,
}
use storage_bot.Executor.{SshNode}
use storage_bot.Inspect.Inspectors.{Inspector, registry, by_scope, node_scope, cluster_scope}
use storage_bot.Inspect.Runner.{Setting, Phase, Step, Run, here, IsDone, begin, cluster_findings}
use storage_bot.Inspect.Runner.Ends.{steps_left, can_end, nodes_phase_ends}
use storage_bot.Inspect.Runner.Blocks.{Block, all_of, Inspected, nodes_phase-Inspected}
use storage_bot.Inspect.Runner.Complete.{is_complete, nodes_phase_complete}
use storage_bot.Inspect.Samples.{whole, limits, silent, probed, other}

abbrev calm : Setting (Unit {0}) ℕ
calm = record {
  cluster_name = lit "cdn";
  gateway = none;
  wire = silent;
  thresholds = limits;
  floats = whole;
  decode = λ raw. none;
}

abbrev two : List SshNode
two = probed ∷ other ∷ []

abbrev per_node : List (Inspector (Unit {0}) ℕ)
per_node = by_scope node_scope registry

-- A finished run on two nodes, with a place for one goroutine.
abbrev over :
    (k : ℕ) × (u : Phase (Unit {0}) ℕ) × Run calm per_node 1 (begin calm registry two tt) k u
    × IsDone u
over =
    can_end calm per_node 1 (steps_left (length per_node) (begin calm registry two tt))
      (omega arith) here refl

nodes_phase_complete_example : is_complete over.1.findings per_node other ≡ true
nodes_phase_complete_example =
    nodes_phase_complete calm 1 two tt over.2 over.3 other (mem-cons_of_mem probed mem-cons_self)

nodes_phase-Inspected_example :
    (bs : List Block) × Perm
      (map (λ b. b.0) bs ++ (map (λ k. k.node) over.1.running ++ over.1.waiting))
      two
    × (over.1.findings
        ≡ (cluster_findings calm (by_scope cluster_scope registry) tt).0 ++ all_of bs)
    × All (λ b. Inspected calm b.0 per_node b.1) bs
    × (length over.1.running ≤ 1)
nodes_phase-Inspected_example = nodes_phase-Inspected calm 1 registry two tt over.2

nodes_phase_ends_example :
    (over.0 ≤ length two * (2 + length per_node))
    × ((over.0 < length two * (2 + length per_node))
        ↔ ((t : Phase (Unit {0}) ℕ) × Step calm per_node 1 over.1 t))
    × ((over.0 ≡ length two * (2 + length per_node)) ↔ IsDone over.1)
nodes_phase_ends_example = nodes_phase_ends calm 1 registry two tt (omega arith) over.2
