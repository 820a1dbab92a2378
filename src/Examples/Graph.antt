-- ===== src/Examples/Graph.antt =====
-- A graph of two edges, one of which joins three nodes.
use mem_hop.Prelude.{ℕ, refl, ◌≡◌, ◌↔◌, List, [], ◌∷◌, ◌&&◌, any}
use mem_hop.Prelude.Int.{pos}
use mem_hop.Graph.{GraphEdge, Adjacency, kept_kind, subgraph_adjacency, bfs_within_depth}
use mem_hop.Graph.Adjacency.{adjacent, members, adjacent-subgraph_adjacency}
use mem_hop.Graph.Walk.{In}
use mem_hop.Graph.Walk.Reach.{Hops, Within, bfs_within_depth-Within}
use mem_hop.Graph.Walk.Component.{bfs_within_depth-Hops}

abbrev edges : List GraphEdge
edges =
    record { kind = 1; node_ids = 1 ∷ 2 ∷ 3 ∷ [] } ∷ record { kind = 2; node_ids = 3 ∷ 4 ∷ [] } ∷ []

abbrev adj : Adjacency
adj = (subgraph_adjacency [] edges).0

adjacent-subgraph_adjacency_example :
    adjacent ((subgraph_adjacency (1 ∷ []) edges).0) 2 3
    ≡ any (λ e. kept_kind (1 ∷ []) e && members e.node_ids 2 3) edges
adjacent-subgraph_adjacency_example = adjacent-subgraph_adjacency (1 ∷ []) edges 2 3

bfs_within_depth-Within_example : In (bfs_within_depth 1 adj (pos 1)) 3 ↔ Within adj 1 1 3
bfs_within_depth-Within_example = bfs_within_depth-Within 1 adj 0 3

bfs_within_depth-Hops_example : In (bfs_within_depth 1 adj (pos 0)) 4 ↔ ((k : ℕ) × Hops adj k 1 4)
bfs_within_depth-Hops_example = bfs_within_depth-Hops 1 adj (pos 0) 4 refl
