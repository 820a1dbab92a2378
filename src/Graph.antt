-- ===== src/Graph.antt =====
-- internal/graph/query.go: the node filter, the undirected adjacency of a graph's edges, and the walk
-- over it. A Go set is a list, with `contains` for its lookup: no theorem reads the order in which
-- Go's iteration visits it.
pub mod Adjacency
pub mod Walk
use Prim.Native.String.{String}
use text.Mathlib.Text.{◌==◌ as str_eq}
use mem_hop.Prelude.{
  ℕ, zero, suc, ◌+◌, List, [], ◌∷◌, ◌++◌, Bool, true, false, Option, none, some, not, ◌&&◌, ◌||◌,
  ◌==◌, if◌then◌else◌, contains, any, length,
}
use mem_hop.Prelude.Int.{ℤ, pos, negsuc}
use mem_hop.Prelude.Map.{Map, get, put}

-- core.HypergraphNode: what the filter and the walk read.
pub record GraphNode : Type 0 where
  pub id_hash : ℕ
  pub graph_id : ℕ
  pub node_type : String
  pub title : String
  pub content : String
  pub keywords : List String

-- core.HypergraphEdge: what the adjacency reads. GraphEdgeKind is a uint8.
pub record GraphEdge : Type 0 where
  pub kind : ℕ
  pub node_ids : List ℕ

-- NodeFilter, the absent id set of Go's nil being `none`.
pub record NodeFilter : Type 0 where
  pub ids : Option (List ℕ)
  pub keyword : String
  pub node_type : String

-- strings.Contains and strings.ToLower are the standard library's.
module _ (has_text : String → String → Bool) (to_lower : String → String) where
  unfoldable pub matches_keyword : GraphNode → String → Bool
  matches_keyword n kw =
      has_text (to_lower n.title) kw
      || has_text (to_lower n.content) kw
      || any (λ k. has_text (to_lower k) kw) n.keywords

  abbrev pub id_admitted : Option (List ℕ) → ℕ → Bool
  id_admitted none id = true
  id_admitted (some ids) id = contains ids id

  unfoldable pub matches : NodeFilter → GraphNode → Bool
  matches f n =
      if not (id_admitted f.ids n.id_hash)
      then false
      else if not (str_eq f.node_type "") && not (str_eq n.node_type f.node_type)
      then false
      else if not (str_eq f.keyword "") && not (matches_keyword n f.keyword)
      then false
      else true

-- map[uint64]map[uint64]struct{}
abbrev pub Adjacency : Type 0
Adjacency = Map (List ℕ)

abbrev pub set_of : Option (List ℕ) → List ℕ
set_of none = []
set_of (some xs) = xs

abbrev pub neighbours : Adjacency → ℕ → List ℕ
neighbours adj a = set_of (get adj a)

unfoldable pub add_to_set : List ℕ → ℕ → List ℕ
add_to_set xs a = if contains xs a then xs else a ∷ xs

-- adj[a][b] and adj[b][a], each set made when it is missing.
unfoldable pub link : Adjacency → ℕ → ℕ → Adjacency
link adj a b =
    let forth = put adj a (add_to_set (neighbours adj a) b) in
    put forth b (add_to_set (neighbours forth b) a)

-- The inner loop of connectNodes.
unfoldable pub connect_to : Adjacency → ℕ → List ℕ → Adjacency
connect_to adj a [] = adj
connect_to adj a (b ∷ bs) = connect_to (if a == b then adj else link adj a b) a bs

unfoldable pub connect_nodes : Adjacency → List ℕ → Adjacency
connect_nodes adj [] = adj
connect_nodes adj (a ∷ bs) = connect_nodes (connect_to adj a bs) bs

abbrev pub kept_kind : List ℕ → GraphEdge → Bool
kept_kind [] e = true
kept_kind (k ∷ ks) e = contains (k ∷ ks) e.kind

-- SubgraphAdjacency from the edges that ListEdgeL3 read: the adjacency and the kept edges.
abbrev pub keep_edge : List ℕ → GraphEdge → Adjacency × List GraphEdge → Adjacency × List GraphEdge
keep_edge kinds e s =
    if kept_kind kinds e then (connect_nodes s.0 e.node_ids, s.1 ++ (e ∷ [])) else s

unfoldable pub subgraph_loop :
    List ℕ → List GraphEdge → Adjacency × List GraphEdge → Adjacency × List GraphEdge
subgraph_loop kinds [] s = s
subgraph_loop kinds (e ∷ es) s = subgraph_loop kinds es (keep_edge kinds e s)

unfoldable pub subgraph_adjacency : List ℕ → List GraphEdge → Adjacency × List GraphEdge
subgraph_adjacency kinds edges = subgraph_loop kinds edges ([], [])

-- The visited set, and the round that follows.
pub record Round : Type 0 where
  pub visited : List ℕ
  pub next : List ℕ

-- The two inner loops of BfsWithinDepth.
unfoldable pub visit : List ℕ → Round → Round
visit [] r = r
visit (nb ∷ nbs) r = visit nbs (
    if contains r.visited nb
    then r
    else record { visited = nb ∷ r.visited; next = r.next ++ (nb ∷ []) })

unfoldable pub sweep : Adjacency → List ℕ → Round → Round
sweep adj [] r = r
sweep adj (cur ∷ queue) r = sweep adj queue (visit (neighbours adj cur) r)

-- The outer loop, for as many rounds as are left.
unfoldable pub rounds : ℕ → Adjacency → Round → List ℕ
rounds zero adj r = r.visited
rounds (suc n) adj r = elim r.next [
  | [] ↦ r.visited
  | q ∷ qs ↦ rounds n adj (sweep adj (q ∷ qs) (record { visited = r.visited; next = [] }))
]

abbrev pub entries : Adjacency → List ℕ
entries [] = []
entries ((a, bs) ∷ adj) = bs ++ entries adj

-- An unbounded walk visits an id at most once: a round for each entry of the sets, and one more, are
-- enough.
unfoldable pub round_limit : ℤ → Adjacency → ℕ
round_limit (pos zero) adj = suc (length (entries adj))
round_limit (pos (suc n)) adj = suc n
round_limit (negsuc n) adj = suc (length (entries adj))

unfoldable pub bfs_within_depth : ℕ → Adjacency → ℤ → List ℕ
bfs_within_depth start adj max_depth =
    rounds (round_limit max_depth adj) adj (record { visited = start ∷ []; next = start ∷ [] })

unfoldable pub all_nodes_visited : List ℕ → List ℕ → Bool
all_nodes_visited [] visited = true
all_nodes_visited (id ∷ ids) visited =
    let rest = all_nodes_visited ids visited in if contains visited id then rest else false
