-- ===== src/Plan.antt =====
-- A turn's plan tree. internal/repo/l5layer.go: the node, the tree of a topic and its two derived
-- figures. internal/domain/plancache.go: every topic's tree, kept in memory.
pub mod Tree
pub mod Status
pub mod Views
pub mod Writes
pub mod Cascade
pub mod Rebuild
use Prim.Native.String.{String}
use mem_hop.Prelude.{
  ℕ, List, [], ◌∷◌, ◌++◌, ◌+◌, ◌%◌, Bool, true, false, Option, none, some, not, leb, ltb, ◌==◌,
  if◌then◌else◌, keep_if, contains, any,
}
use mem_hop.Prelude.Int.{ℤ, pos, lt_int}
use mem_hop.Prelude.Map.{Map, get, put, delete}

-- core.PlanNode
pub record Node : Type 0 where
  pub id_hash : ℕ
  pub topic_id : ℕ
  pub seq : ℕ
  pub parent_seq : ℕ
  pub status : ℕ
  pub title : String
  pub summary : String
  pub summary_folded : Bool
  pub created_at : ℤ
  pub finished_at : ℤ
  pub updated_at : ℤ

-- PlanAggregate
pub record PlanAggregate : Type 0 where
  pub topic_id : ℕ
  pub nodes : List Node
  pub last_active_at : ℤ
  pub has_non_done : Bool

abbrev pub status_in_progress : ℕ
status_in_progress = 0

abbrev pub status_done : ℕ
status_done = 1

abbrev pub status_failed : ℕ
status_failed = 2

-- slices.SortFunc with ComparePlanNodeSeq. The ordinals of a tree are distinct, so that every sort
-- gives this list.
unfoldable pub insert_by_seq : Node → List Node → List Node
insert_by_seq n [] = n ∷ []
insert_by_seq n (x ∷ xs) =
    let rest = insert_by_seq n xs in if leb n.seq x.seq then n ∷ x ∷ xs else x ∷ rest

unfoldable pub sort_by_seq : List Node → List Node
sort_by_seq [] = []
sort_by_seq (n ∷ ns) = insert_by_seq n (sort_by_seq ns)

-- The loop of RecomputePlanAgg.
unfoldable pub latest_loop : ℤ → List Node → ℤ
latest_loop top [] = top
latest_loop top (n ∷ ns) = latest_loop (if lt_int top n.updated_at then n.updated_at else top) ns

abbrev pub is_open : Node → Bool
is_open n = not (n.status == status_done)

unfoldable pub recompute_plan_agg : PlanAggregate → PlanAggregate
recompute_plan_agg agg = record agg {
  last_active_at = latest_loop (pos 0) agg.nodes;
  has_non_done = any is_open agg.nodes;
}

abbrev pub PlanCache : Type 0
PlanCache = Map PlanAggregate

-- Aggregate, and the nodes of a tree that may be unknown.
abbrev pub nodes_of : Option PlanAggregate → List Node
nodes_of none = []
nodes_of (some agg) = agg.nodes

abbrev pub tree_at : PlanCache → ℕ → List Node
tree_at cache topic = nodes_of (get cache topic)

unfoldable pub has_seq : PlanCache → ℕ → ℕ → Bool
has_seq cache topic seq = any (λ n. n.seq == seq) (tree_at cache topic)

-- The loop of NextSeq.
unfoldable pub top_seq : ℕ → List Node → ℕ
top_seq top [] = top
top_seq top (n ∷ ns) = top_seq (if ltb top n.seq then n.seq else top) ns

-- An ordinal is a uint32: the addition wraps.
unfoldable pub next_seq : PlanCache → ℕ → ℕ → ℕ
next_seq cache topic reserved =
    let top = top_seq 0 (tree_at cache topic) in
    ((if ltb top reserved then reserved else top) + 1) % 4294967296

-- The loop of UpsertNode: the first node with the id is replaced, and without one the node goes to
-- the end.
unfoldable pub replace_node : Node → List Node → List Node
replace_node node [] = node ∷ []
replace_node node (n ∷ ns) =
    let rest = replace_node node ns in if n.id_hash == node.id_hash then node ∷ ns else n ∷ rest

abbrev pub new_aggregate : ℕ → PlanAggregate
new_aggregate topic = record {
  topic_id = topic;
  nodes = [];
  last_active_at = pos 0;
  has_non_done = false;
}

abbrev pub known_or_new : ℕ → Option PlanAggregate → PlanAggregate
known_or_new topic none = new_aggregate topic
known_or_new topic (some agg) = agg

-- UpsertNode on one tree.
unfoldable pub upsert_tree : PlanAggregate → Node → PlanAggregate
upsert_tree agg node =
    recompute_plan_agg (record agg { nodes = sort_by_seq (replace_node node agg.nodes) })

unfoldable pub upsert_node : PlanCache → ℕ → Node → PlanCache
upsert_node cache topic node =
    put cache topic (upsert_tree (known_or_new topic (get cache topic)) node)

unfoldable pub survivors : List ℕ → List Node → List Node
survivors doomed ns = keep_if (λ n. not (contains doomed n.id_hash)) ns

-- RemoveNodes on the tree that it found, and on the nodes that it leaves.
unfoldable pub leave_nodes : PlanCache → ℕ → PlanAggregate → List Node → PlanCache
leave_nodes cache topic agg [] = delete cache topic
leave_nodes cache topic agg (x ∷ xs) =
    put cache topic (recompute_plan_agg (record agg { nodes = x ∷ xs }))

unfoldable pub remove_from_tree : PlanCache → ℕ → List ℕ → Option PlanAggregate → PlanCache
remove_from_tree cache topic doomed none = cache
remove_from_tree cache topic doomed (some agg) =
    leave_nodes cache topic agg (survivors doomed agg.nodes)

unfoldable pub remove_nodes : PlanCache → ℕ → List ℕ → PlanCache
remove_nodes cache topic doomed = remove_from_tree cache topic doomed (get cache topic)

unfoldable pub remove_topic : PlanCache → ℕ → PlanCache
remove_topic cache topic = delete cache topic
