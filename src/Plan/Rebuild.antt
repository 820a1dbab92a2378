-- ===== src/Plan/Rebuild.antt =====
-- internal/repo/l5layer.go: grouping the steps of a domain by topic; and the cache that
-- internal/domain/plancache.go builds from them. Unmarshal of encoding/json is a parameter.
use mem_hop.Prelude.{ℕ, ◌==◌, ◌≢◌, List, [], ◌∷◌, ◌++◌, Option, leb, All, map, Bool-cases, inl, inr}
use mem_hop.Prelude.Map.{Map, get, put, delete}
use mem_hop.Prelude.Sort.{sort_by, All-sort_by}
use mem_hop.Errors.{Result, ok, ◌>>=◌}
use mem_hop.Storage.Engine.{Engine}
use mem_hop.Records.{collect_all_strict, iter_all}
use mem_hop.Plan.{Node, PlanAggregate, PlanCache, known_or_new, sort_by_seq, recompute_plan_agg}
use mem_hop.Plan.Tree.{
  IsTree, IsCache, Change, changes, put-IsCache, recompute-figures, sort_by_seq-AscendsFrom,
  sort_by_seq-nonempty, changes-IsCache,
}

abbrev pub with_node : Node → PlanAggregate → PlanAggregate
with_node n agg = record agg { nodes = agg.nodes ++ (n ∷ []) }

-- The first loop of GroupPlanNodes.
unfoldable pub grouped : List Node → Map PlanAggregate → Map PlanAggregate
grouped [] m = m
grouped (n ∷ ns) m =
    grouped ns (put m n.topic_id (with_node n (known_or_new n.topic_id (get m n.topic_id))))

abbrev pub in_order : PlanAggregate → PlanAggregate
in_order agg = recompute_plan_agg (record agg { nodes = sort_by_seq agg.nodes })

unfoldable pub group_plan_nodes : List Node → List PlanAggregate
group_plan_nodes ns =
    sort_by (λ a b. leb a.topic_id b.topic_id) (map (λ row. in_order row.1) (grouped ns []))

unfoldable pub cache_all : List PlanAggregate → PlanCache → PlanCache
cache_all [] cache = cache
cache_all (agg ∷ aggs) cache = cache_all aggs (put cache agg.topic_id agg)

module _ (unmarshal : List ℕ → Option Node) where
  unfoldable pub collect_plan_nodes : Engine → ℕ → Result (List PlanAggregate)
  collect_plan_nodes e agent_id =
      collect_all_strict unmarshal e agent_id 15 >>= λ ns. ok (group_plan_nodes ns)

  -- buildPlanCache: what still decodes.
  unfoldable pub build_plan_cache : Engine → ℕ → PlanCache
  build_plan_cache e agent_id = cache_all (group_plan_nodes (iter_all unmarshal e agent_id 15)) []

abbrev HasNode : ℕ × PlanAggregate → Type 0
HasNode row = row.1.nodes ≢ []

append-nonempty : (ns : List Node) (n : Node) → ns ++ (n ∷ []) ≢ []
append-nonempty [] n h = absurd (cc h)
append-nonempty (m ∷ ns) n h = absurd (cc h)

delete-HasNode : (m : Map PlanAggregate) (k : ℕ) → All HasNode m → All HasNode (delete m k)
unfolding delete
delete-HasNode [] k h = tt
delete-HasNode ((j, agg) ∷ m) k h = elim (Bool-cases (j == k)) [
  | inl e ↦ rw e (delete-HasNode m k h.1)
  | inr e ↦ rw e (h.0, delete-HasNode m k h.1)
]

grouped-HasNode :
    (ns : List Node) (m : Map PlanAggregate) → All HasNode m → All HasNode (grouped ns m)
unfolding grouped put
grouped-HasNode [] m h = h
grouped-HasNode (n ∷ ns) m h =
    grouped-HasNode ns (put m n.topic_id (with_node n (known_or_new n.topic_id (get m n.topic_id))))
      (
        append-nonempty (known_or_new n.topic_id (get m n.topic_id)).nodes n,
        delete-HasNode m n.topic_id h,
      )

All-in_order : (m : Map PlanAggregate) → All HasNode m → All IsTree (map (λ row. in_order row.1) m)
All-in_order [] h = tt
All-in_order ((t, agg) ∷ m) h = (
  recompute-figures (record agg { nodes = sort_by_seq agg.nodes })
      (sort_by_seq-nonempty agg.nodes h.0) (sort_by_seq-AscendsFrom agg.nodes),
  All-in_order m h.1,
)

cache_all-IsCache :
    (aggs : List PlanAggregate) (cache : PlanCache)
    → All IsTree aggs
    → IsCache cache
    → IsCache (cache_all aggs cache)
unfolding cache_all
cache_all-IsCache [] cache t c = c
cache_all-IsCache (agg ∷ aggs) cache t c =
    cache_all-IsCache aggs (put cache agg.topic_id agg) t.1
      (put-IsCache cache agg.topic_id agg c t.0)

nothing-IsCache : IsCache []
unfolding get
nothing-IsCache topic agg h = absurd (cc h)

-- The cache that is built from the records of a domain, and then taken through any sequence of upserts, node removals
-- and topic removals, has trees that are non-empty, in ordinal order and with the figures of their nodes.
pub changes-build_plan_cache :
    (unmarshal : List ℕ → Option Node) (e : Engine) (a : ℕ) (cs : List Change)
    → IsCache (changes cs (build_plan_cache unmarshal e a))
unfolding build_plan_cache group_plan_nodes
changes-build_plan_cache unmarshal e a cs =
    let ns = iter_all unmarshal e a 15 in
    let trees = map (λ row. in_order row.1) (grouped ns []) in
    changes-IsCache cs (build_plan_cache unmarshal e a) (
      cache_all-IsCache (group_plan_nodes ns) []
        (All-sort_by (λ a b. leb a.topic_id b.topic_id) IsTree trees
          (All-in_order (grouped ns []) (grouped-HasNode ns [] tt)))
        nothing-IsCache)
