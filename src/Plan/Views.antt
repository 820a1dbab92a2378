-- ===== src/Plan/Views.antt =====
-- internal/plan/tree.go: the view of a plan's forest, its count, and the part that is still in flight.
pub mod Active
use Prim.Native.String.{String}
use text.Mathlib.Text.{◌==◌ as str_eq}
use text.Mathlib.TextEquality.{eq_iff}
use mem_hop.Prelude.{
  ℕ, ◌+◌, List, [], ◌∷◌, ◌++◌, Bool, true, false, if◌then◌else◌, ◌≡◌, refl, sym, ap, ◌∙◌, subst,
  ◌⊎◌, inl, inr, ◌==◌, Bool-cases, ◌&&◌, arith,
}
use mem_hop.Prelude.Int.{ℤ}
use mem_hop.Errors.{Result, ok, err, ◌>>=◌, Code, deserialization}
use mem_hop.Plan.Status.{status_to_string, plan_in_progress, plan_done}
use mem_hop.Plan.{status_in_progress, status_done, status_failed}

-- planNode, its children a forest.
mutual
  pub data PlanNode : Type 0 where
    plan_node :
        (seq parent_seq : ℕ) (title : String) (status : ℕ) (summary : String)
        (created_at finished_at updated_at : ℤ) (children : PlanNodes)
        → PlanNode

  pub data PlanNodes : Type 0 where
    no_nodes : PlanNodes
    and_nodes : PlanNode → PlanNodes → PlanNodes

-- PlanNodeView
mutual
  pub data NodeView : Type 0 where
    node_view :
        (seq parent_seq : ℕ) (title status summary : String) (created_at finished_at updated_at : ℤ)
        (children : NodeViews)
        → NodeView

  pub data NodeViews : Type 0 where
    no_views : NodeViews
    and_views : NodeView → NodeViews → NodeViews

-- A title left blank reads as the ordinal, which strconv.FormatUint writes.
abbrev pub title_or : (ℕ → String) → ℕ → String → String
title_or format_uint seq title = if str_eq title "" then format_uint seq else title

unfoldable mutual
  pub to_node_view : (ℕ → String) → PlanNode → Result NodeView
  to_node_view f (plan_node seq parent title status summary created finished updated children) =
      let views = to_node_views f children in
      status_to_string status >>= (λ s. views >>= (λ vs.
        ok (node_view seq parent (title_or f seq title) s summary created finished updated vs)))

  pub to_node_views : (ℕ → String) → PlanNodes → Result NodeViews
  to_node_views f no_nodes = ok no_views
  to_node_views f (and_nodes n ns) =
      let views = to_node_views f ns in
      to_node_view f n >>= (λ v. views >>= (λ vs. ok (and_views v vs)))

-- Done and total.
abbrev pub add_counts : ℕ × ℕ → ℕ × ℕ → ℕ × ℕ
add_counts a b = (a.0 + b.0, a.1 + b.1)

unfoldable mutual
  pub count_tree : NodeView → ℕ × ℕ
  count_tree (node_view seq parent title status summary created finished updated children) =
      add_counts (if str_eq status plan_done then 1 else 0, 1) (count_forest children)

  pub count_forest : NodeViews → ℕ × ℕ
  count_forest no_views = (0, 0)
  count_forest (and_views v vs) = add_counts (count_tree v) (count_forest vs)

abbrev pub append_views : NodeViews → NodeViews → NodeViews
append_views no_views ws = ws
append_views (and_views v vs) ws = and_views v (append_views vs ws)

unfoldable mutual
  -- One round of the loop of activeNodes: what it appends for a view.
  pub active_node : NodeView → ℕ → NodeViews
  active_node (node_view seq parent title status summary created finished updated children) under =
      let lifted = active_nodes children under in
      let kept = active_nodes children seq in
      if str_eq status plan_in_progress
      then and_views (node_view seq under title status summary created finished updated kept)
          no_views
      else lifted

  pub active_nodes : NodeViews → ℕ → NodeViews
  active_nodes no_views under = no_views
  active_nodes (and_views v vs) under = append_views (active_node v under) (active_nodes vs under)

unfoldable pub active_forest : NodeViews → NodeViews
active_forest vs = active_nodes vs 0

-- PlanTree
pub record PlanTree : Type 0 where
  pub roots : NodeViews
  pub done_count : ℕ
  pub total_count : ℕ

unfoldable pub plan_tree : NodeViews → PlanTree
plan_tree vs = record {
  roots = vs;
  done_count = (count_forest vs).0;
  total_count = (count_forest vs).1;
}

-- BuildTree from the forest of the topic.
unfoldable pub build_tree : (ℕ → String) → PlanNodes → Result PlanTree
build_tree f roots = to_node_views f roots >>= (λ vs. ok (plan_tree vs))

unfoldable pub build_active_tree : (ℕ → String) → PlanNodes → Result PlanTree
build_active_tree f roots =
    build_tree f roots >>= (λ full. ok (plan_tree (active_forest full.roots)))
