-- ===== src/Plan/Views/Active.antt =====
-- internal/plan/tree.go: what the view of a plan's steps in flight holds.
use Prim.Native.String.{String}
use text.Mathlib.Text.{◌==◌ as str_eq}
use text.Mathlib.TextEquality.{eq_iff}
use mem_hop.Prelude.{
  List, [], ◌∷◌, ◌++◌, ap, sym, ◌∙◌, append_assoc, append-nil, ℕ, ◌+◌, true, false, if◌then◌else◌,
  ◌≡◌, refl, inl, inr, Bool-cases, arith,
}
use mem_hop.Plan.Status.{plan_in_progress, plan_done}
use mem_hop.Plan.Views.{
  NodeView, NodeViews, node_view, no_views, and_views, add_counts, count_forest, append_views,
  active_node, active_nodes, active_forest,
}

unfoldable mutual
  -- How many views stand for a step in progress.
  pub open_node : NodeView → ℕ
  open_node (node_view seq parent title status summary created finished updated children) =
      (if str_eq status plan_in_progress then 1 else 0) + open_nodes children

  pub open_nodes : NodeViews → ℕ
  open_nodes no_views = 0
  open_nodes (and_views v vs) = open_node v + open_nodes vs

unfoldable mutual
  -- Every view is a step in progress and hangs under the step above it.
  pub IsLinked : NodeView → ℕ → Type 0
  IsLinked (node_view seq parent title status summary created finished updated children) under =
      (status ≡ plan_in_progress) × (parent ≡ under) × AreLinked children seq

  pub AreLinked : NodeViews → ℕ → Type 0
  AreLinked no_views under = Unit
  AreLinked (and_views v vs) under = IsLinked v under × AreLinked vs under

AreLinked-append :
    (vs ws : NodeViews) (under : ℕ)
    → AreLinked vs under
    → AreLinked ws under
    → AreLinked (append_views vs ws) under
unfolding AreLinked
AreLinked-append no_views ws under a b = b
AreLinked-append (and_views v vs) ws under a b = (a.0, AreLinked-append vs ws under a.1 b)

mutual
  unfolding IsLinked active_node

  active_node-AreLinked : (v : NodeView) (under : ℕ) → AreLinked (active_node v under) under
  active_node-AreLinked
        (node_view seq parent title status summary created finished updated children) under =
      elim (Bool-cases (str_eq status plan_in_progress)) [
        | inl e ↦ rw e (
          (((eq_iff status plan_in_progress).0 e, refl, active_nodes-AreLinked children seq)),
          tt,
        )
        | inr e ↦ rw e (active_nodes-AreLinked children under)
      ]

  active_nodes-AreLinked : (vs : NodeViews) (under : ℕ) → AreLinked (active_nodes vs under) under
  active_nodes-AreLinked no_views under = tt
  active_nodes-AreLinked (and_views v vs) under =
      AreLinked-append (active_node v under) (active_nodes vs under) under
        (active_node-AreLinked v under) (active_nodes-AreLinked vs under)

counts_eq : {a b c d : ℕ} → a ≡ c → b ≡ d → ◌≡◌ {A = ℕ × ℕ} (a, b) (c, d)
counts_eq p q = rw (p, q) refl

count_forest-append :
    (vs ws : NodeViews)
    → count_forest (append_views vs ws) ≡ add_counts (count_forest vs) (count_forest ws)
unfolding count_forest
count_forest-append no_views ws = counts_eq (omega arith) (omega arith)
count_forest-append (and_views v vs) ws =
    rw (count_forest-append vs ws) (counts_eq (omega arith) (omega arith))

not_done :
    (status : String) → str_eq status plan_in_progress ≡ true → str_eq status plan_done ≡ false
not_done status e = rw ((eq_iff status plan_in_progress).0 e) refl

mutual
  unfolding open_node active_node count_forest

  count_forest-active_node :
      (v : NodeView) (under : ℕ) → count_forest (active_node v under) ≡ (0, open_node v)
  count_forest-active_node
        (node_view seq parent title status summary created finished updated children) under =
      elim (Bool-cases (str_eq status plan_in_progress)) [
        | inl e ↦
            rw (e, not_done status e, count_forest-active_nodes children seq)
              (counts_eq refl (omega arith))
        | inr e ↦ rw (e, count_forest-active_nodes children under) (counts_eq refl (omega arith))
      ]

  count_forest-active_nodes :
      (vs : NodeViews) (under : ℕ) → count_forest (active_nodes vs under) ≡ (0, open_nodes vs)
  count_forest-active_nodes no_views under = refl
  count_forest-active_nodes (and_views v vs) under =
      rw
        (
          count_forest-append (active_node v under) (active_nodes vs under),
          count_forest-active_node v under,
          count_forest-active_nodes vs under,
        )
        refl

-- The nearest step in progress on the way up, given as status and ordinal from the nearest on; 0 without one.
abbrev pub nearest : List (String × ℕ) → ℕ
nearest [] = 0
nearest ((status, seq) ∷ above) = if str_eq status plan_in_progress then seq else nearest above

unfoldable mutual
  -- Each step in progress of the full view, in its order, without its children and under its nearest such ancestor.
  pub expected_of : NodeView → List (String × ℕ) → List NodeView
  expected_of (node_view seq parent title status summary created finished updated children) above =
      let rest = expected children ((status, seq) ∷ above) in
      if str_eq status plan_in_progress
      then node_view seq (nearest above) title status summary created finished updated no_views
        ∷ rest
      else rest

  pub expected : NodeViews → List (String × ℕ) → List NodeView
  expected no_views above = []
  expected (and_views v vs) above = expected_of v above ++ expected vs above

unfoldable mutual
  -- The views of a forest in its order, each without its children and under the view above it.
  pub placed_of : NodeView → ℕ → List NodeView
  placed_of (node_view seq parent title status summary created finished updated children) under =
      node_view seq under title status summary created finished updated no_views
      ∷ placed children seq

  pub placed : NodeViews → ℕ → List NodeView
  placed no_views under = []
  placed (and_views v vs) under = placed_of v under ++ placed vs under

placed-append :
    (vs ws : NodeViews) (under : ℕ)
    → placed (append_views vs ws) under ≡ placed vs under ++ placed ws under
unfolding placed
placed-append no_views ws under = refl
placed-append (and_views v vs) ws under =
    ap (λ r. placed_of v under ++ r) (placed-append vs ws under)
    ∙ sym (append_assoc (placed_of v under) (placed vs under) (placed ws under))

mutual
  unfolding placed expected active_node

  placed-active_node :
      (v : NodeView) (under : ℕ) (above : List (String × ℕ))
      → nearest above ≡ under
      → placed (active_node v under) under ≡ expected_of v above
  placed-active_node (node_view seq parent title status summary created finished updated children)
        under above h =
      elim (Bool-cases (str_eq status plan_in_progress)) [
        | inl e ↦
            rw (e, h)
              (rw
                (
                  append-nil (placed (active_nodes children seq) seq),
                  placed-active_nodes children seq ((status, seq) ∷ above) (rw e refl),
                )
                refl)
        | inr e ↦ rw e (placed-active_nodes children under ((status, seq) ∷ above) (rw e h))
      ]

  placed-active_nodes :
      (vs : NodeViews) (under : ℕ) (above : List (String × ℕ))
      → nearest above ≡ under
      → placed (active_nodes vs under) under ≡ expected vs above
  placed-active_nodes no_views under above h = refl
  placed-active_nodes (and_views v vs) under above h =
      placed-append (active_node v under) (active_nodes vs under) under
      ∙ rw (placed-active_node v under above h, placed-active_nodes vs under above h) refl

-- The view of the steps in flight holds the steps in progress of the full view, in its order and as they are,
-- each under its nearest such ancestor or the root, in the tree and in its parent's ordinal; none counts as
-- done and all are counted.
pub active_forest_lem :
    (vs : NodeViews)
    → (placed (active_forest vs) 0 ≡ expected vs [])
      × AreLinked (active_forest vs) 0
      × (count_forest (active_forest vs) ≡ (0, open_nodes vs))
unfolding active_forest
active_forest_lem vs =
    (placed-active_nodes vs 0 [] refl, active_nodes-AreLinked vs 0, count_forest-active_nodes vs 0)
