-- ===== src/Examples/Plan.antt =====
-- A plan of three steps, the middle one of them done.
use mem_hop.Prelude.{◌≡◌, []}
use mem_hop.Prelude.Int.{pos}
use mem_hop.Plan.Status.{plan_done, plan_in_progress}
use mem_hop.Plan.Views.{NodeViews, node_view, no_views, and_views, active_forest, count_forest}
use mem_hop.Plan.Views.Active.{AreLinked, open_nodes, placed, expected, active_forest_lem}

-- A step in progress, under it a step that is done, and under that another one in progress.
abbrev views : NodeViews
views =
    and_views
      (node_view 1 0 "plan" plan_in_progress "" (pos 1) (pos 0) (pos 2) (
        and_views
          (node_view 2 1 "read" plan_done "" (pos 1) (pos 2) (pos 2) (
            and_views (node_view 3 2 "write" plan_in_progress "" (pos 1) (pos 0) (pos 2) no_views)
              no_views))
          no_views))
      no_views

active_forest_lem_example :
    (placed (active_forest views) 0 ≡ expected views [])
    × AreLinked (active_forest views) 0
    × (count_forest (active_forest views) ≡ (0, open_nodes views))
active_forest_lem_example = active_forest_lem views
