-- ===== src/Plan/Writes.antt =====
-- internal/plan/write.go and WritePlanNode of internal/repo/l5layer.go: creating and restating one step,
-- in the records and in the plan cache. encoding/json and xxhash are parameters; `now` is the time in Unix milliseconds that the clock gave.
pub mod Outcome
pub mod Update
pub mod Refused
use Prim.Native.String.{String}
use text.Mathlib.Text.{◌==◌ as str_eq}
use mem_hop.Prelude.{
  ℕ, List, Bool, true, false, Option, none, some, not, zero, suc, ◌+◌, ◌/◌, ◌%◌, ltb, [], ◌∷◌, ◌&&◌,
  ◌==◌, if◌then◌else◌,
}
use mem_hop.Prelude.Int.{ℤ, pos, negsuc}
use mem_hop.Errors.{Code, Result, ok, err, invalid_query, not_found}
use mem_hop.Storage.Engine.{Engine, Act, fail}
use mem_hop.Records.{read_json, write_json, is_not_found}
use mem_hop.Index.Content.{ContentIndex, max_node_seq}
use mem_hop.Plan.{Node, PlanCache, has_seq, next_seq, upsert_node, status_in_progress}
use mem_hop.Plan.Status.{status_to_u8, is_terminal_status}

abbrev pub rec_l5_plan_node : ℕ
rec_l5_plan_node = 15

-- What the plan writes use of an agent's Context.
pub record Domain : Type 0 where
  pub engine : Engine
  pub content : ContentIndex
  pub plans : PlanCache

pub record NodeSpec : Type 0 where
  pub topic_id : ℕ
  pub parent_seq : ℕ
  pub title : String

pub record Step : Type 0 where
  pub topic_id : ℕ
  pub seq : ℕ
  pub status : String
  pub title : String
  pub summary : String

-- The digits of fmt's %d. A uint64 has at most 20 of them.
unfoldable pub digits : ℕ → ℕ → List ℕ → List ℕ
digits zero n done = done
digits (suc fuel) n done =
    let rest = digits fuel (n / 10) ((48 + n % 10) ∷ done) in
    if ltb n 10 then (48 + n) ∷ done else rest

-- HashPlanNode, over the bytes of "plan:%d:%d".
abbrev pub hash_plan_node : (List ℕ → ℕ) → ℕ → ℕ → ℕ
hash_plan_node xxhash topic_id seq =
    xxhash (112 ∷ 108 ∷ 97 ∷ 110 ∷ 58 ∷ digits 20 topic_id (58 ∷ digits 20 seq []))

abbrev pub is_zero : ℤ → Bool
is_zero (pos n) = n == 0
is_zero (negsuc n) = false

abbrev pub new_node : ℕ → NodeSpec → ℕ → ℤ → Node
new_node id spec seq now = record {
  id_hash = id;
  topic_id = spec.topic_id;
  seq = seq;
  parent_seq = spec.parent_seq;
  status = status_in_progress;
  title = spec.title;
  summary = "";
  summary_folded = false;
  created_at = now;
  finished_at = pos 0;
  updated_at = now;
}

-- The fields that UpdateNode sets on the node it read.
unfoldable pub restate : ℤ → ℕ → Step → Node → Node
restate now status step node = record node {
  status = status;
  summary = if str_eq step.summary "" then node.summary else step.summary;
  summary_folded = if str_eq step.summary "" then node.summary_folded else false;
  title = if str_eq step.title "" then node.title else step.title;
  finished_at =
      if is_terminal_status status
      then (if is_zero node.finished_at then now else node.finished_at)
      else pos 0;
  updated_at = now;
}

module _ (marshal : Node → Option (List ℕ)) (unmarshal : List ℕ → Option Node)
    (xxhash : List ℕ → ℕ) where
  unfoldable pub write_plan_node : ℕ → Node → Act (Unit {0})
  write_plan_node agent_id node =
      if node.seq == 0
      then fail invalid_query
      else if not (node.id_hash == hash_plan_node xxhash node.topic_id node.seq)
      then fail invalid_query
      else write_json marshal agent_id rec_l5_plan_node node.id_hash node

  -- The record comes first; the cache follows only when it was written.
  abbrev pub cached :
      {A : Type 0} → A → Node → Domain → Result (Unit {0}) × Engine → Result A × Domain
  cached a node d (ok u, e) =
      (ok a, record d { engine = e; plans = upsert_node d.plans node.topic_id node })
  cached a node d (err c, e) = (err c, record d { engine = e })

  unfoldable pub write_node : {A : Type 0} → A → ℕ → Node → Domain → Result A × Domain
  write_node a agent_id node d = cached a node d (write_plan_node agent_id node d.engine)

  abbrev pub read_plan_node : Engine → ℕ → ℕ → Result Node
  read_plan_node e agent_id id = read_json unmarshal e agent_id id rec_l5_plan_node

  -- Whether the address of the new step can be shown to be free, or held by a step.
  abbrev pub refused : Result Node → Option Code
  refused (ok n) = none
  refused (err c) = if is_not_found c then none else some c

  abbrev pub create_at : ℕ → ℤ → NodeSpec → ℕ → Domain → Option Code → Result ℕ × Domain
  create_at agent_id now spec seq d (some c) = (err c, d)
  create_at agent_id now spec seq d none =
      write_node seq agent_id (new_node (hash_plan_node xxhash spec.topic_id seq) spec seq now) d

  unfoldable pub create_node : ℕ → ℤ → NodeSpec → Domain → Result ℕ × Domain
  create_node agent_id now spec d =
      let seq = next_seq d.plans spec.topic_id (max_node_seq d.content spec.topic_id) in
      let id = hash_plan_node xxhash spec.topic_id seq in
      if not (spec.parent_seq == 0) && not (has_seq d.plans spec.topic_id spec.parent_seq)
      then (err not_found, d)
      else create_at agent_id now spec seq d (refused (read_plan_node d.engine agent_id id))

  abbrev pub update_read : ℕ → ℤ → ℕ → Step → Domain → Result Node → Result (Unit {0}) × Domain
  update_read agent_id now status step d (err c) = (err c, d)
  update_read agent_id now status step d (ok node) =
      write_node tt agent_id (restate now status step node) d

  abbrev pub update_status : ℕ → ℤ → Step → Domain → Result ℕ → Result (Unit {0}) × Domain
  update_status agent_id now step d (err c) = (err c, d)
  update_status agent_id now step d (ok status) =
      update_read agent_id now status step d
        (read_plan_node d.engine agent_id (hash_plan_node xxhash step.topic_id step.seq))

  unfoldable pub update_node : ℕ → ℤ → Step → Domain → Result (Unit {0}) × Domain
  update_node agent_id now step d = update_status agent_id now step d (status_to_u8 step.status)

  -- UpdateNodeSummaryLocked
  abbrev pub fold_read : ℕ → ℤ → String → Domain → Result Node → Result (Unit {0}) × Domain
  fold_read agent_id now summary d (err c) = (err c, d)
  fold_read agent_id now summary d (ok node) =
      write_node tt agent_id
        (record node { summary = summary; summary_folded = true; updated_at = now }) d

  unfoldable pub update_node_summary_locked :
      ℕ → ℤ → ℕ → String → Domain → Result (Unit {0}) × Domain
  update_node_summary_locked agent_id now node_id summary d =
      fold_read agent_id now summary d (read_plan_node d.engine agent_id node_id)
