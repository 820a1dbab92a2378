-- ===== src/Examples/Records.antt =====
-- A step of a plan, created and then closed, in a new database. The codec knows just these two records.
use mem_hop.Prelude.{
  Bool, sym, ap, not, inr, any, ℕ, ◌<◌, ◌≡◌, refl, List, [], ◌∷◌, true, false, Option, none, some,
  suc, zero, ◌⊎◌, inl, contains, ◌&&◌, ◌||◌, ◌==◌, if◌then◌else◌, arith,
}
use mem_hop.Prelude.Int.{pos}
use mem_hop.Prelude.Sort.{sort, insert_sorted}
use mem_hop.Prelude.Map.{get}
use mem_hop.Errors.{Code, ok, err, not_found}
use mem_hop.Storage.Engine.{Engine, index_by_type}
use mem_hop.Storage.Read.{read_record}
use mem_hop.Storage.Fresh.{created, created-IsReady}
use mem_hop.Storage.Ready.{IsReady}
use mem_hop.Storage.Store.{frame_of}
use mem_hop.Storage.Frame.RoundTrip.{IsStorable}
use mem_hop.Records.{read_json, write_json, iter_all, is_not_found, collect_all_strict, collect_ids}
use mem_hop.Records.Laws.{write_json-read_json, collect_all_strict_lem}
use mem_hop.Index.Content.{max_node_seq, max_node_loop}
use mem_hop.Plan.{
  tree_at, upsert_tree, replace_node, sort_by_seq, insert_by_seq, recompute_plan_agg, Node, has_seq,
  next_seq, upsert_node, top_seq,
}
use mem_hop.Plan.Tree.{IsCache, changes, drop_nodes}
use mem_hop.Plan.Rebuild.{build_plan_cache, changes-build_plan_cache}
use mem_hop.Plan.Status.{plan_done, status_to_u8}
use mem_hop.Plan.Cascade.{
  plan_node_ids_by_topic_ids, plan_node_ids_by_topic_ids_lem, doomed_of, is_named,
}
use mem_hop.Plan.Writes.{
  Domain, NodeSpec, Step, hash_plan_node, new_node, restate, create_node, update_node,
  read_plan_node, digits,
}
use mem_hop.Plan.Writes.Refused.{IsUntouched, create_node_err, update_node_err}
use mem_hop.Prelude.Map.{put}
use mem_hop.Plan.Writes.Update.{AtMostOnce, IsRestated, update_node_lem}
use mem_hop.Plan.Writes.Outcome.{create_node_lem, new_seq, new_id, step_of}

abbrev spec : NodeSpec
spec = record { topic_id = 9; parent_seq = 0; title = "read" }

abbrev orphan : NodeSpec
orphan = record { topic_id = 9; parent_seq = 4; title = "read" }

abbrev closing : Step
closing = record { topic_id = 9; seq = 1; status = plan_done; title = ""; summary = "" }

-- plan:9:1
abbrev opened_step : Node
opened_step = new_node 8 spec 1 (pos 5)

abbrev closed_step : Node
closed_step = restate (pos 7) 1 closing opened_step

abbrev marshal : Node → Option (List ℕ)
marshal node = some (node.status ∷ [])

abbrev unmarshal : List ℕ → Option Node
unmarshal [] = none
unmarshal (zero ∷ bytes) = some opened_step
unmarshal (suc n ∷ bytes) = some closed_step

unfoldable xxhash : List ℕ → ℕ
xxhash [] = 0
xxhash (b ∷ bytes) = suc (xxhash bytes)

abbrev domain : Domain
domain = record { engine = created; content = []; plans = [] }

step_frame-IsStorable : (s : ℕ) → s < 2 → IsStorable (frame_of 1 15 8 (s ∷ []))
step_frame-IsStorable s small = record {
  typed = omega arith;
  sized = omega arith;
  agent = omega arith;
  id = omega arith;
}

write_json-read_json_example :
    (e' : Engine) × (write_json marshal 1 15 8 opened_step created ≡ (ok tt, e'))
    × IsReady e'
    × (e'.plan ≡ [])
    × ((b j u : ℕ)
        → read_json unmarshal e' b j u ≡ (
            if 1 == b && 8 == j
            then (if 15 == u then ok opened_step else err not_found)
            else read_json unmarshal created b j u))
write_json-read_json_example =
    write_json-read_json marshal unmarshal created 1 15 8 opened_step (0 ∷ []) refl created-IsReady
      (step_frame-IsStorable 0 (omega arith)) refl refl

first_id : new_id marshal unmarshal xxhash domain spec ≡ 8
unfolding digits xxhash next_seq max_node_seq max_node_loop top_seq get
first_id = refl

create_node_err_example : IsUntouched domain domain
unfolding create_node has_seq get
create_node_err_example =
    create_node_err marshal unmarshal xxhash 1 (pos 5) orphan domain domain not_found refl

free :
    read_plan_node marshal unmarshal xxhash created 1 (new_id marshal unmarshal xxhash domain spec)
    ≡ err not_found
unfolding read_json read_record get
free = refl

is_new : step_of marshal unmarshal xxhash domain spec (pos 5) ≡ opened_step
unfolding digits xxhash next_seq max_node_seq max_node_loop top_seq get
is_new = refl

create_node_lem_example :
    (d' : Domain) × (create_node marshal unmarshal xxhash 1 (pos 5) spec domain
      ≡ (ok (new_seq marshal unmarshal xxhash domain spec), d'))
    × (max_node_seq [] 9 < new_seq marshal unmarshal xxhash domain spec)
    × (has_seq [] 9 (new_seq marshal unmarshal xxhash domain spec) ≡ false)
    × (read_plan_node marshal unmarshal xxhash d'.engine 1
          (new_id marshal unmarshal xxhash domain spec)
        ≡ ok (step_of marshal unmarshal xxhash domain spec (pos 5)))
    × ((topic s : ℕ)
        → has_seq d'.plans topic s ≡ (
            (9 == topic && new_seq marshal unmarshal xxhash domain spec == s)
            || has_seq [] topic s))
    × IsReady d'.engine
    × (d'.engine.plan ≡ [])
unfolding digits xxhash next_seq max_node_seq max_node_loop top_seq get
create_node_lem_example =
    create_node_lem marshal unmarshal xxhash 1 (pos 5) spec domain (0 ∷ []) refl created-IsReady
      (inl refl) tt (omega arith) free tt (step_frame-IsStorable 0 (omega arith)) refl refl

missing : update_node marshal unmarshal xxhash 1 (pos 7) closing domain ≡ (err not_found, domain)
unfolding update_node status_to_u8 read_json read_record get
missing = refl

update_node_err_example : IsUntouched domain domain
update_node_err_example =
    update_node_err marshal unmarshal xxhash 1 (pos 7) closing domain domain not_found missing

abbrev made :
    (e' : Engine) × (write_json marshal 1 15 8 opened_step created ≡ (ok tt, e'))
    × IsReady e'
    × (e'.plan ≡ [])
    × ((b j u : ℕ)
        → read_json unmarshal e' b j u ≡ (
            if 1 == b && 8 == j
            then (if 15 == u then ok opened_step else err not_found)
            else read_json unmarshal created b j u))
made =
    write_json-read_json marshal unmarshal created 1 15 8 opened_step (0 ∷ []) refl created-IsReady
      (step_frame-IsStorable 0 (omega arith)) refl refl

abbrev planned : Domain
planned = record { engine = made.0; content = []; plans = upsert_node [] 9 opened_step }

found :
    read_plan_node marshal unmarshal xxhash made.0 1 (hash_plan_node xxhash 9 1) ≡ ok opened_step
unfolding digits xxhash
found = made.4 1 8 15

-- The codec knows the step that the update leaves.
restated : (new : Node) → IsRestated (pos 7) 1 closing opened_step new → new ≡ closed_step
unfolding restate
restated new r =
    let (id, topic, seq, parent, at) = r.identity in
    let (status, updated) = r.state in
    let title = r.title.0 refl in
    let summary = r.summary.0 refl in
    let folded = r.folded.0 refl in
    let finished = r.ends (inl refl) refl in
    λ i. record {
      id_hash = id i;
      topic_id = topic i;
      seq = seq i;
      parent_seq = parent i;
      status = status i;
      title = title i;
      summary = summary i;
      summary_folded = folded i;
      created_at = at i;
      finished_at = finished i;
      updated_at = updated i;
    }

knows :
    (new : Node)
    → IsRestated (pos 7) 1 closing opened_step new
    → (bytes : List ℕ) × (marshal new ≡ some bytes)
      × (unmarshal bytes ≡ some new)
      × IsStorable (frame_of 1 15 8 bytes)
unfolding restate
knows new r = (
  1 ∷ [],
  ap marshal (restated new r),
  ap some (sym (restated new r)),
  step_frame-IsStorable 1 (omega arith),
)

cached_once : AtMostOnce 8 (tree_at planned.plans 9)
unfolding upsert_node get put upsert_tree replace_node sort_by_seq insert_by_seq recompute_plan_agg
cached_once = ((λ h. tt), tt)

update_node_lem_example :
    (d' : Domain) × (new : Node) × (update_node marshal unmarshal xxhash 1 (pos 7) closing planned
      ≡ (ok tt, d'))
    × IsRestated (pos 7) 1 closing opened_step new
    × ((b j u : ℕ)
        → read_json unmarshal d'.engine b j u ≡ (
            if 1 == b && 8 == j
            then (if 15 == u then ok new else err not_found)
            else read_json unmarshal made.0 b j u))
    × ((p : Node → Bool) (topic : ℕ)
        → any p (tree_at d'.plans topic) ≡ (
            if 9 == topic
            then p new || any (λ n. not (n.id_hash == 8) && p n) (tree_at planned.plans topic)
            else any p (tree_at planned.plans topic)))
    × IsReady d'.engine
    × (d'.engine.plan ≡ [])
unfolding digits xxhash
update_node_lem_example =
    update_node_lem marshal unmarshal xxhash 1 (pos 7) closing planned 1 opened_step made.3 made.2
      (inr (inl (refl, refl))) found (omega arith) refl cached_once knows

collect_all_strict_lem_example :
    ((collect_all_strict unmarshal made.0 1 15 ≡ ok (iter_all unmarshal made.0 1 15))
      × ((id : ℕ) (c : Code)
          → contains (index_by_type made.0 1 15) id ≡ true
          → read_json unmarshal made.0 1 id 15 ≡ err c
          → c ≡ not_found))
    ⊎ ((id : ℕ) × (c : Code) × (contains (index_by_type made.0 1 15) id ≡ true)
        × (read_json unmarshal made.0 1 id 15 ≡ err c)
        × (is_not_found c ≡ false)
        × (collect_all_strict unmarshal made.0 1 15 ≡ err c))
collect_all_strict_lem_example = collect_all_strict_lem unmarshal made.0 1 15

-- The engine with its record listed by type.
abbrev listed : Engine
listed = record made.0 { by_agent_type = (1, (15, (8, tt) ∷ []) ∷ []) ∷ [] }

listed_ids : index_by_type listed 1 15 ≡ 8 ∷ []
unfolding index_by_type sort insert_sorted get
listed_ids = rw made.2.opened refl

listed_read : read_json unmarshal listed 1 8 15 ≡ ok opened_step
unfolding read_json read_record
listed_read = made.4 1 8 15

doomed_ids : plan_node_ids_by_topic_ids unmarshal listed 1 (9 ∷ []) ≡ ok (8 ∷ [])
unfolding plan_node_ids_by_topic_ids collect_all_strict collect_ids doomed_of
doomed_ids = rw listed_ids (rw (listed_read, collect_ids) refl)

plan_node_ids_by_topic_ids_lem_example :
    contains (8 ∷ []) 8 ≡ any (is_named (9 ∷ []) 8) (iter_all unmarshal listed 1 15)
plan_node_ids_by_topic_ids_lem_example =
    plan_node_ids_by_topic_ids_lem unmarshal listed 1 (9 ∷ []) (8 ∷ []) 8 doomed_ids

changes-build_plan_cache_example :
    IsCache (changes (drop_nodes 9 (50 ∷ []) ∷ []) (build_plan_cache unmarshal listed 1))
changes-build_plan_cache_example =
    changes-build_plan_cache unmarshal listed 1 (drop_nodes 9 (50 ∷ []) ∷ [])
