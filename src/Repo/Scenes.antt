-- ===== src/Repo/Scenes.antt =====
-- internal/repo/l2layer.go and l2layer_topic.go: scenes, and the topics of a scene. encoding/json, xxhash and
-- the texts that are hashed are parameters.
pub mod Turns
pub mod Merge
pub mod Group
pub mod Settle
use Prim.Native.String.{String}
use text.Mathlib.Text.{◌==◌ as str_eq}
use mem_hop.Prelude.{
  ℕ, ◌+◌, ◌%◌, ◌^◌, List, [], ◌∷◌, ◌++◌, Bool, true, false, Option, none, some, not, ltb, leb,
  contains, keep_if, map, ◌==◌, if◌then◌else◌,
}
use mem_hop.Prelude.Int.{ℤ, pos, negsuc, lt_int}
use mem_hop.Prelude.Map.{Map, get}
use mem_hop.Prelude.Sort.{sort, sort_by}
use mem_hop.Errors.{Code, Result, ok, err, io, not_found, ◌>>=◌}
use mem_hop.Storage.Engine.{Engine, Act, follow, pure, fail, ◌>>=◌ as ◌and_then◌, ◌>>◌ as ◌then_do◌}
use mem_hop.Storage.Write.{RecordEntry, write_record_batch}
use mem_hop.Storage.Delete.{delete_record_batch}
use mem_hop.Index.Topics.{TopicSlot, TopicIndex, Meta, to_topic_slot, topics_by_scene}
use mem_hop.Records.{read_json, write_json, is_not_found, collect_all_strict}
use mem_hop.Plan.Writes.{digits}
use mem_hop.Repo.Topics.{rec_l2_topic, max_depth, topic_entry, write_topic, read_topic_lenient}

abbrev pub rec_l2_scene : ℕ
rec_l2_scene = 5

pub record SceneSlot : Type 0 where
  pub scene_id : ℕ
  pub scene_name : String
  pub turn_seq : ℕ
  pub last_used_at : ℤ
  pub l3_id : ℕ

-- The loop of TopicIDsBySceneL2.
unfoldable pub ids_in_scenes : List ℕ → List TopicSlot → List ℕ
ids_in_scenes scenes [] = []
ids_in_scenes scenes (t ∷ ts) =
    let rest = ids_in_scenes scenes ts in if contains scenes t.scene_id then t.id ∷ rest else rest

abbrev pub delete_l2_records : ℕ → List ℕ → Act (Unit {0})
delete_l2_records agent_id ids = delete_record_batch agent_id ids and_then λ n. pure tt

-- ListTopicsL2: the depth is clamped, and the rows of the mirror come back in order of time, depth and id.
abbrev pub clamped : ℕ → ℕ
clamped depth = if depth == 0 then 1 else if ltb max_depth depth then max_depth else depth

abbrev pub topic_first : TopicSlot → TopicSlot → Bool
topic_first a b =
    if lt_int a.user_timestamp b.user_timestamp
    then true
    else if lt_int b.user_timestamp a.user_timestamp
    then false
    else if ltb a.depth b.depth
    then true
    else if ltb b.depth a.depth
    then false
    else leb a.id b.id

-- A row that the table lacks is a nil pointer, which the loop would dereference: `none`.
abbrev pub before_rows : Meta → Option (List Meta) → Option (List Meta)
before_rows m none = none
before_rows m (some ms) = some (m ∷ ms)

unfoldable pub rows : List (Option Meta) → Option (List Meta)
rows [] = some []
rows (none ∷ ms) = none
rows (some m ∷ ms) = before_rows m (rows ms)

abbrev pub listing : ℕ → Option (List Meta) → Option (List TopicSlot)
listing depth none = none
listing depth (some ms) =
    some (
      sort_by topic_first (map to_topic_slot (keep_if (λ m. not (ltb (clamped depth) m.depth)) ms)))

unfoldable pub list_topics_l2 : TopicIndex → ℕ → ℕ → Option (List TopicSlot)
list_topics_l2 idx scene depth = listing depth (rows (topics_by_scene idx scene))

-- fmt's %d of an int64.
abbrev pub int_digits : ℤ → List ℕ → List ℕ
int_digits (pos n) rest = digits 20 n rest
int_digits (negsuc n) rest = 45 ∷ digits 20 (n + 1) rest

unfoldable pub member_texts : List ℕ → List ℕ
member_texts [] = []
member_texts (m ∷ ms) = 58 ∷ digits 20 m (member_texts ms)

-- ComputeFusedTopicID, over the bytes of "fused:%d:%d:%d" and the members in order.
unfoldable pub compute_fused_topic_id : (List ℕ → ℕ) → ℕ → ℤ → ℤ → List ℕ → ℕ
compute_fused_topic_id xxhash scene user_ts agent_ts members = xxhash (
    102
    ∷ 117
    ∷ 115
    ∷ 101
    ∷ 100
    ∷ 58
    ∷ digits 20 scene
        (58 ∷ int_digits user_ts (58 ∷ int_digits agent_ts (member_texts (sort members)))))

module _ (marshal : TopicSlot → Option (List ℕ)) (unmarshal : List ℕ → Option TopicSlot) where
  abbrev pub collect_all_topics_strict : Engine → ℕ → Result (List TopicSlot)
  collect_all_topics_strict e agent_id = collect_all_strict unmarshal e agent_id rec_l2_topic

  unfoldable pub topic_ids_by_scene_l2 : Engine → ℕ → List ℕ → Result (List ℕ)
  topic_ids_by_scene_l2 e agent_id scenes =
      collect_all_topics_strict e agent_id >>= λ topics. ok (ids_in_scenes scenes topics)

  abbrev pub moved_to : ℕ → TopicSlot → TopicSlot
  moved_to primary t = record t { scene_id = primary }

  -- The loop of MergeScenesL2.
  unfoldable pub moves : ℕ → ℕ → List ℕ → List TopicSlot → Result (List RecordEntry)
  moves agent_id primary secondary [] = ok []
  moves agent_id primary secondary (t ∷ ts) =
      let rest = moves agent_id primary secondary ts in
      if not (contains secondary t.scene_id)
      then rest
      else (topic_entry marshal unmarshal agent_id (moved_to primary t) >>= λ w.
          rest >>= λ ws. ok (w ∷ ws))

  abbrev pub write_moves : ℕ → List ℕ → List RecordEntry → Act (Unit {0})
  write_moves agent_id secondary writes =
      write_record_batch writes and_then λ offsets. delete_l2_records agent_id secondary

  unfoldable pub merge_scenes_l2 : ℕ → ℕ → List ℕ → Act (Unit {0})
  merge_scenes_l2 agent_id primary secondary e =
      follow (collect_all_topics_strict e agent_id >>= moves agent_id primary secondary)
        (write_moves agent_id secondary) e

  abbrev pub read_topic_slot : Engine → ℕ → ℕ → Result TopicSlot
  read_topic_slot e agent_id id = read_json unmarshal e agent_id id rec_l2_topic

  abbrev pub stored_as : TopicSlot → Act (Unit {0}) → Act TopicSlot
  stored_as t write = write and_then λ done. pure t

  -- A topic that has the name already is not written again.
  abbrev pub rename_read : ℕ → String → TopicSlot → Act TopicSlot
  rename_read agent_id name t =
      if str_eq t.name name
      then pure t
      else stored_as (record t { name = name })
          (write_topic marshal unmarshal agent_id (record t { name = name }))

  unfoldable pub rename_topic_l2 : ℕ → ℕ → String → Act TopicSlot
  rename_topic_l2 agent_id topic name e =
      follow (read_topic_slot e agent_id topic) (rename_read agent_id name) e

  -- A replayed turn keeps the name, the depth and the parent of the record that stands there.
  abbrev pub carried : TopicSlot → TopicSlot → TopicSlot
  carried fresh stored = record fresh {
    name = stored.name;
    depth = stored.depth;
    parent_id = stored.parent_id;
  }

  abbrev pub settled : TopicSlot → Result (Option TopicSlot) → Result TopicSlot
  settled fresh (err c) = if is_not_found c then ok fresh else err c
  settled fresh (ok none) = err io
  settled fresh (ok (some stored)) = ok (carried fresh stored)

  abbrev pub turn_topic : ℕ → ℕ → List String → ℤ → ℤ → TopicSlot
  turn_topic scene topic keywords user_ts agent_ts = record {
    id = topic;
    scene_id = scene;
    parent_id = none;
    depth = 1;
    name = "";
    fused_keywords = keywords;
    user_timestamp = user_ts;
    agent_timestamp = agent_ts;
  }

  abbrev pub write_settled : ℕ → TopicSlot → Act TopicSlot
  write_settled agent_id t = stored_as t (write_topic marshal unmarshal agent_id t)

  unfoldable pub create_turn_topic_l2 : ℕ → ℕ → ℕ → List String → ℤ → ℤ → Act TopicSlot
  create_turn_topic_l2 agent_id scene topic keywords user_ts agent_ts e =
      follow
        (settled (turn_topic scene topic keywords user_ts agent_ts)
          (read_topic_lenient unmarshal e agent_id topic))
        (write_settled agent_id) e

  unfoldable pub create_fused_topic_l2 :
      (List ℕ → ℕ) → ℕ → ℕ → List String → ℤ → ℤ → List ℕ → Act (Unit {0})
  create_fused_topic_l2 xxhash agent_id scene keywords user_ts agent_ts members =
      write_topic marshal unmarshal agent_id (
        turn_topic scene (compute_fused_topic_id xxhash scene user_ts agent_ts members) keywords
          user_ts agent_ts)

module _ (marshal : SceneSlot → Option (List ℕ)) (unmarshal : List ℕ → Option SceneSlot) where
  abbrev pub read_scene_slot : Engine → ℕ → ℕ → Result SceneSlot
  read_scene_slot e agent_id id = read_json unmarshal e agent_id id rec_l2_scene

  abbrev pub write_scene_slot : ℕ → ℕ → SceneSlot → Act (Unit {0})
  write_scene_slot agent_id id slot = write_json marshal agent_id rec_l2_scene id slot

  -- The turn counter is a uint64.
  abbrev pub opened_turn : ℤ → SceneSlot → SceneSlot
  opened_turn stamp slot = record slot {
    turn_seq = (slot.turn_seq + 1) % 2 ^ 64;
    last_used_at = stamp;
  }

  abbrev pub turn_written : ℕ → ℕ → ℤ → SceneSlot → Act SceneSlot
  turn_written agent_id scene stamp slot =
      write_scene_slot agent_id scene (opened_turn stamp slot) and_then λ done.
      pure (opened_turn stamp slot)

  unfoldable pub open_scene_turn : ℕ → ℕ → ℤ → Act SceneSlot
  open_scene_turn agent_id scene stamp e =
      follow (read_scene_slot e agent_id scene) (turn_written agent_id scene stamp) e

  -- Only a record that is not there is written.
  abbrev pub create_over : ℕ → SceneSlot → Result SceneSlot → Act (Unit {0})
  create_over agent_id slot (ok stored) = pure tt
  create_over agent_id slot (err c) =
      if is_not_found c then write_scene_slot agent_id slot.scene_id slot else fail c

  unfoldable pub create_scene_l2 : ℕ → SceneSlot → Act (Unit {0})
  create_scene_l2 agent_id slot e =
      create_over agent_id slot (read_scene_slot e agent_id slot.scene_id) e

  -- listByID over scene records: an id that names no scene is skipped.
  unfoldable pub list_scenes_l2 : Engine → ℕ → List ℕ → Result (List SceneSlot)
  list_scenes_l2 e agent_id [] = ok []
  list_scenes_l2 e agent_id (id ∷ ids) =
      let rest = list_scenes_l2 e agent_id ids in
      elim (read_scene_slot e agent_id id) [
        | ok slot ↦ rest >>= λ slots. ok (slot ∷ slots)
        | err c ↦ if is_not_found c then rest else err c
      ]

  abbrev pub collect_all_scenes_l2 : Engine → ℕ → Result (List SceneSlot)
  collect_all_scenes_l2 e agent_id = collect_all_strict unmarshal e agent_id rec_l2_scene
