-- ===== src/Index/Topics.antt =====
-- internal/repo/index/l2meta.go: one cached row per topic, and the topics of each scene.
pub mod Agreement
pub mod Writes
use Prim.Native.String.{String}
use mem_hop.Prelude.{
  ℕ, List, [], ◌∷◌, ◌++◌, Bool, true, false, Option, none, some, not, ◌==◌, if◌then◌else◌, keep_if,
  map,
}
use mem_hop.Prelude.Int.{ℤ}
use mem_hop.Prelude.Map.{Map, get, put, delete}

-- core.TopicSlot
pub record TopicSlot : Type 0 where
  pub id : ℕ
  pub scene_id : ℕ
  pub parent_id : Option ℕ
  pub depth : ℕ
  pub name : String
  pub fused_keywords : List String
  pub user_timestamp : ℤ
  pub agent_timestamp : ℤ

-- L2Meta
pub record Meta : Type 0 where
  pub id_hash : ℕ
  pub depth : ℕ
  pub scene_id : ℕ
  pub parent_id : Option ℕ
  pub name : String
  pub fused_keywords : List String
  pub user_timestamp : ℤ
  pub agent_timestamp : ℤ

unfoldable pub meta_from_topic : TopicSlot → Meta
meta_from_topic t = record {
  id_hash = t.id;
  depth = t.depth;
  scene_id = t.scene_id;
  parent_id = t.parent_id;
  name = t.name;
  fused_keywords = t.fused_keywords;
  user_timestamp = t.user_timestamp;
  agent_timestamp = t.agent_timestamp;
}

unfoldable pub to_topic_slot : Meta → TopicSlot
to_topic_slot m = record {
  id = m.id_hash;
  scene_id = m.scene_id;
  parent_id = m.parent_id;
  depth = m.depth;
  name = m.name;
  fused_keywords = m.fused_keywords;
  user_timestamp = m.user_timestamp;
  agent_timestamp = m.agent_timestamp;
}

-- L2MetaIndex
pub record TopicIndex : Type 0 where
  pub entries : Map Meta
  pub by_scene : Map (List ℕ)

-- A missing scene reads as the nil slice.
abbrev pub listed : Option (List ℕ) → List ℕ
listed none = []
listed (some ids) = ids

abbrev pub scene_ids : TopicIndex → ℕ → List ℕ
scene_ids idx scene = listed (get idx.by_scene scene)

-- removeFromIndices: a scene that loses its last topic goes.
unfoldable pub remove_from_scene : Map (List ℕ) → ℕ → ℕ → Map (List ℕ)
remove_from_scene scenes scene id = elim (get scenes scene) [
  | none ↦ scenes
  | some ids ↦ elim (keep_if (λ x. not (x == id)) ids) [
    | [] ↦ delete scenes scene
    | x ∷ xs ↦ put scenes scene (x ∷ xs)
  ]
]

unfoldable pub insert_meta : TopicIndex → Meta → TopicIndex
insert_meta idx m = record {
  entries = put idx.entries m.id_hash m;
  by_scene = put idx.by_scene m.scene_id (scene_ids idx m.scene_id ++ (m.id_hash ∷ []));
}

-- What Update and Remove do with the row that holds the id.
abbrev pub unlist : TopicIndex → ℕ → Option Meta → TopicIndex
unlist idx id none = idx
unlist idx id (some old) = record idx { by_scene = remove_from_scene idx.by_scene old.scene_id id }

unfoldable pub update : TopicIndex → Meta → TopicIndex
update idx m = insert_meta (unlist idx m.id_hash (get idx.entries m.id_hash)) m

unfoldable pub remove : TopicIndex → ℕ → TopicIndex
remove idx id = elim (get idx.entries id) [
  | none ↦ idx
  | some old ↦ record {
    entries = delete idx.entries id;
    by_scene = remove_from_scene idx.by_scene old.scene_id id;
  }
]

-- The row behind an id: `idx.entries[id]` is nil for a missing one.
unfoldable pub topics_by_scene : TopicIndex → ℕ → List (Option Meta)
topics_by_scene idx scene = map (get idx.entries) (scene_ids idx scene)

-- The write through the row's pointer: a missing row would be a nil dereference.
abbrev pub retarget : Option Meta → Map Meta → ℕ → ℕ → Map Meta
retarget none entries id to = entries
retarget (some m) entries id to = put entries id (record m { scene_id = to })

unfoldable pub retarget_all : List ℕ → ℕ → Map Meta → Map Meta
retarget_all [] to entries = entries
retarget_all (id ∷ ids) to entries = retarget_all ids to (retarget (get entries id) entries id to)

-- Both tables at once, for a scene that has topics.
abbrev pub move_topics : TopicIndex → ℕ → ℕ → List ℕ → TopicIndex
move_topics idx from to [] = idx
move_topics idx from to (x ∷ xs) = record {
  entries = retarget_all (x ∷ xs) to idx.entries;
  by_scene =
      put (delete idx.by_scene from) to (listed (get (delete idx.by_scene from) to) ++ (x ∷ xs));
}

unfoldable pub retarget_scene : TopicIndex → ℕ → ℕ → TopicIndex
retarget_scene idx from to =
    if from == to then idx else move_topics idx from to (scene_ids idx from)
