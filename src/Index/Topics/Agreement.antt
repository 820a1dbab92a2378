-- ===== src/Index/Topics/Agreement.antt =====
-- The two tables of the topic index agree: a scene lists a topic exactly when the topic's row names
-- that scene. Every write keeps it.
use mem_hop.Prelude.{
  ℕ, ◌≡◌, refl, ◌∙◌, List, [], ◌∷◌, ◌++◌, Bool, false, Option, none, some, not, ◌==◌, ◌&&◌, ◌||◌,
  if◌then◌else◌, keep_if, contains, arith, Bool-cases, Option-cases, inl, inr,
}
use mem_hop.Prelude.Map.{Map, get, put, delete, get-put, get-delete}
use mem_hop.Index.Topics.{
  TopicSlot, Meta, TopicIndex, meta_from_topic, to_topic_slot, listed, scene_ids, remove_from_scene,
  insert_meta, unlist, update, remove, retarget, retarget_all, move_topics, retarget_scene,
}

-- Whether a row names the scene.
abbrev pub in_scene : Option Meta → ℕ → Bool
in_scene none scene = false
in_scene (some m) scene = m.scene_id == scene

pub record Agrees (idx : TopicIndex) : Type 0 where
  pub lists :
      (scene id : ℕ) → contains (scene_ids idx scene) id ≡ in_scene (get idx.entries id) scene

contains-append :
    (xs ys : List ℕ) (a : ℕ) → contains (xs ++ ys) a ≡ (contains xs a || contains ys a)
contains-append [] ys a = refl
contains-append (x ∷ xs) ys a = ground (arith, contains-append xs ys a)

contains-keep_if :
    (ids : List ℕ) (id j : ℕ)
    → contains (keep_if (λ x. not (x == id)) ids) j ≡ (if id == j then false else contains ids j)
contains-keep_if [] id j = ground arith
contains-keep_if (x ∷ xs) id j = ground (arith, contains-keep_if xs id j)

-- The list of a scene behind removeFromIndices.
contains-remove_from_scene :
    (scenes : Map (List ℕ)) (s id u j : ℕ)
    → contains (listed (get (remove_from_scene scenes s id) u)) j
      ≡ (if s == u && id == j then false else contains (listed (get scenes u)) j)
unfolding remove_from_scene
contains-remove_from_scene scenes s id u j = elim (Option-cases (get scenes s)) [
  | inl e ↦ rw (e, remove_from_scene) (ground (arith, e))
  | inr (ids, e) ↦
      rw (e, remove_from_scene)
        (pruned (keep_if (λ x. not (x == id)) ids) ∙ ground (arith, contains-keep_if ids id j, e))
]
  where
    pruned :
        (ids : List ℕ)
        → contains
            (listed (get (elim ids [ [] ↦ delete scenes s | x ∷ xs ↦ put scenes s (x ∷ xs) ]) u))
            j
          ≡ (if s == u then contains ids j else contains (listed (get scenes u)) j)
    pruned [] = ground (arith, get-delete scenes s u)
    pruned (x ∷ xs) = ground (arith, get-put scenes s (x ∷ xs) u)

-- A removed topic is in no list and has no row.
pub remove-Agrees : (idx : TopicIndex) (id : ℕ) → Agrees idx → Agrees (remove idx id)
unfolding remove
remove-Agrees idx id a = elim (Option-cases (get idx.entries id)) [
  | inl e ↦ record { lists = λ u j. rw (e, remove) (a.lists u j) }
  | inr (old, e) ↦ record {
    lists = λ u j.
        rw (e, remove)
          (ground (
            arith,
            contains-remove_from_scene idx.by_scene old.scene_id id u j,
            a.lists u j,
            get-delete idx.entries id j,
            e,
          ));
  }
]

contains-unlist :
    (idx : TopicIndex) (id u j : ℕ)
    → Agrees idx
    → contains (scene_ids (unlist idx id (get idx.entries id)) u) j
      ≡ (if id == j then false else contains (scene_ids idx u) j)
contains-unlist idx id u j a = elim (Option-cases (get idx.entries id)) [
  | inl e ↦ rw e (ground (arith, a.lists u j, e))
  | inr (old, e) ↦
      rw e (
        ground (arith, contains-remove_from_scene idx.by_scene old.scene_id id u j, a.lists u j, e))
]

unlist_entries :
    (idx : TopicIndex) (id : ℕ) (o : Option Meta) → (unlist idx id o).entries ≡ idx.entries
unlist_entries idx id none = refl
unlist_entries idx id (some old) = refl

-- An updated topic leaves the scene of its old row and stands in that of its new one.
pub update-Agrees : (idx : TopicIndex) (m : Meta) → Agrees idx → Agrees (update idx m)
unfolding update insert_meta
update-Agrees idx m a =
    let bare = unlist idx m.id_hash (get idx.entries m.id_hash) in
    let same = unlist_entries idx m.id_hash (get idx.entries m.id_hash) in
    record {
      lists = λ u j. ground (
        arith,
        get-put bare.by_scene m.scene_id (scene_ids bare m.scene_id ++ (m.id_hash ∷ [])) u,
        contains-append (scene_ids bare m.scene_id) (m.id_hash ∷ []) j,
        contains-unlist idx m.id_hash u j a,
        a.lists u j,
        same,
        get-put bare.entries m.id_hash m j,
      );
    }

abbrev moved : Option Meta → ℕ → Option Meta
moved none to = none
moved (some m) to = some (record m { scene_id = to })

get-retarget :
    (entries : Map Meta) (id to j : ℕ)
    → get (retarget (get entries id) entries id to) j
      ≡ (if id == j then moved (get entries j) to else get entries j)
get-retarget entries id to j = elim (Option-cases (get entries id)) [
  | inl e ↦ rw e (ground (arith, e))
  | inr (m, e) ↦ rw e (ground (arith, get-put entries id (record m { scene_id = to }) j, e))
]

get-retarget_all :
    (ids : List ℕ) (to : ℕ) (entries : Map Meta) (j : ℕ)
    → get (retarget_all ids to entries) j
      ≡ (if contains ids j then moved (get entries j) to else get entries j)
unfolding retarget_all
get-retarget_all [] to entries j = refl
get-retarget_all (id ∷ ids) to entries j = ground (
  arith,
  get-retarget_all ids to (retarget (get entries id) entries id to) j,
  get-retarget entries id to j,
)

move_topics-Agrees :
    (idx : TopicIndex) (from to : ℕ) (ids : List ℕ)
    → scene_ids idx from ≡ ids
    → (from == to) ≡ false
    → Agrees idx
    → Agrees (move_topics idx from to ids)
move_topics-Agrees idx from to [] e other a = a
move_topics-Agrees idx from to (x ∷ xs) e other a = record {
  lists = λ u j.
      let rest = delete idx.by_scene from in
      ground (
        arith,
        get-put rest to (listed (get rest to) ++ (x ∷ xs)) u,
        get-delete idx.by_scene from to,
        get-delete idx.by_scene from u,
        contains-append (listed (get rest to)) (x ∷ xs) j,
        get-retarget_all (x ∷ xs) to idx.entries j,
        a.lists u j,
        a.lists from j,
        a.lists to j,
        e,
        other,
      );
}

-- After a merge the topics of one scene are in the list of the other, and their rows name it.
pub retarget_scene-Agrees :
    (idx : TopicIndex) (from to : ℕ) → Agrees idx → Agrees (retarget_scene idx from to)
unfolding retarget_scene
retarget_scene-Agrees idx from to a = elim (Bool-cases (from == to)) [
  | inl same ↦ rw (same, retarget_scene) a
  | inr other ↦
      rw (other, retarget_scene) (move_topics-Agrees idx from to (scene_ids idx from) refl other a)
]

-- A row carries every field of its record, so the rebuilt slot is the record that was cached.
pub to_topic_slot-meta_from_topic : (t : TopicSlot) → to_topic_slot (meta_from_topic t) ≡ t
unfolding to_topic_slot meta_from_topic
to_topic_slot-meta_from_topic t = refl
