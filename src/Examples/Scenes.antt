-- ===== src/Examples/Scenes.antt =====
-- A scene is created, a turn of it opened, and the turn's topic settled twice, in a new database.
use text.Mathlib.Text.{◌==◌ as str_eq}
use text.Mathlib.TextEquality.{eq_iff}
use mathlib.Core.List.Perm
use mem_hop.Prelude.{
  subst, ℕ, suc, ◌≡◌, refl, sym, ap, ◌∙◌, List, [], ◌∷◌, true, false, Option, none, some, ◌&&◌,
  ◌==◌, if◌then◌else◌, arith, length, contains, Bool-cases, inl, inr,
}
use mem_hop.Prelude.Int.{pos, negsuc}
use mem_hop.Prelude.Map.{get}
use mem_hop.Errors.{ok, err, not_found, ◌>>=◌}
use mem_hop.Storage.Engine.{Engine, index_by_type}
use mem_hop.Storage.Read.{read_record}
use mem_hop.Storage.Fresh.{created, created-IsReady}
use mem_hop.Storage.Ready.{IsReady}
use mem_hop.Index.Topics.{TopicSlot}
use mem_hop.Records.{write_json, read_json, decode, collect_all_strict, collect_ids}
use mem_hop.Prelude.Sort.{sort, insert_sorted}
use mem_hop.Storage.Store.Batch.{over}
use mem_hop.Storage.Store.Purge.{without}
use mem_hop.Repo.Scenes.Merge.{moving, moved_word, merge_scenes_l2_lem}
use mem_hop.Records.Laws.{write_json-read_record, IsLossless}
use mem_hop.Repo.Topics.{decode_topic, read_topic_lenient}
use mem_hop.Repo.Scenes.{
  SceneSlot, read_scene_slot, open_scene_turn, create_scene_l2, create_turn_topic_l2,
  merge_scenes_l2, compute_fused_topic_id,
}
use mem_hop.Repo.Scenes.Turns.{
  turned, created_answer, created_scene, open_scene_turn_lem, create_scene_l2_lem,
}
use mem_hop.Storage.Frame.RoundTrip.{IsStorable}
use mem_hop.Storage.Store.{frame_of}
use mem_hop.Repo.Scenes.Settle.{turn_at, IsPlace, create_turn_topic_l2_again}
use mem_hop.Repo.Scenes.Group.{compute_fused_topic_id_perm}
use mem_hop.Examples.Topics.{sign, size, int_of, int_of_lem, numbers}
use mem_hop.Examples.Topics as Codec

abbrev scene_numbers : SceneSlot → List ℕ
scene_numbers s = s.scene_id ∷ s.turn_seq ∷ sign s.last_used_at ∷ size s.last_used_at ∷ s.l3_id ∷ []

abbrev marshal : SceneSlot → Option (List ℕ)
marshal s = if str_eq s.scene_name "" then some (scene_numbers s) else none

abbrev unmarshal : List ℕ → Option SceneSlot
unmarshal (i ∷ n ∷ us ∷ u ∷ l ∷ []) =
    some (record {
      scene_id = i;
      scene_name = "";
      turn_seq = n;
      last_used_at = int_of us u;
      l3_id = l;
    })
unmarshal bytes = none

scene_back : (s : SceneSlot) → str_eq s.scene_name "" ≡ true → unmarshal (scene_numbers s) ≡ some s
scene_back s h =
    let name = (eq_iff s.scene_name "").0 h in
    λ i. some (record s { scene_name = sym name i; last_used_at = int_of_lem s.last_used_at i })

scene_lossless : IsLossless marshal unmarshal
scene_lossless = record {
  back = λ s bytes h. elim (Bool-cases (str_eq s.scene_name "")) [
    | inl plain ↦
        let same : scene_numbers s ≡ bytes = cc (rw plain at h) in
        ap unmarshal (sym same) ∙ scene_back s plain
    | inr named ↦ absurd (cc (rw named at h))
  ];
  sized = λ s bytes h. elim (Bool-cases (str_eq s.scene_name "")) [
    | inl plain ↦
        let same : scene_numbers s ≡ bytes = cc (rw plain at h) in omega (arith, ap length same)
    | inr named ↦ absurd (cc (rw named at h))
  ];
}

abbrev scene : SceneSlot
scene = record { scene_id = 40; scene_name = ""; turn_seq = 0; last_used_at = pos 5; l3_id = 7 }

abbrev Created : Type 0
Created =
    (e' : Engine) × (create_scene_l2 marshal unmarshal 1 scene created
      ≡ (created_answer (read_scene_slot marshal unmarshal created 1 40), e'))
    × IsReady e'
    × (e'.plan ≡ [])
    × (read_scene_slot marshal unmarshal e' 1 40
        ≡ created_scene scene (read_scene_slot marshal unmarshal created 1 40))
    × ((b j : ℕ) → (1 == b && 40 == j) ≡ false → read_record e' b j ≡ read_record created b j)

abbrev made : Created
made =
    create_scene_l2_lem marshal unmarshal scene_lossless created 1 scene (scene_numbers scene) refl
      created-IsReady (omega arith) (omega arith) refl

create_scene_l2_lem_example : Created
create_scene_l2_lem_example =
    create_scene_l2_lem marshal unmarshal scene_lossless created 1 scene (scene_numbers scene) refl
      created-IsReady (omega arith) (omega arith) refl

scene_here : read_scene_slot marshal unmarshal made.0 1 40 ≡ ok scene
unfolding read_json read_record get
scene_here = made.4 ∙ refl

abbrev next : SceneSlot
next = turned (pos 9) scene

open_scene_turn_lem_example :
    (e' : Engine) × (open_scene_turn marshal unmarshal 1 40 (pos 9) made.0 ≡ (ok next, e'))
    × IsReady e'
    × (e'.plan ≡ [])
    × ((b j u : ℕ)
        → read_json unmarshal e' b j u ≡ (
            if 1 == b && 40 == j
            then (if 5 == u then ok next else err not_found)
            else read_json unmarshal made.0 b j u))
open_scene_turn_lem_example =
    open_scene_turn_lem marshal unmarshal scene_lossless made.0 1 40 (pos 9) scene
      (scene_numbers next) made.3 made.2 (omega arith) (omega arith) scene_here refl

-- The turn's topic was sunk under another one.
abbrev sunk : TopicSlot
sunk = turn_at 40 20 [] (pos 5) (pos 6) "" 3 (some 77)

sunk-IsStorable : IsStorable (frame_of 1 4 20 (numbers sunk))
sunk-IsStorable = record {
  typed = omega arith;
  sized = omega arith;
  agent = omega arith;
  id = omega arith;
}

abbrev held :
    (e' : Engine) × (write_json Codec.marshal 1 4 20 sunk created ≡ (ok tt, e'))
    × IsReady e'
    × (e'.plan ≡ [])
    × ((b j : ℕ)
        → read_record e' b j
          ≡ (if 1 == b && 20 == j then ok (4, numbers sunk) else read_record created b j))
held =
    write_json-read_record Codec.marshal Codec.unmarshal created 1 4 20 sunk (numbers sunk) refl
      created-IsReady sunk-IsStorable refl

sunk_here : read_topic_lenient Codec.unmarshal held.0 1 20 ≡ ok (some sunk)
unfolding read_topic_lenient
sunk_here = ap (λ r. r >>= decode_topic Codec.unmarshal) (held.4 1 20)

create_turn_topic_l2_again_example :
    (e₁ : Engine) × (e₂ : Engine) × (create_turn_topic_l2 Codec.marshal Codec.unmarshal 1 40 20 []
        (pos 7)
        (pos 8)
        held.0
      ≡ (ok (turn_at 40 20 [] (pos 7) (pos 8) "" 3 (some 77)), e₁))
    × (create_turn_topic_l2 Codec.marshal Codec.unmarshal 1 40 20 [] (pos 9) (pos 10) e₁
        ≡ (ok (turn_at 40 20 [] (pos 9) (pos 10) "" 3 (some 77)), e₂))
    × (read_topic_lenient Codec.unmarshal e₂ 1 20
        ≡ ok (some (turn_at 40 20 [] (pos 9) (pos 10) "" 3 (some 77))))
    × ((b j : ℕ) → (1 == b && 20 == j) ≡ false → read_record e₂ b j ≡ read_record held.0 b j)
create_turn_topic_l2_again_example =
    create_turn_topic_l2_again Codec.marshal Codec.unmarshal Codec.lossless 1 40 20 (omega arith)
      (omega arith) "" 3 (some 77) held.0 [] [] (pos 7) (pos 8) (pos 9) (pos 10)
      (numbers (turn_at 40 20 [] (pos 7) (pos 8) "" 3 (some 77)))
      (numbers (turn_at 40 20 [] (pos 9) (pos 10) "" 3 (some 77))) held.3 held.2
      (subst (λ r. IsPlace r "" 3 (some 77)) (sym sunk_here) (refl, refl, refl)) refl refl

unfoldable xxhash : List ℕ → ℕ
xxhash [] = 0
xxhash (b ∷ bytes) = suc (xxhash bytes)

compute_fused_topic_id_perm_example :
    compute_fused_topic_id xxhash 40 (pos 5) (negsuc 6) (20 ∷ 30 ∷ [])
    ≡ compute_fused_topic_id xxhash 40 (pos 5) (negsuc 6) (30 ∷ 20 ∷ [])
compute_fused_topic_id_perm_example =
    compute_fused_topic_id_perm xxhash 40 (pos 5) (negsuc 6) (20 ∷ 30 ∷ []) (30 ∷ 20 ∷ [])
      (Perm.swap 30 20 [])

-- The engine that holds the topic 20 of scene 3, with its record listed by type.
abbrev listed : Engine
listed = record Codec.made.0 { by_agent_type = (1, (4, (20, tt) ∷ []) ∷ []) ∷ [] }

listed-IsReady : IsReady listed
listed-IsReady = record {
  opened = Codec.made.2.opened;
  whole = Codec.made.2.whole;
  area = Codec.made.2.area;
  room = Codec.made.2.room;
  live = Codec.made.2.live;
}

listed_ids : index_by_type listed 1 4 ≡ 20 ∷ []
unfolding index_by_type sort insert_sorted get
listed_ids = rw Codec.made.2.opened refl

listed_read : read_json Codec.unmarshal listed 1 20 4 ≡ ok Codec.topic
unfolding read_json read_record
listed_read = ap (λ r. r >>= decode Codec.unmarshal 4) (Codec.made.4 1 20)

listed_topics : collect_all_strict Codec.unmarshal listed 1 4 ≡ ok (Codec.topic ∷ [])
unfolding collect_all_strict collect_ids
listed_topics = rw listed_ids (rw (listed_read, collect_ids) refl)

merge_scenes_l2_lem_example :
    (e' : Engine) × (merge_scenes_l2 Codec.marshal Codec.unmarshal 1 50 (3 ∷ []) listed
      ≡ (ok tt, e'))
    × IsReady e'
    × (e'.plan ≡ [])
    × ((b j : ℕ)
        → read_record e' b j ≡ (
            without (1 == b && contains (3 ∷ []) j) (
              over
                (if 1 == b
                  then moved_word Codec.marshal 50 (moving (3 ∷ []) (Codec.topic ∷ []) j)
                  else none)
                (read_record listed b j))))
merge_scenes_l2_lem_example =
    merge_scenes_l2_lem Codec.marshal Codec.unmarshal Codec.lossless 1 50 (omega arith) listed
      (3 ∷ []) (Codec.topic ∷ []) Codec.made.3 listed-IsReady listed_topics
      ((numbers (record Codec.topic { scene_id = 50 }), omega arith, refl), tt)
