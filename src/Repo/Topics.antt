-- ===== src/Repo/Topics.antt =====
-- internal/repo/l2layer.go and l2layer_topic.go: topic records. encoding/json is a pair of parameters.
pub mod Sink
pub mod Restore
pub mod Undo
use Prim.Native.String.{String}
use text.Mathlib.Text.{◌==◌ as str_eq}
use mem_hop.Prelude.{
  ℕ, suc, zero, ◌+◌, ◌-◌, ◌%◌, List, [], ◌∷◌, ◌++◌, Bool, true, false, Option, none, some, ltb, leb,
  contains, ◌==◌, if◌then◌else◌,
}
use mem_hop.Prelude.Int.{ℤ}
use mem_hop.Errors.{Result, ok, err, io, not_found, serialization, deserialization, ◌>>=◌}
use mem_hop.Storage.Engine.{Engine, Act, follow, pure, fail, ◌>>=◌ as ◌and_then◌, ◌>>◌ as ◌then_do◌}
use mem_hop.Storage.Read.{read_record}
use mem_hop.Storage.Write.{RecordEntry, write_record_batch}
use mem_hop.Storage.Delete.{delete_record_batch}
use mem_hop.Index.Topics.{TopicSlot}
use mem_hop.Records.{read_json, write_json, is_not_found, collect_all_strict}

abbrev pub rec_l2_topic : ℕ
rec_l2_topic = 4

abbrev pub max_depth : ℕ
max_depth = 4

-- What a pass over topics is to write and to delete.
pub record Sinking : Type 0 where
  pub writes : List RecordEntry
  pub deletes : List ℕ

abbrev pub both_sinkings : Sinking → Sinking → Sinking
both_sinkings p q = record { writes = p.writes ++ q.writes; deletes = p.deletes ++ q.deletes }

abbrev pub no_sinking : Sinking
no_sinking = record { writes = []; deletes = [] }

-- The depth is a uint8.
abbrev pub sink : ℕ → TopicSlot → TopicSlot
sink parent t = record t { depth = (t.depth + 1) % 256; parent_id = some parent }

abbrev pub rise : TopicSlot → TopicSlot
rise t = record t { depth = if ltb 1 t.depth then t.depth - 1 else t.depth; parent_id = none }

abbrev pub hangs_on : ℕ → Option ℕ → Bool
hangs_on parent none = false
hangs_on parent (some p) = p == parent

module _ (unmarshal : List ℕ → Option TopicSlot) where
  abbrev pub decode_topic : ℕ × List ℕ → Result (Option TopicSlot)
  decode_topic r =
      if r.0 == rec_l2_topic
      then (elim (unmarshal r.1) [ none ↦ err deserialization | some t ↦ ok (some t) ])
      else ok none

  -- A record that is no topic answers `ok none`.
  unfoldable pub read_topic_lenient : Engine → ℕ → ℕ → Result (Option TopicSlot)
  read_topic_lenient e agent_id id = read_record e agent_id id >>= decode_topic

abbrev pub entry_from : ℕ → TopicSlot → Option (List ℕ) → Result RecordEntry
entry_from agent_id t none = err serialization
entry_from agent_id t (some bytes) =
    ok (record { agent_id = agent_id; record_type = rec_l2_topic; id_hash = t.id; payload = bytes })

module _ (marshal : TopicSlot → Option (List ℕ)) (unmarshal : List ℕ → Option TopicSlot) where
  abbrev pub topic_entry : ℕ → TopicSlot → Result RecordEntry
  topic_entry agent_id t = entry_from agent_id t (marshal t)

  abbrev pub write_topic : ℕ → TopicSlot → Act (Unit {0})
  write_topic agent_id t = write_json marshal agent_id rec_l2_topic t.id t

  abbrev pub queue_write : Result RecordEntry → Result Sinking
  queue_write (err c) = err c
  queue_write (ok entry) = ok (record { writes = entry ∷ []; deletes = [] })

  -- One round of the loop of CompressTopicsL2.
  abbrev pub sink_one : ℕ → ℕ → Result (Option TopicSlot) → Result Sinking
  sink_one agent_id parent (err c) = if is_not_found c then ok no_sinking else err io
  sink_one agent_id parent (ok none) = err io
  sink_one agent_id parent (ok (some t)) =
      if leb max_depth (sink parent t).depth
      then ok (record { writes = []; deletes = t.id ∷ [] })
      else queue_write (topic_entry agent_id (sink parent t))

  unfoldable pub sink_all : Engine → ℕ → ℕ → List ℕ → Result Sinking
  sink_all e agent_id parent [] = ok no_sinking
  sink_all e agent_id parent (id ∷ ids) =
      sink_one agent_id parent (read_topic_lenient unmarshal e agent_id id) >>= λ p.
      sink_all e agent_id parent ids >>= λ q. ok (both_sinkings p q)

  abbrev pub carry_out : ℕ → Sinking → Act (Unit {0})
  carry_out agent_id p = write_record_batch p.writes and_then λ offsets.
      delete_record_batch agent_id p.deletes and_then λ n. pure tt

  unfoldable pub compress_topics_l2 : ℕ → List ℕ → ℕ → Act (Unit {0})
  compress_topics_l2 agent_id ids parent e =
      follow (sink_all e agent_id parent ids) (carry_out agent_id) e

  -- One round of RestoreSunkTopicsL2: a topic that does not hang on the parent is not touched.
  abbrev pub restore_one : ℕ → ℕ → Result (Option TopicSlot) → Act (Unit {0})
  restore_one agent_id parent (err c) = if is_not_found c then pure tt else fail io
  restore_one agent_id parent (ok none) = pure tt
  restore_one agent_id parent (ok (some t)) =
      if hangs_on parent t.parent_id then write_topic agent_id (rise t) else pure tt

  unfoldable pub restore_sunk_topics_l2 : ℕ → List ℕ → ℕ → Act (Unit {0})
  restore_sunk_topics_l2 agent_id [] parent e = (ok tt, e)
  restore_sunk_topics_l2 agent_id (id ∷ ids) parent e =
      (restore_one agent_id parent (read_topic_lenient unmarshal e agent_id id)
          then_do restore_sunk_topics_l2 agent_id ids parent)
        e
