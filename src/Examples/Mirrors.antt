-- ===== src/Examples/Mirrors.antt =====
-- The in-memory mirrors of the content records and of the topics, on a few entries.
use mem_hop.Prelude.{refl, [], ◌∷◌, none, arith}
use mem_hop.Prelude.Int.{pos}
use mem_hop.Prelude.Map.{get}
use mem_hop.Index.Content.{Entry, ContentIndex, append}
use mem_hop.Index.Content.Order.{IsOrdered, append-IsOrdered}
use mem_hop.Index.Topics.{Meta}
use mem_hop.Index.Topics.Agreement.{Agrees}
use mem_hop.Index.Topics.Writes.{TopicWrite, merged, topic_writes, topic_writes-Agrees}
use mem_hop.Index.Content.Writes.{slot, swept, gone, content_writes, content_writes-IsOrdered}

abbrev question : Entry
question = record { seq = 1; id_hash = 20; kind = 1; created_at = pos 5; node_seq = 0 }

abbrev reply : Entry
reply = record { seq = 2; id_hash = 21; kind = 2; created_at = pos 6; node_seq = 4 }

nothing-IsOrdered : IsOrdered []
unfolding get
nothing-IsOrdered = record { rises = λ topic. tt }

abbrev idx : ContentIndex
idx = append (append [] 9 reply) 9 question

idx-IsOrdered : IsOrdered idx
idx-IsOrdered =
    append-IsOrdered (append [] 9 reply) 9 question (omega arith)
      (append-IsOrdered [] 9 reply (omega arith) nothing-IsOrdered)

content_writes-IsOrdered_example :
    IsOrdered (content_writes (slot 9 reply ∷ slot 9 question ∷ swept 9 (20 ∷ []) ∷ gone 8 ∷ []) [])
content_writes-IsOrdered_example =
    content_writes-IsOrdered (slot 9 reply ∷ slot 9 question ∷ swept 9 (20 ∷ []) ∷ gone 8 ∷ []) []
      (omega arith, (omega arith, (tt, (tt, tt)))) nothing-IsOrdered

abbrev first_row : Meta
first_row = record {
  id_hash = 30;
  depth = 1;
  scene_id = 40;
  parent_id = none;
  name = "first";
  fused_keywords = "go" ∷ [];
  user_timestamp = pos 1;
  agent_timestamp = pos 2;
}

no_topics-Agrees : Agrees (record { entries = []; by_scene = [] })
unfolding get
no_topics-Agrees = record { lists = λ scene id. refl }

topic_writes-Agrees_example : Agrees (
    topic_writes
      (TopicWrite.row first_row ∷ merged 40 41 ∷ TopicWrite.gone 30 ∷ [])
      (record { entries = []; by_scene = [] }))
topic_writes-Agrees_example =
    topic_writes-Agrees (TopicWrite.row first_row ∷ merged 40 41 ∷ TopicWrite.gone 30 ∷ [])
      (record { entries = []; by_scene = [] }) no_topics-Agrees
