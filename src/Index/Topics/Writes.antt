-- ===== src/Index/Topics/Writes.antt =====
-- Sequences of writes into the topic index.
use mem_hop.Prelude.{ℕ, List, [], ◌∷◌}
use mem_hop.Index.Topics.{Meta, TopicIndex, update, remove, retarget_scene}
use mem_hop.Index.Topics.Agreement.{Agrees, update-Agrees, remove-Agrees, retarget_scene-Agrees}

pub data TopicWrite : Type 0 where
  row : Meta → TopicWrite
  gone : ℕ → TopicWrite
  merged : ℕ → ℕ → TopicWrite

unfoldable pub topic_write : TopicWrite → TopicIndex → TopicIndex
topic_write (row m) idx = update idx m
topic_write (gone id) idx = remove idx id
topic_write (merged from to) idx = retarget_scene idx from to

unfoldable pub topic_writes : List TopicWrite → TopicIndex → TopicIndex
topic_writes [] idx = idx
topic_writes (w ∷ ws) idx = topic_writes ws (topic_write w idx)

topic_write-Agrees : (w : TopicWrite) (idx : TopicIndex) → Agrees idx → Agrees (topic_write w idx)
unfolding topic_write
topic_write-Agrees (row m) idx a = update-Agrees idx m a
topic_write-Agrees (gone id) idx a = remove-Agrees idx id a
topic_write-Agrees (merged from to) idx a = retarget_scene-Agrees idx from to a

-- Any sequence of updates, removals and scene merges keeps the two tables in agreement: a scene lists a topic
-- exactly when the topic's row names that scene.
pub topic_writes-Agrees :
    (ws : List TopicWrite) (idx : TopicIndex) → Agrees idx → Agrees (topic_writes ws idx)
unfolding topic_writes
topic_writes-Agrees [] idx a = a
topic_writes-Agrees (w ∷ ws) idx a =
    topic_writes-Agrees ws (topic_write w idx) (topic_write-Agrees w idx a)
