-- ===== src/Index/Content/Writes.antt =====
-- Sequences of writes into the content index.
use mem_hop.Prelude.{ℕ, ◌<◌, List, [], ◌∷◌, All, ◌==◌, Bool-cases, inl, inr}
use mem_hop.Prelude.Map.{get-delete}
use mem_hop.Index.Content.{ContentIndex, Entry, append, remove_ids, remove_topic}
use mem_hop.Index.Content.Order.{IsOrdered, append-IsOrdered}
use mem_hop.Index.Content.Removal.{remove_ids-IsOrdered}

pub data ContentWrite : Type 0 where
  slot : ℕ → Entry → ContentWrite
  swept : ℕ → List ℕ → ContentWrite
  gone : ℕ → ContentWrite

unfoldable pub content_write : ContentWrite → ContentIndex → ContentIndex
content_write (slot topic e) idx = append idx topic e
content_write (swept topic doomed) idx = remove_ids idx topic doomed
content_write (gone topic) idx = remove_topic idx topic

unfoldable pub content_writes : List ContentWrite → ContentIndex → ContentIndex
content_writes [] idx = idx
content_writes (w ∷ ws) idx = content_writes ws (content_write w idx)

-- A slot that is written has a Seq above 0.
abbrev pub IsNumbered : ContentWrite → Type 0
IsNumbered (slot topic e) = 0 < e.seq
IsNumbered (swept topic doomed) = Unit {0}
IsNumbered (gone topic) = Unit {0}

remove_topic-IsOrdered :
    (idx : ContentIndex) (topic : ℕ) → IsOrdered idx → IsOrdered (remove_topic idx topic)
unfolding remove_topic
remove_topic-IsOrdered idx topic o = record {
  rises = λ u. elim (Bool-cases (topic == u)) [
    | inl same ↦ rw (get-delete idx topic u, same) tt
    | inr other ↦ rw (get-delete idx topic u, other) (o.rises u)
  ];
}

content_write-IsOrdered :
    (w : ContentWrite) (idx : ContentIndex)
    → IsNumbered w
    → IsOrdered idx
    → IsOrdered (content_write w idx)
unfolding content_write
content_write-IsOrdered (slot topic e) idx n o = append-IsOrdered idx topic e n o
content_write-IsOrdered (swept topic doomed) idx n o = remove_ids-IsOrdered idx topic doomed o
content_write-IsOrdered (gone topic) idx n o = remove_topic-IsOrdered idx topic o

-- Any sequence of appends with a Seq above 0, removals and topic removals keeps every topic in strictly rising
-- Seq order.
pub content_writes-IsOrdered :
    (ws : List ContentWrite) (idx : ContentIndex)
    → All IsNumbered ws
    → IsOrdered idx
    → IsOrdered (content_writes ws idx)
unfolding content_writes
content_writes-IsOrdered [] idx n o = o
content_writes-IsOrdered (w ∷ ws) idx n o =
    content_writes-IsOrdered ws (content_write w idx) n.1 (content_write-IsOrdered w idx n.0 o)
