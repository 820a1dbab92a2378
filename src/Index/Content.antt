-- ===== src/Index/Content.antt =====
-- internal/repo/index/l4.go: the content of each topic, in Seq order.
pub mod Order
pub mod Removal
pub mod Writes
use mem_hop.Prelude.{
  ℕ, List, [], ◌∷◌, ◌++◌, Bool, true, false, Option, none, some, not, ltb, ◌==◌, if◌then◌else◌,
  keep_if, contains, length,
}
use mem_hop.Prelude.Int.{ℤ, lt_int}
use mem_hop.Prelude.Map.{Map, get, put, delete, inner}

-- `created_at` is Unix milliseconds as a host gave them; `node_seq` is 0 for a record bound to no
-- plan step.
pub record Entry : Type 0 where
  pub seq : ℕ
  pub id_hash : ℕ
  pub kind : ℕ
  pub created_at : ℤ
  pub node_seq : ℕ

abbrev pub ContentIndex : Type 0
ContentIndex = Map (List Entry)

-- byTopic[topicID]; a missing topic reads as the nil slice.
abbrev pub entries_of : Option (List Entry) → List Entry
entries_of none = []
entries_of (some es) = es

abbrev pub at_topic : ContentIndex → ℕ → List Entry
at_topic idx topic = entries_of (get idx topic)

-- slices.BinarySearchFunc and the write at the place that it finds: the first entry whose Seq is
-- not below is replaced when it has that Seq, and is moved up when it has not.
unfoldable pub insert_entry : Entry → List Entry → List Entry
insert_entry e [] = e ∷ []
insert_entry e (x ∷ xs) =
    let rest = insert_entry e xs in
    if ltb x.seq e.seq then x ∷ rest else if x.seq == e.seq then e ∷ xs else e ∷ x ∷ xs

unfoldable pub append : ContentIndex → ℕ → Entry → ContentIndex
append idx topic e = put idx topic (insert_entry e (at_topic idx topic))

-- The loop of MaxNodeSeq.
unfoldable pub max_node_loop : ℕ → List Entry → ℕ
max_node_loop top [] = top
max_node_loop top (e ∷ es) = max_node_loop (if ltb top e.node_seq then e.node_seq else top) es

unfoldable pub max_node_seq : ContentIndex → ℕ → ℕ
max_node_seq idx topic = max_node_loop 0 (at_topic idx topic)

-- entries[len(entries)-1].Seq
unfoldable pub last_seq : List Entry → ℕ
last_seq [] = 0
last_seq (e ∷ []) = e.seq
last_seq (e ∷ f ∷ es) = last_seq (f ∷ es)

unfoldable pub max_seq : ContentIndex → ℕ → ℕ
max_seq idx topic = last_seq (at_topic idx topic)

-- The ids of one kind, or of both when no kind is named. The nil of an empty read is the empty list.
unfoldable pub ids : Option ℕ → List Entry → List ℕ
ids kind [] = []
ids kind (e ∷ es) =
    let rest = ids kind es in
    elim kind [ none ↦ e.id_hash ∷ rest | some k ↦ if e.kind == k then e.id_hash ∷ rest else rest ]

unfoldable pub ids_of_kind : ContentIndex → ℕ → ℕ → List ℕ
ids_of_kind idx topic kind = ids (some kind) (at_topic idx topic)

unfoldable pub all_ids : ContentIndex → ℕ → List ℕ
all_ids idx topic = ids none (at_topic idx topic)

unfoldable pub expired_ids : ℤ → List Entry → List ℕ
expired_ids cutoff [] = []
expired_ids cutoff (e ∷ es) =
    let rest = expired_ids cutoff es in
    if lt_int e.created_at cutoff then e.id_hash ∷ rest else rest

-- A topic is in the answer only with an id.
unfoldable pub expired_before : ContentIndex → ℤ → Map (List ℕ)
expired_before [] cutoff = []
expired_before ((topic, es) ∷ idx) cutoff =
    let rest = expired_before idx cutoff in
    elim (expired_ids cutoff es) [ [] ↦ rest | x ∷ xs ↦ (topic, x ∷ xs) ∷ rest ]

unfoldable pub remove_ids : ContentIndex → ℕ → List ℕ → ContentIndex
remove_ids idx topic doomed =
    let entries = at_topic idx topic in
    let kept = keep_if (λ e. not (contains doomed e.id_hash)) entries in
    if length kept == length entries
    then idx
    else elim kept [ [] ↦ delete idx topic | x ∷ xs ↦ put idx topic (x ∷ xs) ]

unfoldable pub remove_topic : ContentIndex → ℕ → ContentIndex
remove_topic idx topic = delete idx topic
