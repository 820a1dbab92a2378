-- ===== src/Repo/Contents.antt =====
-- internal/repo/l4layer.go: content records and the mirror that names them. encoding/json, xxhash,
-- strings.Contains and strings.ToLower are parameters. A topic's records are written, deleted and read
-- through the mirror, so an operation works on the engine and the mirror together.
pub mod Removal
pub mod Reading
pub mod Query
pub mod Mirror
pub mod Append
use Prim.Native.String.{String}
use text.Mathlib.Text.{◌==◌ as str_eq}
use mem_hop.Prelude.{
  ℕ, ◌-◌, List, [], ◌∷◌, ◌++◌, Bool, true, false, Option, none, some, not, ◌&&◌, ◌==◌, leb,
  if◌then◌else◌, contains, keep_if, length, drop,
}
use mem_hop.Prelude.Int.{ℤ, pos, lt_int, le_int}
use mem_hop.Prelude.Map.{Map}
use mem_hop.Prelude.Sort.{sort_by}
use mem_hop.Common.{dedup_sorted}
use mem_hop.Errors.{Result, ok, err, io, not_found, serialization, ◌>>=◌}
use mem_hop.Storage.Engine.{Engine}
use mem_hop.Storage.Write.{RecordEntry, write_record_batch}
use mem_hop.Storage.Delete.{delete_record_batch}
use mem_hop.Records.{read_json, is_not_found, collect_all_strict}
use mem_hop.Index.Content.{
  Entry, ContentIndex, append, all_ids, expired_before, remove_ids, remove_topic,
}
use mem_hop.Plan.Writes.{digits}

abbrev pub rec_l4_archive : ℕ
rec_l4_archive = 8

pub record ArchiveSlot : Type 0 where
  pub id_hash : ℕ
  pub kind : ℕ
  pub seq : ℕ
  pub content_type : ℕ
  pub role : ℕ
  pub topic_id : ℕ
  pub event_type : String
  pub node_seq : ℕ
  pub created_at : ℤ
  pub content : String

-- The engine and the content mirror of one domain.
pub record Contents : Type 0 where
  pub engine : Engine
  pub index : ContentIndex

-- HashContent, over the bytes of "content:%d:%d".
abbrev pub hash_content : (List ℕ → ℕ) → ℕ → ℕ → ℕ
hash_content xxhash topic_id seq =
    xxhash
      (99 ∷ 111 ∷ 110 ∷ 116 ∷ 101 ∷ 110 ∷ 116 ∷ 58 ∷ digits 20 topic_id (58 ∷ digits 20 seq []))

abbrev pub entry_of : ArchiveSlot → Entry
entry_of arc = record {
  seq = arc.seq;
  id_hash = arc.id_hash;
  kind = arc.kind;
  created_at = arc.created_at;
  node_seq = arc.node_seq;
}

-- The second loop of AppendArchiveBatchL4.
unfoldable pub mirror : List ArchiveSlot → ContentIndex → ContentIndex
mirror [] idx = idx
mirror (arc ∷ arcs) idx = mirror arcs (append idx arc.topic_id (entry_of arc))

module _ (marshal : ArchiveSlot → Option (List ℕ)) (xxhash : List ℕ → ℕ) where
  abbrev pub addressed : ArchiveSlot → ArchiveSlot
  addressed arc = record arc { id_hash = hash_content xxhash arc.topic_id arc.seq }

  abbrev pub archive_entry : ℕ → ArchiveSlot → Option (List ℕ) → Result RecordEntry
  archive_entry agent_id arc none = err serialization
  archive_entry agent_id arc (some bytes) = ok (record {
    agent_id = agent_id;
    record_type = rec_l4_archive;
    id_hash = arc.id_hash;
    payload = bytes;
  })

  -- The first loop: every record is encoded before any is written.
  unfoldable pub encode_all : ℕ → List ArchiveSlot → Result (List RecordEntry)
  encode_all agent_id [] = ok []
  encode_all agent_id (arc ∷ arcs) =
      archive_entry agent_id (addressed arc) (marshal (addressed arc)) >>= λ w.
      encode_all agent_id arcs >>= λ ws. ok (w ∷ ws)

  unfoldable pub address_all : List ArchiveSlot → List ArchiveSlot
  address_all [] = []
  address_all (arc ∷ arcs) = addressed arc ∷ address_all arcs

  -- The mirror follows only a batch that was written.
  abbrev pub mirrored :
      List ArchiveSlot → Contents → Result (List ℕ) × Engine → Result (Unit {0}) × Contents
  mirrored arcs s (err c, e) = (err c, record s { engine = e })
  mirrored arcs s (ok offsets, e) = (ok tt, record { engine = e; index = mirror arcs s.index })

  abbrev pub write_encoded :
      List ArchiveSlot → Contents → Result (List RecordEntry) → Result (Unit {0}) × Contents
  write_encoded arcs s (err c) = (err c, s)
  write_encoded arcs s (ok writes) =
      mirrored (address_all arcs) s (write_record_batch writes s.engine)

  unfoldable pub append_archive_batch_l4 :
      ℕ → List ArchiveSlot → Contents → Result (Unit {0}) × Contents
  append_archive_batch_l4 agent_id arcs s = write_encoded arcs s (encode_all agent_id arcs)

  unfoldable pub append_archive_l4 : ℕ → ArchiveSlot → Contents → Result (Unit {0}) × Contents
  append_archive_l4 agent_id arc s = append_archive_batch_l4 agent_id (addressed arc ∷ []) s

unfoldable pub credited : ContentIndex → List ℕ → List ℕ
credited idx [] = []
credited idx (topic ∷ topics) = all_ids idx topic ++ credited idx topics

unfoldable pub remove_topics : List ℕ → ContentIndex → ContentIndex
remove_topics [] idx = idx
remove_topics (topic ∷ topics) idx = remove_topics topics (remove_topic idx topic)

-- Behind the deletion: the mirror forgets what it named only when the records went.
abbrev pub forget :
    {A : Type 0}
    → (ContentIndex → ContentIndex)
    → (ℕ → A)
    → Contents
    → Result ℕ × Engine
    → Result A × Contents
forget change answer s (err c, e) = (err io, record s { engine = e })
forget change answer s (ok n, e) = (ok (answer n), record { engine = e; index = change s.index })

unfoldable pub delete_topic_archives : ℕ → List ℕ → Contents → Result (Unit {0}) × Contents
delete_topic_archives agent_id topics s =
    forget (remove_topics topics) (λ n. tt) s
      (delete_record_batch agent_id (dedup_sorted (credited s.index topics)) s.engine)

unfoldable pub all_expired : Map (List ℕ) → List ℕ
all_expired [] = []
all_expired ((topic, ids) ∷ expired) = ids ++ all_expired expired

unfoldable pub sweep : Map (List ℕ) → ContentIndex → ContentIndex
sweep [] idx = idx
sweep ((topic, ids) ∷ expired) idx = sweep expired (remove_ids idx topic ids)

unfoldable pub drop_expired_archives : ℕ → ℤ → Contents → Result ℕ × Contents
drop_expired_archives agent_id cutoff s =
    let expired = expired_before s.index cutoff in
    forget (sweep expired) (λ n. n) s (delete_record_batch agent_id (all_expired expired) s.engine)
