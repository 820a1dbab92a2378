-- ===== src/Storage/Write.antt =====
-- engine_write.go: appending records.
use mem_hop.Prelude.{ℕ, ◌+◌, List, [], ◌∷◌, Option, none, some, leb, ◌==◌, if◌then◌else◌, length}
use mem_hop.Prelude.Map.{inner, get, put, delete}
use mem_hop.Errors.{Code}
use mem_hop.Storage.Frame.{encode_record, byte_at}
use mem_hop.Storage.Engine.{
  Engine, TypeIndex, Act, ◌>>=◌, ◌>>◌, pure, fail, modify, on_error, unless_closed, mmap,
}
use mem_hop.Storage.Disk.{seek_end, append, sync, remap_file, truncate_tail}
use mem_hop.Storage.Tail.{trim_tail_snapshot}

pub record RecordEntry : Type 0 where
  pub agent_id : ℕ
  pub record_type : ℕ
  pub id_hash : ℕ
  pub payload : List ℕ

-- errors.Join keeps the cause in front, so its code is the one that callers see.
unfoldable pub undo_append : {A : Type 0} → ℕ → Code → Act A
undo_append start cause = on_error (truncate_tail start) (λ _. pure tt) >> fail cause

-- The loop of appendFrames: one seek and one write for each record.
unfoldable pub append_loop : ℕ → List RecordEntry → Act (List ℕ)
append_loop start [] = pure []
append_loop start (r ∷ records) = do
  offset ← on_error seek_end (undo_append start)
  on_error (append (encode_record r.agent_id r.record_type 0 r.id_hash r.payload))
      (undo_append start)
  offsets ← append_loop start records
  pure (offset ∷ offsets)

unfoldable pub append_frames : List RecordEntry → Act (List ℕ)
unfolding append_loop
append_frames records = do start ← seek_end; append_loop start records

-- The type byte of the frame at `offset`.
unfoldable pub record_type_at : List ℕ → ℕ → Option ℕ
record_type_at mm offset = if leb (length mm) offset then none else some (byte_at mm offset)

unfoldable pub add_type : TypeIndex → ℕ → ℕ → ℕ → TypeIndex
add_type types agent record_type id =
    let kinds = inner (get types agent) in
    put types agent (put kinds record_type (put (inner (get kinds record_type)) id tt))

-- removeTypeLocked of engine_delete.go: empty containers are pruned.
unfoldable pub remove_type : TypeIndex → ℕ → ℕ → ℕ → TypeIndex
remove_type types agent record_type id =
    let kinds = inner (get types agent) in
    elim (get kinds record_type) [
      | none ↦ types
      | some ids ↦ elim (delete ids id) [
        | x ∷ xs ↦ put types agent (put kinds record_type (x ∷ xs))
        | [] ↦ elim (delete kinds record_type) [
          | [] ↦ delete types agent
          | k ∷ ks ↦ put types agent (k ∷ ks)
        ]
      ]
    ]

-- A re-written id leaves the type that its old frame had, when that is another one.
unfoldable pub leave_old_type : List ℕ → Option ℕ → TypeIndex → RecordEntry → TypeIndex
leave_old_type mm none types r = types
leave_old_type mm (some old) types r = elim (record_type_at mm old) [
  | none ↦ types
  | some t ↦ if t == r.record_type then types else remove_type types r.agent_id t r.id_hash
]

-- One round of updateIndexAfterWrite.
unfoldable pub index_one : RecordEntry → ℕ → Engine → Engine
index_one r offset e =
    let domain = inner (get e.index r.agent_id) in
    let types = leave_old_type (mmap e) (get domain r.id_hash) e.by_agent_type r in
    record e {
      index = put e.index r.agent_id (put domain r.id_hash offset);
      by_agent_type = add_type types r.agent_id r.record_type r.id_hash;
    }

unfoldable pub update_index_after_write : List RecordEntry → List ℕ → Engine → Engine
update_index_after_write (r ∷ records) (o ∷ offsets) e =
    update_index_after_write records offsets (index_one r o e)
update_index_after_write _ _ e = e

-- offsets[len(offsets)-1] + RecordHeaderSize + len(last.Data)
abbrev pub end_of : List RecordEntry → List ℕ → ℕ → ℕ
end_of (r ∷ []) (o ∷ offsets) before = o + 26 + length r.payload
end_of (r ∷ records) (o ∷ offsets) before = end_of records offsets before
end_of _ _ before = before

unfoldable pub write_batch : List RecordEntry → Act (List ℕ)
write_batch [] = pure []
write_batch (r ∷ rs) = do
  trim_tail_snapshot
  offsets ← append_frames (r ∷ rs)
  modify (λ e. record e { next_offset = end_of (r ∷ rs) offsets e.next_offset })
  sync
  new ← remap_file
  modify (λ e. record e { mapped = new })
  modify (update_index_after_write (r ∷ rs) offsets)
  pure offsets

unfoldable pub write_record_batch : List RecordEntry → Act (List ℕ)
write_record_batch records = unless_closed (write_batch records)

abbrev pub first_offset : List ℕ → ℕ
first_offset [] = 0
first_offset (o ∷ os) = o

unfoldable pub write_record : ℕ → ℕ → ℕ → List ℕ → Act ℕ
write_record agent_id record_type id_hash payload = unless_closed do
  offsets ← write_batch (
      record {
        agent_id = agent_id;
        record_type = record_type;
        id_hash = id_hash;
        payload = payload;
      }
      ∷ [])
  pure (first_offset offsets)
