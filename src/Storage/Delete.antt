-- ===== src/Storage/Delete.antt =====
-- engine_delete.go: tombstones.
use mem_hop.Prelude.{
  ℕ, ◌+◌, List, [], ◌∷◌, ◌++◌, Bool, Option, none, some, ltb, ◌==◌, if◌then◌else◌, length,
}
use mem_hop.Prelude.Map.{inner, Map, get, put, delete}
use mem_hop.Storage.Frame.{encode_record, byte_at, flag_deleted}
use mem_hop.Storage.Engine.{Engine, Act, ◌>>=◌, ◌>>◌, pure, modify, on_error, unless_closed, mmap}
use mem_hop.Storage.Disk.{seek_end, append, sync, remap_file}
use mem_hop.Storage.Tail.{trim_tail_snapshot}
use mem_hop.Storage.Write.{undo_append, record_type_at, remove_type}

-- The frames, the old offset of each deleted id, and how many frames there are.
pub record Tombstones : Type 0 where
  pub frames : List ℕ
  pub live_offsets : Map ℕ
  pub deleted : ℕ

-- The type byte of the old frame, 0 outside the mapping.
abbrev pub old_type : List ℕ → ℕ → ℕ
old_type mm offset = if ltb offset (length mm) then byte_at mm offset else 0

abbrev pub bury : Engine → ℕ → ℕ → Option ℕ → Tombstones → Tombstones
bury e agent_id id none t = t
bury e agent_id id (some offset) t = record {
  frames = t.frames ++ encode_record agent_id (old_type (mmap e) offset) flag_deleted id [];
  live_offsets = put t.live_offsets id offset;
  deleted = t.deleted + 1;
}

unfoldable pub tombstone_loop : Engine → ℕ → List ℕ → Tombstones → Tombstones
tombstone_loop e agent_id [] t = t
tombstone_loop e agent_id (id ∷ ids) t =
    tombstone_loop e agent_id ids (bury e agent_id id (get (inner (get e.index agent_id)) id) t)

unfoldable pub build_tombstones : Engine → ℕ → List ℕ → Tombstones
unfolding tombstone_loop
build_tombstones e agent_id ids =
    tombstone_loop e agent_id ids (record { frames = []; live_offsets = []; deleted = 0 })

-- One round of the loop of applyDeletions.
unfoldable pub drop_one : ℕ → ℕ → ℕ → Engine → Engine
drop_one agent_id id offset e = record e {
  index = put e.index agent_id (delete (inner (get e.index agent_id)) id);
  by_agent_type = elim (record_type_at (mmap e) offset) [
    | none ↦ e.by_agent_type
    | some t ↦ remove_type e.by_agent_type agent_id t id
  ];
}

unfoldable pub drop_loop : ℕ → Map ℕ → Engine → Engine
drop_loop agent_id [] e = e
drop_loop agent_id ((id, offset) ∷ m) e = drop_loop agent_id m (drop_one agent_id id offset e)

-- A domain that lost its last record goes.
abbrev pub prune_domain : ℕ → Engine → Engine
prune_domain agent_id e = elim (inner (get e.index agent_id)) [
  | [] ↦ record e { index = delete e.index agent_id }
  | x ∷ xs ↦ e
]

unfoldable pub apply_deletions : ℕ → Map ℕ → Engine → Engine
unfolding drop_loop
apply_deletions agent_id offsets e = prune_domain agent_id (drop_loop agent_id offsets e)

abbrev pub write_tombstones : ℕ → Tombstones → Act ℕ
write_tombstones agent_id t = do
  trim_tail_snapshot
  end ← seek_end
  on_error (append t.frames) (undo_append end)
  modify (λ e. record e { next_offset = end + length t.frames })
  sync
  new ← remap_file
  modify (λ e. record e { mapped = new })
  modify (apply_deletions agent_id t.live_offsets)
  pure t.deleted

unfoldable pub delete_batch : ℕ → List ℕ → Act ℕ
delete_batch agent_id ids e =
    let t = build_tombstones e agent_id ids in
    if t.deleted == 0 then pure 0 e else write_tombstones agent_id t e

unfoldable pub delete_record_batch : ℕ → List ℕ → Act ℕ
delete_record_batch agent_id ids = unless_closed (delete_batch agent_id ids)

unfoldable pub delete_record : ℕ → ℕ → Act Bool
delete_record agent_id id = unless_closed do n ← delete_batch agent_id (id ∷ []); pure (ltb 0 n)
