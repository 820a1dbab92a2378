-- ===== src/Storage/Store/Erase.antt =====
-- engine_delete.go, when no system call fails and no snapshot is to be cut: the tombstone of one
-- record and what it leaves of the index.
use mem_hop.Prelude.{
  ℕ, ◌+◌, ◌<◌, ◌≤◌, ◌^◌, ◌≡◌, refl, sym, ap, ◌∙◌, List, [], ◌∷◌, ◌++◌, true, false, some, none, ltb,
  ◌&&◌, ◌==◌, if◌then◌else◌, length, arith, Bool-cases, inl, inr,
}
use mem_hop.Prelude.Map.{Map, get, put, delete, inner, get-put, get-delete}
use mem_hop.Errors.{ok}
use mem_hop.Storage.Domains.{Index, offset_of}
use mem_hop.Storage.Domains.Tidy.{
  IsTidy, delete-IsTidy, lose-IsTidy, total_records-delete, total_records-lose,
}
use mem_hop.Storage.Frame.{encode_record, flag_deleted}
use mem_hop.Storage.Engine.{Engine, TypeIndex, mmap, pure, ◌>>=◌, total_records}
use mem_hop.Storage.Disk.Calm.{unless_open, seek_end_calm, append_calm, sync_calm, remap_file_calm}
use mem_hop.Storage.Tail.{trim_tail_snapshot}
use mem_hop.Storage.Delete.{
  old_type, build_tombstones, drop_one, apply_deletions, write_tombstones, delete_batch,
  delete_record,
}

-- What applyDeletions leaves of an engine.
abbrev pub reindexed : Engine → Index → TypeIndex → Engine
reindexed e index types = record e { index = index; by_agent_type = types }

-- A domain that is pruned held nothing.
pub prune_domain_lem :
    (a : ℕ) (e : Engine) (m : Map ℕ)
    → inner (get e.index a) ≡ m
    → (index : Index) × ((elim m [ [] ↦ record e { index = delete e.index a } | x ∷ xs ↦ e ])
        ≡ reindexed e index e.by_agent_type)
      × (IsTidy e.index → IsTidy index)
      × (total_records index ≤ total_records e.index)
      × ((b j : ℕ) → offset_of index b j ≡ offset_of e.index b j)
unfolding get
prune_domain_lem a e [] h = (
  delete e.index a,
  refl,
  delete-IsTidy e.index a,
  total_records-delete e.index a,
  λ b j. elim (Bool-cases (a == b)) [
    | inl same ↦
        let at : a ≡ b = ground (arith, same) in
        rw (get-delete e.index a b, same) (sym (ap (λ m. get m j) (rw at at h)))
    | inr other ↦ rw (get-delete e.index a b, other) refl
  ],
)
prune_domain_lem a e (x ∷ xs) h = (e.index, refl, λ t. t, omega arith, λ b j. refl)

apply_deletions_lem :
    (a i off : ℕ) (e : Engine)
    → (index : Index) × (types : TypeIndex) × (apply_deletions a ((i, off) ∷ []) e
        ≡ reindexed e index types)
      × (a < 256 ^ 8 → IsTidy e.index → IsTidy index)
      × (total_records index ≤ total_records e.index)
      × ((b j : ℕ)
          → offset_of index b j ≡ (if a == b && i == j then none else offset_of e.index b j))
unfolding apply_deletions drop_one
apply_deletions_lem a i off e =
    let dropped = drop_one a i off e in
    let (index, eq, tidy, fewer, law) =
      prune_domain_lem a dropped (inner (get dropped.index a)) refl in
    (
      index,
      dropped.by_agent_type,
      eq,
      λ la t. tidy (lose-IsTidy e.index a i la t),
      omega (arith, fewer, total_records-lose e.index a i),
      λ b j.
          law b j
          ∙ ground (
            arith,
            get-put e.index a (delete (inner (get e.index a)) i) b,
            get-delete (inner (get e.index a)) i j,
          ),
    )

-- The engine whose record (a, i), which stands at `off`, is buried.
module _ (e : Engine) (calm : e.plan ≡ []) (a i off : ℕ)
    (there : offset_of e.index a i ≡ some off) where
  abbrev pub tombstone : List ℕ
  tombstone = encode_record a (old_type (mmap e) off) flag_deleted i []

  abbrev pub buried : Engine
  buried = record e {
    file = e.file ++ tombstone;
    next_offset = length e.file + length tombstone;
    mapped = length (e.file ++ tombstone);
  }

  -- The tombstones of an engine `before` that knows the record at the same place, with the same type.
  built :
      (before : Engine)
      → offset_of before.index a i ≡ some off
      → old_type (mmap before) off ≡ old_type (mmap e) off
      → build_tombstones before a (i ∷ [])
        ≡ record { frames = tombstone; live_offsets = (i, off) ∷ []; deleted = 1 }
  unfolding build_tombstones put delete
  built before known kind = rw (known, kind) refl

  write_tombstones_calm :
      (before : Engine)
      → trim_tail_snapshot before ≡ (ok tt, e)
      → write_tombstones a
          (record { frames = tombstone; live_offsets = (i, off) ∷ []; deleted = 1 })
          before
        ≡ (ok 1, apply_deletions a ((i, off) ∷ []) buried)
  write_tombstones_calm before trimmed =
      let grown = record e { file = e.file ++ tombstone } in
      let moved = record grown { next_offset = length e.file + length tombstone } in
      rw (
        trimmed,
        seek_end_calm e calm,
        append_calm e calm tombstone,
        sync_calm moved calm,
        remap_file_calm moved calm,
      )

  -- The deletion of a live record answers that it deleted it, where the trim leaves the engine `e`.
  pub delete_record_calm :
      (before : Engine)
      → before.is_closed ≡ false
      → offset_of before.index a i ≡ some off
      → old_type (mmap before) off ≡ old_type (mmap e) off
      → trim_tail_snapshot before ≡ (ok tt, e)
      → (index : Index) × (types : TypeIndex) × (delete_record a i before
          ≡ (ok true, reindexed buried index types))
        × (a < 256 ^ 8 → IsTidy e.index → IsTidy index)
        × (total_records index ≤ total_records e.index)
        × ((b j : ℕ)
            → offset_of index b j ≡ (if a == b && i == j then none else offset_of e.index b j))
  unfolding delete_record delete_batch
  delete_record_calm before opened known kind trimmed =
      let (index, types, eq, tidy, fewer, law) = apply_deletions_lem a i off buried in
      (
        index,
        types,
        unless_open (delete_batch a (i ∷ []) >>= λ n. pure (ltb 0 n)) before opened
            ∙ rw (built before known kind, write_tombstones_calm before trimmed, eq) refl,
        tidy,
        fewer,
        law,
      )

-- The deletion of a record that is not there changes nothing.
pub delete_record_absent :
    (e : Engine) (a i : ℕ)
    → e.is_closed ≡ false
    → offset_of e.index a i ≡ none
    → delete_record a i e ≡ (ok false, e)
unfolding delete_record delete_batch build_tombstones
delete_record_absent e a i opened absent =
    unless_open (delete_batch a (i ∷ []) >>= λ n. pure (ltb 0 n)) e opened ∙ rw absent refl
