-- ===== src/Storage/Store/Purge.antt =====
-- engine_delete.go, when no system call fails: what a batch of deletions leaves to be read.
use mem_hop.Prelude.{
  ℕ, ◌+◌, ◌≡◌, refl, sym, ap, ◌∙◌, List, [], ◌∷◌, ◌++◌, Bool, ◌==◌, ◌&&◌, ◌||◌, if◌then◌else◌,
  length, arith, true, false, Option, some, none, contains, keep_if, Bool-cases, Option-cases, inl,
  inr, length-append,
}
use mem_hop.Prelude.Map.{Map, get, delete, inner, get-put, get-delete}
use mem_hop.Errors.{Result, ok, err, not_found}
use mem_hop.Storage.Domains.{Index, offset_of}
use mem_hop.Storage.Engine.{Engine, TypeIndex, is_some}
use mem_hop.Storage.Disk.Calm.{unless_open, seek_end_calm, append_calm, sync_calm, remap_file_calm}
use mem_hop.Storage.Read.{read_record}
use mem_hop.Storage.Delete.{
  Tombstones, bury, tombstone_loop, build_tombstones, drop_one, drop_loop, apply_deletions,
  write_tombstones, delete_batch, delete_record_batch,
}
use mem_hop.Storage.Tail.{trim_tail_snapshot}
use mem_hop.Storage.Ready.{IsReady, Trims, Holds, trim_tail_snapshot-Trims}
use mem_hop.Storage.Store.{read_record-at}
use mem_hop.Storage.Store.Batch.Read.{extended, extended-IsReady, extended_read}
use mem_hop.Storage.Store.Erase.{reindexed, prune_domain_lem}

-- Whether the index leads to the record.
abbrev pub is_live : Engine → ℕ → ℕ → Bool
is_live e a i = is_some (offset_of e.index a i)

module _ (e : Engine) (a : ℕ) where
  bury_deleted :
      (i : ℕ) (o : Option ℕ) (t : Tombstones)
      → (bury e a i o t).deleted ≡ (if is_some o then t.deleted + 1 else t.deleted)
  bury_deleted i none t = refl
  bury_deleted i (some off) t = refl

  loop_deleted :
      (ids : List ℕ) (t : Tombstones)
      → (tombstone_loop e a ids t).deleted ≡ t.deleted + length (keep_if (is_live e a) ids)
  unfolding tombstone_loop
  loop_deleted [] t = omega arith
  loop_deleted (i ∷ ids) t = ground (
    arith,
    bury_deleted i (offset_of e.index a i) t,
    loop_deleted ids (bury e a i (offset_of e.index a i) t),
  )

  bury_offsets :
      (i j : ℕ) (o : Option ℕ) (t : Tombstones)
      → is_some (get (bury e a i o t).live_offsets j)
        ≡ ((i == j && is_some o) || is_some (get t.live_offsets j))
  bury_offsets i j none t = ground arith
  bury_offsets i j (some off) t = ground (arith, get-put t.live_offsets i off j)

  same_id : (i j : ℕ) → (i == j) ≡ true → is_live e a i ≡ is_live e a j
  same_id i j h = ap (is_live e a) (ground (arith, h))

  loop_offsets :
      (ids : List ℕ) (t : Tombstones) (j : ℕ)
      → is_some (get (tombstone_loop e a ids t).live_offsets j)
        ≡ ((contains ids j && is_live e a j) || is_some (get t.live_offsets j))
  unfolding tombstone_loop
  loop_offsets [] t j = refl
  loop_offsets (i ∷ ids) t j = ground (
    arith,
    bury_offsets i j (offset_of e.index a i) t,
    loop_offsets ids (bury e a i (offset_of e.index a i) t) j,
    same_id i j,
  )

  none_live :
      (ids : List ℕ) (j : ℕ)
      → length (keep_if (is_live e a) ids) ≡ 0
      → contains ids j ≡ true
      → is_live e a j ≡ false
  none_live [] j h c = absurd (cc c)
  none_live (i ∷ ids) j h c = ground (arith, none_live ids j, same_id i j)

-- What the loop of applyDeletions leaves.
drop_loop_lem :
    (a : ℕ) (m : Map ℕ) (e : Engine)
    → (index : Index) × (types : TypeIndex) × (drop_loop a m e ≡ reindexed e index types)
      × ((b j : ℕ)
          → offset_of index b j
            ≡ (if a == b && is_some (get m j) then none else offset_of e.index b j))
unfolding drop_loop drop_one get
drop_loop_lem a [] e = (e.index, e.by_agent_type, refl, λ b j. ground arith)
drop_loop_lem a ((i, off) ∷ m) e =
    let (index, types, eq, law) = drop_loop_lem a m (drop_one a i off e) in
    (
      index,
      types,
      eq,
      λ b j.
          law b j
          ∙ ground (
            arith,
            get-put e.index a (delete (inner (get e.index a)) i) b,
            get-delete (inner (get e.index a)) i j,
          ),
    )

apply_deletions-reindexed :
    (a : ℕ) (m : Map ℕ) (e : Engine)
    → (index : Index) × (types : TypeIndex) × (apply_deletions a m e ≡ reindexed e index types)
      × ((b j : ℕ)
          → offset_of index b j
            ≡ (if a == b && is_some (get m j) then none else offset_of e.index b j))
unfolding apply_deletions
apply_deletions-reindexed a m e =
    let (index, types, eq, law) = drop_loop_lem a m e in
    let dropped = reindexed e index types in
    let (index', eq', tidy, fewer, law') = prune_domain_lem a dropped (inner (get index a)) refl in
    (index', types, rw eq eq', λ b j. law' b j ∙ law b j)

-- An engine of which some records are forgotten.
module _ (e : Engine) (ready : IsReady e) (index : Index) (types : TypeIndex) (gone : ℕ → ℕ → Bool)
    (law : (b j : ℕ)
      → offset_of index b j ≡ (if gone b j then none else offset_of e.index b j)) where
  fewer-live :
      (b j off : ℕ) → offset_of index b j ≡ some off → Holds (reindexed e index types) b j off
  fewer-live b j off h = ready.live b j off (ground (arith, law b j, h))

  fewer-IsReady : IsReady (reindexed e index types)
  fewer-IsReady = record {
    opened = ready.opened;
    whole = ready.whole;
    area = ready.area;
    room = ready.room;
    live = fewer-live;
  }

  fewer_read :
      (b j : ℕ)
      → read_record (reindexed e index types) b j
        ≡ (if gone b j then err not_found else read_record e b j)
  fewer_read b j = elim (Bool-cases (gone b j)) [
    | inl lost ↦
        rw lost
          (read_record-at (reindexed e index types) b j none fewer-IsReady (law b j ∙ rw lost refl))
    | inr kept ↦ rw kept (
        read_record-at (reindexed e index types) b j (offset_of e.index b j) fewer-IsReady
          (law b j ∙ rw kept refl)
        ∙ sym (read_record-at e b j (offset_of e.index b j) ready refl))
  ]

read_absent :
    (e : Engine) (b j : ℕ) → IsReady e → is_live e b j ≡ false → read_record e b j ≡ err not_found
read_absent e b j ready h = elim (Option-cases (offset_of e.index b j)) [
  | inl absent ↦ read_record-at e b j none ready absent
  | inr (off, there) ↦ absurd (cc (rw there at h))
]

-- What is read when a batch of ids was deleted from one domain.
abbrev pub without : Bool → Result (ℕ × List ℕ) → Result (ℕ × List ℕ)
without gone old = if gone then err not_found else old

write_tombstones_calm :
    (before e : Engine) (r : IsReady before) (k : Trims before e) (a : ℕ) (t : Tombstones)
    → trim_tail_snapshot before ≡ (ok tt, e)
    → write_tombstones a t before
      ≡ (ok t.deleted, apply_deletions a t.live_offsets (extended before e r k t.frames))
write_tombstones_calm before e r k a t trimmed =
    let grown = record e { file = e.file ++ t.frames } in
    let moved = record grown { next_offset = length e.file + length t.frames } in
    rw
      (
        trimmed,
        seek_end_calm e k.calm,
        append_calm e k.calm t.frames,
        sync_calm moved k.calm,
        remap_file_calm moved k.calm,
      )
      (rw (sym (length-append e.file t.frames)) refl)

module _ (e : Engine) (calm : e.plan ≡ []) (ready : IsReady e) (a : ℕ) (ids : List ℕ) where
  -- What a batch of deletions answers and leaves.
  abbrev pub Purged : Type 0
  Purged =
      (e' : Engine) × (delete_record_batch a ids e ≡ (ok (length (keep_if (is_live e a) ids)), e'))
      × IsReady e'
      × (e'.plan ≡ [])
      × ((b j : ℕ) → read_record e' b j ≡ without (a == b && contains ids j) (read_record e b j))

  tombs : Tombstones
  tombs = build_tombstones e a ids

  tombs_deleted : tombs.deleted ≡ length (keep_if (is_live e a) ids)
  unfolding tombs build_tombstones
  tombs_deleted =
      loop_deleted e a ids (record { frames = []; live_offsets = []; deleted = 0 }) ∙ omega arith

  tombs_offsets : (j : ℕ) → is_some (get tombs.live_offsets j) ≡ (contains ids j && is_live e a j)
  unfolding tombs build_tombstones get
  tombs_offsets j =
      loop_offsets e a ids (record { frames = []; live_offsets = []; deleted = 0 }) j ∙ ground arith

  named_or_not :
      (b j : ℕ)
      → without (a == b && (contains ids j && is_live e a j)) (read_record e b j)
        ≡ without (a == b && contains ids j) (read_record e b j)
  named_or_not b j = elim (Bool-cases (a == b && (contains ids j))) [
    | inr other ↦ ground (arith, other)
    | inl named ↦ elim (Bool-cases (is_live e a j)) [
      | inl live ↦ ground (arith, named, live)
      | inr dead ↦
          let ea : a ≡ b = ground (arith, named) in
          let absent = ap (λ x. read_record e x j) (sym ea) ∙ read_absent e a j ready dead in
          rw (named, absent, dead) (ground arith)
    ]
  ]

  nothing_to_delete : (tombs.deleted == 0) ≡ true → Purged
  unfolding tombs delete_record_batch delete_batch
  nothing_to_delete zero_deleted =
      let none_kept : length (keep_if (is_live e a) ids) ≡ 0 =
        sym tombs_deleted ∙ ground (arith, zero_deleted) in
      (
        e,
        unless_open (delete_batch a ids) e ready.opened ∙ rw (zero_deleted, none_kept) refl,
        ready,
        calm,
        λ b j. elim (Bool-cases (a == b && contains ids j)) [
          | inl named ↦
              let ea : a ≡ b = ground (arith, named) in
              rw named (
                ap (λ x. read_record e x j) (sym ea)
                ∙ read_absent e a j ready (none_live e a ids j none_kept (ground (arith, named))))
          | inr other ↦ rw other refl
        ],
      )

  some_deleted : (tombs.deleted == 0) ≡ false → Purged
  unfolding tombs delete_record_batch delete_batch
  some_deleted more =
      let (m, trimmed, k) = trim_tail_snapshot-Trims e calm ready in
      let big = extended e m ready k tombs.frames in
      let bigReady = extended-IsReady e m ready k tombs.frames in
      let (index, types, eq, law) = apply_deletions-reindexed a tombs.live_offsets big in
      let gone = λ (b j : ℕ). a == b && is_some (get tombs.live_offsets j) in
      (
        reindexed big index types,
        unless_open (delete_batch a ids) e ready.opened
            ∙ rw (more, write_tombstones_calm e m ready k a tombs trimmed, eq, tombs_deleted) refl,
        fewer-IsReady big bigReady index types gone law,
        k.calm,
        λ b j.
            fewer_read big bigReady index types gone law b j
            ∙ ap (without (gone b j)) (extended_read e m ready k tombs.frames b j)
            ∙ ap (λ g. without (a == b && g) (read_record e b j)) (tombs_offsets j)
            ∙ named_or_not b j,
      )

  -- When no system call fails: a batch of deletions on a ready engine succeeds and answers how many of its
  -- ids the index led to; the records of the domain that it names read as missing, all others as before.
  pub delete_record_batch-read_record : Purged
  delete_record_batch-read_record = elim (Bool-cases (tombs.deleted == 0)) [
    | inl zero_deleted ↦ nothing_to_delete zero_deleted
    | inr more ↦ some_deleted more
  ]
