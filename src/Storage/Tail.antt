-- ===== src/Storage/Tail.antt =====
-- The tail of the file and the header flip: reclaim.go (trimTailSnapshot, writeNullSnapshotHeader)
-- and engine_lifecycle.go (appendSnapshot and the header writes).
use mem_hop.Prelude.{ℕ, ◌+◌, ◌%◌, ◌^◌, List, ◌||◌, not, ◌==◌, if◌then◌else◌, length}
use mem_hop.Storage.Engine.{
  Engine, Act, ◌>>=◌, ◌>>◌, pure, gets, modify, unless_closed, active_header_ref, total_records,
  mmap,
}
use mem_hop.Storage.Header.{FileHeader, header_size, to_bytes, calculate_crc}
use mem_hop.Storage.Snapshot.{build_snapshot}
use mem_hop.Storage.Disk.{seek_end, append, sync, remap_file, write_header_at, truncate_tail}

-- The slot that is not active: A when B is.
unfoldable pub write_inactive_header : FileHeader → Act (Unit {0})
write_inactive_header h = do
  active ← gets (λ e. e.headers.active)
  write_header_at (if active == 1 then 0 else header_size) (to_bytes h)
  sync

unfoldable pub switch_header : FileHeader → Act (Unit {0})
switch_header h = modify (λ e. record e {
  headers =
      if e.headers.active == 1
      then record { header_a = h; header_b = e.headers.header_b; active = 0 }
      else record { header_a = e.headers.header_a; header_b = h; active = 1 };
})

-- The checksum is taken of the header as it will be written. CommitID is a uint64.
abbrev pub sealed : FileHeader → FileHeader
sealed h = record h { crc32 = calculate_crc h }

unfoldable pub null_header : FileHeader → FileHeader
null_header h =
    sealed (record h {
      commit_id = (h.commit_id + 1) % 2 ^ 64;
      snapshot_offset = 0;
      snapshot_length = 0;
    })

unfoldable pub write_null_snapshot_header : Act (Unit {0})
write_null_snapshot_header = do
  h ← gets active_header_ref
  write_inactive_header (null_header h)
  switch_header (null_header h)

-- A snapshot at the end of the file is cut off before records are appended.
unfoldable pub trim_tail_snapshot : Act (Unit {0})
trim_tail_snapshot e =
    let h = active_header_ref e in
    if h.snapshot_offset == 0 || h.snapshot_length == 0
    then pure tt e
    else if not ((h.snapshot_offset + h.snapshot_length) % 2 ^ 64 == length (mmap e))
    then pure tt e
    else (truncate_tail e.next_offset >> write_null_snapshot_header) e

unfoldable pub build_checkpoint_header : Engine → ℕ → ℕ → FileHeader
build_checkpoint_header e snap_offset snap_len =
    let h = active_header_ref e in
    sealed (record h {
      commit_id = (h.commit_id + 1) % 2 ^ 64;
      snapshot_offset = snap_offset;
      snapshot_length = snap_len;
      record_count = total_records e.index % 2 ^ 32;
      record_end = e.next_offset;
    })

unfoldable pub append_snapshot : List ℕ → Act (Unit {0})
append_snapshot blob = do
  snap_offset ← seek_end
  append blob
  sync
  new ← remap_file
  modify (λ e. record e { mapped = new })
  h ← gets (λ e. build_checkpoint_header e snap_offset (length blob % 2 ^ 32))
  write_inactive_header h
  again ← remap_file
  modify (λ e. record e { mapped = again })
  switch_header h

-- clearActiveSnapshot writes the slot that is active.
unfoldable pub clear_active_snapshot : Act (Unit {0})
clear_active_snapshot = do
  h ← gets (λ e. sealed (record (active_header_ref e) { snapshot_offset = 0; snapshot_length = 0 }))
  active ← gets (λ e. e.headers.active)
  write_header_at (if active == 0 then 0 else header_size) (to_bytes h)
  modify (λ e. record e {
    headers =
        if e.headers.active == 0
        then record { header_a = h; header_b = e.headers.header_b; active = e.headers.active }
        else record { header_a = e.headers.header_a; header_b = h; active = e.headers.active };
  })

unfoldable pub checkpoint : Act (Unit {0})
checkpoint = unless_closed (λ e. append_snapshot (build_snapshot e.index) e)
