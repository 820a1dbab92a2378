-- ===== src/Storage/Lifecycle.antt =====
-- engine_lifecycle.go: creating, opening and closing a file. A path, its lock and its descriptor
-- show only in the system calls that can fail.
use mem_hop.Prelude.{
  ℕ, ◌+◌, ◌*◌, List, [], Bool, true, false, Option, none, some, ◌||◌, ◌&&◌, ltb, ◌==◌,
  if◌then◌else◌, length,
}
use mem_hop.Errors.{Result, ok, err, corruption, eof}
use mem_hop.Storage.Domains.{Index}
use mem_hop.Storage.Frame.{slice}
use mem_hop.Storage.Header.{
  FileHeader, new_file_header, header_size, data_start, to_bytes, load_headers,
}
use mem_hop.Storage.Snapshot.{build_snapshot, parse_snapshot}
use mem_hop.Storage.Engine.{
  Engine, Outcome, Act, ◌>>=◌, ◌>>◌, pure, fail, gets, modify, on_error, unless_closed,
  active_header_ref, mmap,
}
use mem_hop.Storage.Disk.{
  sync, stat, truncate, map_file, unmap_file, write_header_at, truncate_tail, system_call,
}
use mem_hop.Storage.Tail.{append_snapshot, clear_active_snapshot}
use mem_hop.Storage.Recovery.{Scan, scan_records, recover_record_area_end, rebuild_by_agent_type}

abbrev lift : {A : Type 0} → Result A → Act A
lift (ok a) = pure a
lift (err c) = fail c

-- The engine before a header is read: the bytes of the file, nothing mapped.
abbrev pub blank : List ℕ → List Outcome → Engine
blank file plan = record {
  file = file;
  mapped = 0;
  headers = record { header_a = new_file_header; header_b = new_file_header; active = 0 };
  index = [];
  by_agent_type = [];
  next_offset = data_start;
  is_closed = false;
  plan = plan;
}

-- Create, from the call that opens the file on: the lock is held before the truncation.
unfoldable pub create : Act (Unit {0})
create = do
  system_call
  system_call
  truncate data_start
  write_header_at 0 (to_bytes new_file_header)
  write_header_at header_size (to_bytes new_file_header)
  new ← map_file data_start
  on_error sync (λ c. on_error (unmap_file new) (λ _. pure tt) >> fail c)
  modify (λ e. record e { mapped = new })

abbrev pub keep_first : Result (Unit {0}) → Result (Unit {0}) × Engine → Result (Unit {0}) × Engine
keep_first (ok u) (r, e) = (r, e)
keep_first (err c) (r, e) = (err c, e)

-- cleanupHandles: every step runs, and the first error wins.
abbrev pub both : Act (Unit {0}) → Act (Unit {0}) → Act (Unit {0})
both first second e = keep_first (first e).0 (second (first e).1)

-- The unmap and the close behind a failure: both run, and what they answer is dropped.
abbrev let_go : ℕ → Act (Unit {0})
let_go mapped = on_error (both (unmap_file mapped) system_call) (λ _. pure tt)

-- openEngineFile: the sizes and the headers.
unfoldable pub open_engine_file : Act (Unit {0})
open_engine_file = do
  system_call
  system_call
  size ← stat
  (if ltb size (header_size * 2) then fail corruption else pure tt)
  new ← map_file size
  modify (λ e. record e { mapped = new })
  mm ← gets mmap
  headers ← on_error (lift (load_headers mm)) (λ c. let_go new >> fail c)
  modify (λ e. record e { headers = headers })

-- The offset and the length are taken to sum below 2^63: in Go an offset just below it makes the sum wrap
-- and pass the test, and slicing the mapping then panics, while here it is out of bounds.
unfoldable pub load_snapshot : FileHeader → List ℕ → Result Index
load_snapshot active mm =
    let from = active.snapshot_offset in
    let to = from + active.snapshot_length in
    if ltb from data_start || ltb (length mm) to
    then err corruption
    else parse_snapshot (slice mm from to)

-- Where the scan starts, and whether a snapshot was loaded or found corrupt.
pub record Restored : Type 0 where
  pub index : Index
  pub scan_start : ℕ
  pub loaded : Bool
  pub corrupt : Bool

unfoldable pub restore_from_snapshot : FileHeader → List ℕ → Restored
restore_from_snapshot active mm =
    if active.snapshot_offset == 0 || active.snapshot_length == 0
    then record { index = []; scan_start = data_start; loaded = false; corrupt = false }
    else elim (load_snapshot active mm) [
      | err c ↦ record { index = []; scan_start = data_start; loaded = false; corrupt = true }
      | ok index ↦ record {
        index = index;
        scan_start = active.snapshot_offset + active.snapshot_length;
        loaded = true;
        corrupt = false;
      }
    ]

-- The scan has an answer from every start inside the mapping (`Recovery.Sound`), so the first clause
-- is never taken.
abbrev answer : Option (Result Scan) → Act Scan
answer none = fail eof
answer (some r) = lift r

-- What Open does with the end that the scan reports.
unfoldable pub settle_end : Restored → Scan → Act (Unit {0})
settle_end r s =
    if s.truncate
    then truncate_tail s.end
    else if r.loaded && s.end == r.scan_start
    then modify
        (λ e. record e { next_offset = recover_record_area_end (active_header_ref e) (mmap e) })
    else pure tt

unfoldable pub restore : Act (Unit {0})
restore = do
  active ← gets active_header_ref
  mm ← gets mmap
  let r = restore_from_snapshot active mm
  s ← answer (scan_records mm active.snapshot_offset r.scan_start r.index)
  modify (λ e. record e { index = s.index; next_offset = s.end })
  settle_end r s
  (if r.corrupt then clear_active_snapshot else pure tt)
  modify (λ e. record e { by_agent_type = rebuild_by_agent_type (mmap e) e.index [] })

-- Open: a failure behind openEngineFile unmaps and closes, whatever these calls answer.
unfoldable pub open_engine : Act (Unit {0})
open_engine = do open_engine_file; on_error restore (λ c. (λ e. let_go e.mapped e) >> fail c)

abbrev drop_mapping : Result (Unit {0}) × Engine → Result (Unit {0}) × Engine
drop_mapping (r, e) = (r, record e { mapped = 0 })

-- The unmap, the sync, the unlock and the close.
unfoldable pub shutdown_handles : Act (Unit {0})
shutdown_handles e =
    drop_mapping (both (both (both (unmap_file e.mapped) sync) system_call) system_call e)

-- Close: the checkpoint's error comes before that of the handles.
unfoldable pub close : Act (Unit {0})
close = unless_closed λ e.
    both (append_snapshot (build_snapshot e.index)) shutdown_handles (record e { is_closed = true })
