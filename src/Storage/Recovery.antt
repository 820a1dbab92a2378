-- ===== src/Storage/Recovery.antt =====
-- engine_recovery.go: the scan of the record area at Open.
pub mod Log
pub mod Sound
use Prim.Native.Nat.{bit_and}
use mem_hop.Prelude.{
  ℕ, zero, suc, ◌+◌, ◌-◌, List, [], ◌∷◌, Bool, true, false, Option, none, some, ◌&&◌, not, leb, ltb,
  ◌==◌, if◌then◌else◌, length, drop,
}
use mem_hop.Prelude.Map.{inner, Map, get, put, delete}
use mem_hop.Errors.{Code, Result, ok, err, eof, crc_mismatch, corruption}
use mem_hop.Storage.Frame.{Frame, record_data, flag_deleted}
use mem_hop.Storage.Snapshot.{is_snapshot_blob_at, snapshot_blob_length}
use mem_hop.Storage.Engine.{TypeIndex}
use mem_hop.Storage.Domains.{Index, drop_from_index}
use mem_hop.Storage.Header.{data_start, FileHeader}
use mem_hop.Storage.Write.{record_type_at, add_type}

-- What one clean frame at `offset` does to the index.
unfoldable pub apply_frame : Frame → ℕ → Index → Index
apply_frame fr offset index =
    if bit_and fr.flags flag_deleted == 0
    then put index fr.agent_id (put (inner (get index fr.agent_id)) fr.id_hash offset)
    else drop_from_index index fr.agent_id fr.id_hash

unfoldable pub cursor_in_snapshot_area : ℕ → ℕ → Bool
cursor_in_snapshot_area snapshot_offset offset =
    not (snapshot_offset == 0) && leb snapshot_offset offset

-- The loop of resyncScan with the offsets that are left.
unfoldable pub resync_loop : List ℕ → ℕ → ℕ → Option ℕ
resync_loop mm zero off = none
resync_loop mm (suc n) off = elim (record_data mm off) [
  | ok fr ↦ some off
  | err c ↦ resync_loop mm n (off + 1)
]

unfoldable pub resync_scan : List ℕ → ℕ → Option ℕ
resync_scan mm from = resync_loop mm (length mm - from) from

-- The index, the end of the record area, and whether the rest is to be cut off.
pub record Scan : Type 0 where
  pub index : Index
  pub end : ℕ
  pub truncate : Bool

-- A frame that is torn, or whose checksum disagrees; RecordData has no other failure but the end.
abbrev is_damage : Code → Bool
is_damage crc_mismatch = true
is_damage corruption = true
is_damage _ = false

abbrev pub stop_at : Index → ℕ → Bool → Option (Result Scan)
stop_at index offset truncate =
    some (ok (record { index = index; end = offset; truncate = truncate }))

module _ (mm : List ℕ) (snapshot_offset : ℕ) where
  -- The scan loop on fuel; `none` is no answer of the code: the fuel ran out.
  unfoldable pub scan_loop : ℕ → ℕ → Index → Option (Result Scan)
  scan_loop zero offset index = none
  scan_loop (suc fuel) offset index = elim (record_data mm offset) [
    | ok fr ↦ scan_loop fuel (offset + 26 + length fr.payload) (apply_frame fr offset index)
    | err eof ↦ stop_at index offset false
    | err c ↦
        let resynced : Option (Result Scan) = elim (resync_scan mm (offset + 1)) [
          | none ↦ stop_at index offset true
          | some next ↦ scan_loop fuel next index
        ] in
        if not (is_damage c)
        then some (err c)
        else if cursor_in_snapshot_area snapshot_offset offset
        then stop_at index offset true
        else resynced
  ]

-- Each round moves the cursor, and never past the end of the mapping.
unfoldable pub scan_records : List ℕ → ℕ → ℕ → Index → Option (Result Scan)
scan_records mm snapshot_offset start index =
    scan_loop mm snapshot_offset (length mm - start + 1) start index

-- walkRecordArea: frames and snapshot blobs, to the end of the mapping; `none` for ok = false.
unfoldable pub walk_loop : List ℕ → ℕ → ℕ → ℕ → Option ℕ
walk_loop mm zero offset record_end = if offset == length mm then some record_end else none
walk_loop mm (suc fuel) offset record_end =
    let frame : Option ℕ = elim (record_data mm offset) [
      | err c ↦ none
      | ok fr ↦ let next = offset + 26 + length fr.payload in walk_loop mm fuel next next
    ] in
    let blob : Option ℕ = elim (snapshot_blob_length (drop offset mm)) [
      | err c ↦ none
      | ok n ↦ walk_loop mm fuel (offset + n) record_end
    ] in
    if leb (length mm) offset
    then (if offset == length mm then some record_end else none)
    else if is_snapshot_blob_at (drop offset mm)
    then blob
    else frame

unfoldable pub walk_record_area : List ℕ → Option ℕ
walk_record_area mm = walk_loop mm (length mm) data_start 0

unfoldable pub recover_record_area_end : FileHeader → List ℕ → ℕ
recover_record_area_end h mm =
    if leb data_start h.record_end
      && leb h.record_end h.snapshot_offset
      && leb h.record_end (length mm)
    then h.record_end
    else elim (walk_record_area mm) [ some record_end ↦ record_end | none ↦ h.snapshot_offset ]

-- rebuildByAgentType, from the type bytes of the frames that the index names.
unfoldable pub rebuild_domain : List ℕ → ℕ → Map ℕ → TypeIndex → TypeIndex
rebuild_domain mm agent_id [] types = types
rebuild_domain mm agent_id ((id, off) ∷ m) types =
    rebuild_domain mm agent_id m
      (elim (record_type_at mm off) [ none ↦ types | some t ↦ add_type types agent_id t id ])

unfoldable pub rebuild_by_agent_type : List ℕ → Index → TypeIndex → TypeIndex
rebuild_by_agent_type mm [] types = types
rebuild_by_agent_type mm ((a, m) ∷ index) types =
    rebuild_by_agent_type mm index (rebuild_domain mm a m types)
