-- ===== src/Storage/Frame.antt =====
-- internal/repo/core/frame.go: one record frame, type(1) flags(1) length(4) agent_id(8) id_hash(8)
-- crc32(4) and the payload.
pub mod RoundTrip
pub mod Local
use mem_hop.Prelude.{
  ℕ, zero, suc, ◌+◌, ◌-◌, List, [], ◌∷◌, ◌++◌, ◌||◌, ◌&&◌, ltb, ◌==◌, if◌then◌else◌, length, take,
  drop,
}
use mem_hop.Prelude.Bytes.{put_uint, uint}
use mem_hop.Errors.{Result, ok, err, eof, corruption, crc_mismatch}
use mem_hop.Storage.Crc.{update}

abbrev pub record_header_size : ℕ
record_header_size = 26

abbrev pub flag_deleted : ℕ
flag_deleted = 1

-- What RecordData returns beside its error.
pub record Frame : Type 0 where
  pub record_type : ℕ
  pub flags : ℕ
  pub payload : List ℕ
  pub agent_id : ℕ
  pub id_hash : ℕ

-- bytes[from:to]
abbrev pub slice : List ℕ → ℕ → ℕ → List ℕ
slice bytes from to = take (to - from) (drop from bytes)

-- bytes[at]; the code reads no index out of range.
abbrev pub byte_at : List ℕ → ℕ → ℕ
byte_at [] at = 0
byte_at (b ∷ bs) zero = b
byte_at (b ∷ bs) (suc at) = byte_at bs at

-- The 22 bytes before the checksum.
unfoldable pub frame_head : ℕ → ℕ → ℕ → ℕ → ℕ → List ℕ
frame_head agent_id record_type flags id_hash size =
    record_type ∷ flags ∷ (put_uint 4 size ++ (put_uint 8 agent_id ++ put_uint 8 id_hash))

unfoldable pub encode_record : ℕ → ℕ → ℕ → ℕ → List ℕ → List ℕ
unfolding frame_head
encode_record agent_id record_type flags id_hash payload =
    let head = frame_head agent_id record_type flags id_hash (length payload) in
    head ++ (put_uint 4 (update (update 0 head) payload) ++ payload)

-- The part of RecordData behind the two bounds tests: `rest` is the mapping from `offset` on.
unfoldable pub decode_frame : List ℕ → Result Frame
decode_frame rest =
    let record_type = byte_at rest 0 in
    let flags = byte_at rest 1 in
    let data_len = uint (slice rest 2 6) in
    let agent_id = uint (slice rest 6 14) in
    let id_hash = uint (slice rest 14 22) in
    let payload = slice rest 26 (26 + data_len) in
    if record_type == 0 && flags == 0 && data_len == 0 && agent_id == 0 && id_hash == 0
    then err eof
    else if ltb (length rest - 26) data_len
    then err corruption
    else if update (update 0 (take 22 rest)) payload == uint (slice rest 22 26)
    then ok (record {
      record_type = record_type;
      flags = flags;
      payload = payload;
      agent_id = agent_id;
      id_hash = id_hash;
    })
    else err crc_mismatch

unfoldable pub record_data : List ℕ → ℕ → Result Frame
record_data mmap offset =
    if offset == length mmap
    then err eof
    else if ltb (length mmap) offset || ltb (length mmap - offset) record_header_size
    then err corruption
    else decode_frame (drop offset mmap)
