-- ===== src/Storage/Frame/RoundTrip.antt =====
-- Frames that EncodeRecord wrote read back, wherever in the mapping they stand.
use mem_hop.Prelude.{
  ℕ, ◌+◌, ◌-◌, ◌^◌, ◌<◌, ◌≤◌, ◌≡◌, refl, List, ◌++◌, arith, ◌==◌, length, take, drop, length-append,
  length-take, length-drop, take-append, drop-append, ==_self, ==_ne, if◌then◌else◌,
}
use mem_hop.Prelude.Bytes.{put_uint, uint, uint-put_uint}
use mem_hop.Errors.{ok, err, eof, corruption}
use mem_hop.Storage.Crc.{update, update-lt}
use mem_hop.Storage.Frame.{
  Frame, slice, byte_at, frame_head, encode_record, decode_frame, record_data,
}

pub length-encode_record :
    (a t f i : ℕ) (d : List ℕ) → length (encode_record a t f i d) ≡ 26 + length d
unfolding encode_record put_uint
length-encode_record a t f i d = omega arith

-- The fields that a writer can store: a type other than 0, a length in 32 bits, ids in 64.
pub record IsStorable (fr : Frame) : Type 0 where
  pub typed : 0 < fr.record_type
  pub sized : length fr.payload < 256 ^ 4
  pub agent : fr.agent_id < 256 ^ 8
  pub id : fr.id_hash < 256 ^ 8

abbrev pub encode : Frame → List ℕ
encode fr = encode_record fr.agent_id fr.record_type fr.flags fr.id_hash fr.payload

-- What RecordData does with the fields it cuts out of the bytes `rest`.
decode_frame-eq-ok :
    (fr : Frame) (rest head : List ℕ) (n : ℕ)
    → 0 < fr.record_type
    → byte_at rest 0 ≡ fr.record_type
    → byte_at rest 1 ≡ fr.flags
    → uint (slice rest 2 6) ≡ n
    → uint (slice rest 6 14) ≡ fr.agent_id
    → uint (slice rest 14 22) ≡ fr.id_hash
    → take 22 rest ≡ head
    → uint (slice rest 22 26) ≡ update (update 0 head) fr.payload
    → slice rest 26 (26 + n) ≡ fr.payload
    → n ≤ length rest - 26
    → decode_frame rest ≡ ok fr
unfolding decode_frame
decode_frame-eq-ok fr rest head n typed t f l a i h c d fits =
    rw (t, f, l, a, i, h, c, d, ==_ne fr.record_type 0 (omega arith), ==_self) (ground arith)

pub decode_frame-encode :
    (fr : Frame) (post : List ℕ) → IsStorable fr → decode_frame (encode fr ++ post) ≡ ok fr
unfolding encode_record frame_head put_uint
decode_frame-encode fr post s =
    let head = frame_head fr.agent_id fr.record_type fr.flags fr.id_hash (length fr.payload) in
    let crc = update (update 0 head) fr.payload in
    decode_frame-eq-ok fr (encode fr ++ post) head (length fr.payload) s.typed refl refl
      (uint-put_uint 4 (length fr.payload) s.sized) (uint-put_uint 8 fr.agent_id s.agent)
      (uint-put_uint 8 fr.id_hash s.id) refl
      (uint-put_uint 4 crc (update-lt (update 0 head) fr.payload))
      (take-append (26 + length fr.payload - 26) fr.payload post (omega arith))
      (omega (arith, length-append fr.payload post))

-- A frame reads back from any place in the mapping, whatever stands before and behind it.
pub record_data-encode :
    (fr : Frame) (pre post : List ℕ)
    → IsStorable fr
    → record_data (pre ++ (encode fr ++ post)) (length pre) ≡ ok fr
unfolding record_data
record_data-encode fr pre post s =
    let size : length (encode fr) ≡ 26 + length fr.payload =
      length-encode_record fr.agent_id fr.record_type fr.flags fr.id_hash fr.payload in
    let whole = length-append pre (encode fr ++ post) in
    let part = length-append (encode fr) post in
    ground (
      arith,
      size,
      whole,
      part,
      decode_frame-encode fr post s,
      drop-append (length pre) pre (encode fr ++ post) refl,
    )

pub decode_frame-fits :
    (rest : List ℕ) (fr : Frame) → decode_frame rest ≡ ok fr → length fr.payload ≤ length rest - 26
unfolding decode_frame
decode_frame-fits rest fr h =
    let n : ℕ = uint (slice rest 2 6) in ground (arith, length-take (26 + n - 26) (drop 26 rest))

-- What reads back fits the mapping: no frame reaches past its end.
pub record_data-fits :
    (mmap : List ℕ) (offset : ℕ) (fr : Frame)
    → record_data mmap offset ≡ ok fr
    → offset + 26 + length fr.payload ≤ length mmap
unfolding record_data
record_data-fits mmap offset fr h =
    ground (arith, length-drop offset mmap, decode_frame-fits (drop offset mmap) fr)

-- At the end of the mapping RecordData answers io.EOF, past it corruption.
pub record_data_end :
    (mmap : List ℕ) (offset : ℕ)
    → length mmap < offset + 26
    → record_data mmap offset ≡ (if offset == length mmap then err eof else err corruption)
unfolding record_data
record_data_end mmap offset h = ground arith
