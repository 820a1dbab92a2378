-- ===== src/Storage/Header/Select.antt =====
-- A header that ToBytes wrote reads back, and a torn slot never costs the other one.
use mem_hop.Prelude.{
  ℕ, ◌^◌, ◌<◌, ◌≡◌, refl, sym, ap, ◌∙◌, List, ◌++◌, arith, length, take, drop, length-append,
  length-replicate, take-append, drop-append, ==_self, leb, if◌then◌else◌, drop-drop,
}
use mem_hop.Prelude.Bytes.{put_uint, uint, uint-put_uint}
use mem_hop.Errors.{Code, ok, err}
use mem_hop.Storage.Crc.{update, update-lt}
use mem_hop.Storage.Frame.{slice}
use mem_hop.Storage.Header.{
  FileHeader, Headers, format_version, magic, tail_magic, reserved_area, header_body, calculate_crc,
  to_bytes, from_bytes, select_valid_header, choose_headers, load_headers,
}

length-reserved_area : length reserved_area ≡ 4044
unfolding reserved_area
length-reserved_area = length-replicate {A = ℕ} 4044 0

length-header_body : (h : FileHeader) → length (header_body h) ≡ 4088
unfolding header_body put_uint
length-header_body h = omega (arith, length-reserved_area)

pub length-to_bytes : (h : FileHeader) → length (to_bytes h) ≡ 4096
unfolding to_bytes put_uint
length-to_bytes h =
    length-append (header_body h) (put_uint 4 (update 0 (header_body h)) ++ tail_magic)
    ∙ omega (arith, length-header_body h)

-- Every field within its width, at the one version that is read.
pub record IsWritable (h : FileHeader) : Type 0 where
  pub current : h.version ≡ format_version
  pub reserved : h.reserved < 256 ^ 2
  pub commit : h.commit_id < 256 ^ 8
  pub offset : h.snapshot_offset < 256 ^ 8
  pub size : h.snapshot_length < 256 ^ 4
  pub count : h.record_count < 256 ^ 4
  pub flag_bits : h.flags < 256 ^ 4
  pub end : h.record_end < 256 ^ 8

from_bytes-eq-ok :
    (h : FileHeader) (buf : List ℕ) (c : ℕ)
    → h.version ≡ format_version
    → slice buf 0 4 ≡ magic
    → slice buf 4092 4096 ≡ tail_magic
    → update 0 (take 4088 buf) ≡ c
    → uint (slice buf 4088 4092) ≡ c
    → uint (slice buf 4 6) ≡ h.version
    → uint (slice buf 6 8) ≡ h.reserved
    → uint (slice buf 8 16) ≡ h.commit_id
    → uint (slice buf 16 24) ≡ h.snapshot_offset
    → uint (slice buf 24 28) ≡ h.snapshot_length
    → uint (slice buf 28 32) ≡ h.record_count
    → uint (slice buf 32 36) ≡ h.flags
    → uint (slice buf 36 44) ≡ h.record_end
    → from_bytes buf ≡ ok (record h { crc32 = c })
unfolding from_bytes
from_bytes-eq-ok h buf c cur m t s c' v r i o l n f e =
    rw (m, t, s, c', v, r, i, o, l, n, f, e, cur, ==_self)

pub from_bytes-to_bytes :
    (h : FileHeader)
    → IsWritable h
    → from_bytes (to_bytes h) ≡ ok (record h { crc32 = calculate_crc h })
unfolding to_bytes calculate_crc header_body put_uint
from_bytes-to_bytes h w =
    let body = header_body h in
    let crc = update 0 body in
    let low = put_uint 4 crc ++ tail_magic in
    let cut = drop-append 4088 body low (length-header_body h) in
    from_bytes-eq-ok h (to_bytes h) crc w.current refl
      (ap (take 4) (sym (drop-drop 4 4088 (body ++ low)) ∙ ap (drop 4) cut))
      (ap (update 0) (take-append 4088 body low (length-header_body h)))
      (ap (λ l. uint (take 4 l)) cut ∙ uint-put_uint 4 crc (update-lt 0 body))
      (uint-put_uint 2 h.version (rw w.current (omega arith)))
      (uint-put_uint 2 h.reserved w.reserved) (uint-put_uint 8 h.commit_id w.commit)
      (uint-put_uint 8 h.snapshot_offset w.offset) (uint-put_uint 4 h.snapshot_length w.size)
      (uint-put_uint 4 h.record_count w.count) (uint-put_uint 4 h.flags w.flag_bits)
      (uint-put_uint 8 h.record_end w.end)

-- What a reader gets back of a header: its checksum is filled in.
abbrev pub stored : FileHeader → FileHeader
stored h = record h { crc32 = calculate_crc h }

abbrev pub opened : FileHeader → FileHeader → ℕ → Headers
opened a b n = record { header_a = a; header_b = b; active = n }

-- The two slots as LoadHeaders cuts them.
load_headers-slots :
    (a b rest : List ℕ)
    → length a ≡ 4096
    → length b ≡ 4096
    → load_headers (a ++ (b ++ rest)) ≡ choose_headers (from_bytes a) (from_bytes b)
unfolding load_headers
load_headers-slots a b rest la lb = rw (
  take-append 4096 a (b ++ rest) la,
  drop-append 4096 a (b ++ rest) la,
  take-append 4096 b rest lb,
)

-- With two whole headers the one with the higher commit id is active, A on a tie.
pub load_headers-to_bytes :
    (a b : FileHeader) (rest : List ℕ)
    → IsWritable a
    → IsWritable b
    → load_headers (to_bytes a ++ (to_bytes b ++ rest))
      ≡ ok (opened (stored a) (stored b) (if leb b.commit_id a.commit_id then 0 else 1))
unfolding select_valid_header
load_headers-to_bytes a b rest wa wb =
    load_headers-slots (to_bytes a) (to_bytes b) rest (length-to_bytes a) (length-to_bytes b)
    ∙ rw (from_bytes-to_bytes a wa, from_bytes-to_bytes b wb) (ground arith)

-- A torn slot: whatever 4096 bytes that read as no header stand in one slot, the header in the
-- other one is found, is active, and fills both places.
pub load_headers_torn :
    (h : FileHeader) (junk rest : List ℕ) (c : Code)
    → IsWritable h
    → length junk ≡ 4096
    → from_bytes junk ≡ err c
    → (load_headers (to_bytes h ++ (junk ++ rest)) ≡ ok (opened (stored h) (stored h) 0))
      × (load_headers (junk ++ (to_bytes h ++ rest)) ≡ ok (opened (stored h) (stored h) 1))
load_headers_torn h junk rest c w lj bad = (
  load_headers-slots (to_bytes h) junk rest (length-to_bytes h) lj
      ∙ rw (from_bytes-to_bytes h w, bad),
  load_headers-slots junk (to_bytes h) rest lj (length-to_bytes h)
      ∙ rw (from_bytes-to_bytes h w, bad),
)
