-- ===== src/Storage/Header.antt =====
-- internal/repo/core/header.go: the two file headers of 4096 bytes and the choice between them.
pub mod Select
use mem_hop.Prelude.{
  ℕ, ◌+◌, List, [], ◌∷◌, ◌++◌, Bool, true, false, ◌&&◌, not, leb, ◌==◌, if◌then◌else◌, take,
  replicate, ◌*◌,
}
use mem_hop.Prelude.Bytes.{put_uint, uint}
use mem_hop.Errors.{Result, ok, err, invalid_magic, crc_mismatch, corruption}
use mem_hop.Storage.Crc.{update}
use mem_hop.Storage.Frame.{slice}

abbrev pub header_size : ℕ
header_size = 4096

abbrev pub data_start : ℕ
data_start = 8192

abbrev pub format_version : ℕ
format_version = 0x0012

abbrev pub magic : List ℕ
magic = b'M' ∷ b'E' ∷ b'H' ∷ b'2' ∷ []

abbrev pub tail_magic : List ℕ
tail_magic = b'2' ∷ b'H' ∷ b'E' ∷ b'M' ∷ []

pub record FileHeader : Type 0 where
  pub version : ℕ
  pub reserved : ℕ
  pub commit_id : ℕ
  pub snapshot_offset : ℕ
  pub snapshot_length : ℕ
  pub record_count : ℕ
  pub flags : ℕ
  pub record_end : ℕ
  pub crc32 : ℕ

unfoldable pub new_file_header : FileHeader
new_file_header = record {
  version = format_version;
  reserved = 0;
  commit_id = 0;
  snapshot_offset = 0;
  snapshot_length = 0;
  record_count = 0;
  flags = 0;
  record_end = 0;
  crc32 = 0;
}

-- The zero bytes 44 to 4087.
pub reserved_area : List ℕ
reserved_area = replicate 4044 0

-- buf[:4088]
unfoldable pub header_body : FileHeader → List ℕ
header_body h =
    magic
    ++ (put_uint 2 h.version
        ++ (put_uint 2 h.reserved
            ++ (put_uint 8 h.commit_id
                ++ (put_uint 8 h.snapshot_offset
                    ++ (put_uint 4 h.snapshot_length
                        ++ (put_uint 4 h.record_count
                            ++ (put_uint 4 h.flags
                                ++ (put_uint 8 h.record_end ++ reserved_area))))))))

unfoldable pub calculate_crc : FileHeader → ℕ
calculate_crc h = update 0 (header_body h)

unfoldable pub to_bytes : FileHeader → List ℕ
to_bytes h = header_body h ++ (put_uint 4 (update 0 (header_body h)) ++ tail_magic)

-- Equal bytes at equal indexes.
abbrev pub bytes_eq : List ℕ → List ℕ → Bool
bytes_eq [] [] = true
bytes_eq (x ∷ xs) (y ∷ ys) = x == y && bytes_eq xs ys
bytes_eq _ _ = false

unfoldable pub from_bytes : List ℕ → Result FileHeader
from_bytes buf =
    let stored = uint (slice buf 4088 4092) in
    let version = uint (slice buf 4 6) in
    if not (bytes_eq (slice buf 0 4) magic)
    then err invalid_magic
    else if not (bytes_eq (slice buf 4092 4096) tail_magic)
    then err invalid_magic
    else if not (update 0 (take 4088 buf) == stored)
    then err crc_mismatch
    else if not (version == format_version)
    then err corruption
    else ok (record {
      version = version;
      reserved = uint (slice buf 6 8);
      commit_id = uint (slice buf 8 16);
      snapshot_offset = uint (slice buf 16 24);
      snapshot_length = uint (slice buf 24 28);
      record_count = uint (slice buf 28 32);
      flags = uint (slice buf 32 36);
      record_end = uint (slice buf 36 44);
      crc32 = stored;
    })

unfoldable pub select_valid_header : FileHeader → FileHeader → FileHeader
select_valid_header a b = if leb b.commit_id a.commit_id then a else b

-- The two headers in memory and which of them is active, 0 for A and 1 for B.
pub record Headers : Type 0 where
  pub header_a : FileHeader
  pub header_b : FileHeader
  pub active : ℕ

abbrev pub choose_headers : Result FileHeader → Result FileHeader → Result Headers
choose_headers (ok a) (ok b) =
    let active = select_valid_header a b in
    ok (record {
      header_a = a;
      header_b = b;
      active = if active.commit_id == a.commit_id then 0 else 1;
    })
choose_headers (ok a) (err c) = ok (record { header_a = a; header_b = a; active = 0 })
choose_headers (err c) (ok b) = ok (record { header_a = b; header_b = b; active = 1 })
choose_headers (err c) (err d) = err corruption

unfoldable pub load_headers : List ℕ → Result Headers
load_headers mm =
    choose_headers (from_bytes (take header_size mm))
      (from_bytes (slice mm header_size (2 * header_size)))
