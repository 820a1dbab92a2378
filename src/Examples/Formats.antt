-- ===== src/Examples/Formats.antt =====
-- The bytes of a file: one frame, two headers, a snapshot, and scans over them.
use mem_hop.Prelude.{
  map, ℕ, refl, ◌+◌, ◌≡◌, List, [], ◌∷◌, ◌++◌, some, true, length, arith, replicate,
  length-replicate,
}
use mem_hop.Common.Hash.{parse_all, format_hash}
use mem_hop.Common.Hash.Text.{parse_all-format_hash}
use mem_hop.Errors.{ok, invalid_magic}
use mem_hop.Prelude.Map.{get}
use mem_hop.Storage.Domains.{Index, offset_of}
use mem_hop.Storage.Frame.RoundTrip.{encode}
use mem_hop.Storage.Header.{FileHeader, new_file_header, to_bytes, from_bytes, load_headers}
use mem_hop.Storage.Header.Select.{
  IsWritable, stored, opened, load_headers-to_bytes, load_headers_torn,
}
use mem_hop.Storage.Snapshot.{build_snapshot, parse_snapshot}
use mem_hop.Storage.Snapshot.RoundTrip.{IsSerializable, parse_snapshot-build_snapshot}
use mem_hop.Storage.Recovery.{Scan, scan_records}
use mem_hop.Storage.Recovery.Log.{log_bytes, replay, scan_records-log}
use mem_hop.Storage.Recovery.Sound.{IsScan, scan_records-Ends}
use mem_hop.Examples.Engine.{record_frame, record_frame-IsStorable}

abbrev before : List ℕ
before = 7 ∷ 7 ∷ []

abbrev behind : List ℕ
behind = 8 ∷ []

abbrev mapping : List ℕ
mapping = before ++ (encode record_frame ++ behind)

abbrev header : FileHeader
header = record new_file_header { commit_id = 3; record_end = 8192 }

header-IsWritable : IsWritable header
unfolding new_file_header
header-IsWritable = record {
  current = refl;
  reserved = omega arith;
  commit = omega arith;
  offset = omega arith;
  size = omega arith;
  count = omega arith;
  flag_bits = omega arith;
  end = omega arith;
}

fresh-IsWritable : IsWritable new_file_header
unfolding new_file_header
fresh-IsWritable = record {
  current = refl;
  reserved = omega arith;
  commit = omega arith;
  offset = omega arith;
  size = omega arith;
  count = omega arith;
  flag_bits = omega arith;
  end = omega arith;
}

load_headers-to_bytes_example :
    load_headers (to_bytes new_file_header ++ (to_bytes header ++ []))
    ≡ ok (opened (stored new_file_header) (stored header) 1)
unfolding new_file_header
load_headers-to_bytes_example =
    load_headers-to_bytes new_file_header header [] fresh-IsWritable header-IsWritable

abbrev junk : List ℕ
junk = replicate 4096 0

load_headers_torn_example :
    (load_headers (to_bytes header ++ (junk ++ [])) ≡ ok (opened (stored header) (stored header) 0))
    × (load_headers (junk ++ (to_bytes header ++ []))
        ≡ ok (opened (stored header) (stored header) 1))
unfolding from_bytes
load_headers_torn_example =
    load_headers_torn header junk [] invalid_magic header-IsWritable
      (length-replicate {A = ℕ} 4096 0) refl

abbrev index : Index
index = (1, ((10, 8192) ∷ (11, 8220) ∷ [])) ∷ []

index-IsSerializable : IsSerializable index
unfolding get
index-IsSerializable = record {
  domains = (refl, tt);
  entries = ((refl, (refl, tt)), tt);
  fits = (
    (omega arith, omega arith, ((omega arith, omega arith), ((omega arith, omega arith), tt))),
    tt,
  );
  count = omega arith;
}

parse_snapshot-build_snapshot_example :
    (back : Index) × (parse_snapshot (build_snapshot index) ≡ ok back)
    × ((a id : ℕ) → offset_of back a id ≡ offset_of index a id)
parse_snapshot-build_snapshot_example = parse_snapshot-build_snapshot index index-IsSerializable

scan_records-log_example :
    scan_records (before ++ (log_bytes (record_frame ∷ []) ++ behind)) 0 2 []
    ≡ some (
        ok (record {
          index = replay (record_frame ∷ []) 2 [];
          end = 2 + length (log_bytes (record_frame ∷ []));
          truncate = true;
        }))
scan_records-log_example =
    scan_records-log (record_frame ∷ []) before behind 0 [] (record_frame-IsStorable, tt)
      (omega arith)

-- An index as a snapshot gives it, one entry of which names no frame.
abbrev rotted : Index
rotted = (1, (4, 3) ∷ []) ∷ []

scan_records-Ends_example :
    (r : Scan) × (scan_records mapping 0 1 rotted ≡ some (ok r)) × IsScan mapping rotted 1 r
scan_records-Ends_example = scan_records-Ends mapping 0 1 rotted (omega arith)

parse_all-format_hash_example :
    parse_all (map format_hash (4096 ∷ 18446744073709551615 ∷ []))
    ≡ ok (4096 ∷ 18446744073709551615 ∷ [])
parse_all-format_hash_example =
    parse_all-format_hash (4096 ∷ 18446744073709551615 ∷ []) (omega arith, (omega arith, tt))
