-- ===== src/Storage/Store/Restart.antt =====
-- Open, when no system call fails, on a file whose active header names a snapshot at its end; and Close,
-- which leaves such a file.
use mem_hop.Prelude.{
  ℕ, ◌+◌, ◌<◌, ◌≤◌, ◌≡◌, refl, sym, ap, ◌∙◌, List, [], ◌++◌, true, false, some, ◌==◌, ◌||◌, ltb,
  length, arith, length-append, append_assoc, append-nil, ==_self,
}
use mem_hop.Errors.{ok}
use mem_hop.Storage.Domains.{Index}
use mem_hop.Storage.Frame.{Frame, slice}
use mem_hop.Storage.Header.{FileHeader, Headers, to_bytes, header_body, load_headers}
use mem_hop.Storage.Header.Select.{stored, load_headers-to_bytes}
use mem_hop.Storage.Snapshot.{build_snapshot, parse_snapshot}
use mem_hop.Storage.Snapshot.Sections.{slice-append}
use mem_hop.Storage.Snapshot.RoundTrip.{length-blob}
use mem_hop.Storage.Snapshot.Size.{parse_snapshot-IsTidy}
use mem_hop.Storage.Engine.{Engine, active_header_ref, mmap}
use mem_hop.Storage.Recovery.{scan_records, recover_record_area_end}
use mem_hop.Storage.Recovery.Log.{log_bytes, scan_records-log}
use mem_hop.Storage.Lifecycle.{
  blank, load_snapshot, Restored, restore_from_snapshot, settle_end, restore, open_engine,
}
use mem_hop.Storage.View.{nothing, view, Shows-keep}
use mem_hop.Storage.Store.Bare.{file_of, active_of}
use mem_hop.Storage.Store.Flip.{IsPaired}
use mem_hop.Storage.Store.Reopen.{
  mapped_engine, open_engine_file_calm, typed, reread, stored-IsWritable,
}
use mem_hop.Storage.Store.Sealed.{
  IsSealed, length-IsKept, length-file_of_log, mmap_whole, active_ref,
}

reread-IsPaired : (hs : Headers) (c : ℕ) → IsPaired hs c → IsPaired (reread hs) c
reread-IsPaired hs c p = record {
  header_a = stored-IsWritable hs.header_a p.header_a;
  header_b = stored-IsWritable hs.header_b p.header_b;
  chosen = refl;
  committed = p.committed;
}

active_of-reread :
    (hs : Headers) (c : ℕ) → IsPaired hs c → active_of (reread hs) ≡ stored (active_of hs)
active_of-reread hs c p = ground (arith, p.chosen)

file_of-reread : (hs : Headers) (log : List Frame) → file_of (reread hs) log ≡ file_of hs log
unfolding to_bytes header_body
file_of-reread hs log = refl

load_headers-file_of :
    (hs : Headers) (log : List Frame) (tail : List ℕ) (c : ℕ)
    → IsPaired hs c
    → load_headers (file_of hs log ++ tail) ≡ ok (reread hs)
load_headers-file_of hs log tail c p =
    ap load_headers (simp append_assoc)
    ∙ load_headers-to_bytes hs.header_a hs.header_b (log_bytes log ++ tail) p.header_a p.header_b

-- The scan from the end of the file finds nothing.
scan_records_end :
    (mm : List ℕ) (snap start : ℕ) (index : Index)
    → start ≡ length mm
    → scan_records mm snap start index
      ≡ some (ok (record { index = index; end = start; truncate = false }))
scan_records_end mm snap start index e = rw e (
    ap (λ l. scan_records l snap (length mm) index) (sym (append-nil mm))
    ∙ scan_records-log [] mm [] snap index tt (omega arith)
    ∙ ap (λ n. some (ok (record { index = index; end = n; truncate = false }))) (omega arith))

module _ (h : FileHeader) (mm : List ℕ) (index : Index)
    (size : h.snapshot_offset + h.snapshot_length ≡ length mm) (area : 8192 ≤ h.record_end)
    (behind : h.record_end ≤ h.snapshot_offset) (some_bytes : 0 < h.snapshot_length)
    (parsed : parse_snapshot (slice mm h.snapshot_offset (h.snapshot_offset + h.snapshot_length))
      ≡ ok index) where
  abbrev found : Restored
  found = record {
    index = index;
    scan_start = h.snapshot_offset + h.snapshot_length;
    loaded = true;
    corrupt = false;
  }

  load_snapshot_lem : load_snapshot h mm ≡ ok index
  unfolding load_snapshot
  load_snapshot_lem =
      let bounds : (ltb h.snapshot_offset 8192
            || ltb (length mm) (h.snapshot_offset + h.snapshot_length))
          ≡ false =
        ground (arith, size, area, behind) in
      rw bounds parsed

  restore_from_snapshot_lem : restore_from_snapshot h mm ≡ found
  unfolding restore_from_snapshot
  restore_from_snapshot_lem =
      let named : (h.snapshot_offset == 0 || h.snapshot_length == 0) ≡ false =
        ground (arith, area, behind, some_bytes) in
      rw (named, load_snapshot_lem) refl

  recover_record_area_end_lem : recover_record_area_end h mm ≡ h.record_end
  unfolding recover_record_area_end
  recover_record_area_end_lem = ground (arith, size, area, behind)

opened_by :
    (file : List ℕ) (hs : Headers) (e' : Engine)
    → 8192 ≤ length file
    → load_headers file ≡ ok hs
    → restore (mapped_engine file hs) ≡ (ok tt, e')
    → open_engine (blank file []) ≡ (ok tt, e')
unfolding open_engine
opened_by file hs e' room loaded restored =
    rw (open_engine_file_calm file hs room loaded, restored) refl

-- The restore where a snapshot was loaded and nothing stands behind it.
restore_loaded :
    (e : Engine) (index : Index) (at end : ℕ)
    → restore_from_snapshot (active_header_ref e) (mmap e)
      ≡ record { index = index; scan_start = at; loaded = true; corrupt = false }
    → scan_records (mmap e) (active_header_ref e).snapshot_offset at index
      ≡ some (ok (record { index = index; end = at; truncate = false }))
    → recover_record_area_end (active_header_ref e) (mmap e) ≡ end
    → restore e ≡ (ok tt, typed (record e { index = index; next_offset = end }))
unfolding restore settle_end active_header_ref
restore_loaded e index at end start scan recovered = rw (start, scan, ==_self at, recovered) refl

-- Opening the file of an engine that a snapshot stands behind.
module _ (s : Engine) (log : List Frame) (c : ℕ) (sealed : IsSealed s log c) where
  abbrev hs : Headers
  hs = reread s.headers

  abbrev h : FileHeader
  h = active_of hs

  abbrev whole_map : Engine
  whole_map = mapped_engine s.file hs

  abbrev image_bytes : List ℕ
  image_bytes = build_snapshot sealed.image

  same_header : h ≡ stored (active_of s.headers)
  same_header = active_of-reread s.headers c sealed.kept.paired

  offset : h.snapshot_offset ≡ 8192 + length (log_bytes log) + length sealed.older
  offset = ap (λ (x : FileHeader). x.snapshot_offset) same_header ∙ sealed.offset

  size : h.snapshot_length ≡ length image_bytes
  size = ap (λ (x : FileHeader). x.snapshot_length) same_header ∙ sealed.size

  end : h.record_end ≡ 8192 + length (log_bytes log)
  end = ap (λ (x : FileHeader). x.record_end) same_header ∙ sealed.end

  length-file :
      length s.file ≡ 8192 + length (log_bytes log) + (length sealed.older + length image_bytes)
  length-file = omega (
    arith,
    length-IsKept s log (sealed.older ++ image_bytes) c sealed.kept,
    length-append sealed.older image_bytes,
  )

  blob-slice : slice s.file h.snapshot_offset (h.snapshot_offset + h.snapshot_length) ≡ image_bytes
  blob-slice =
      slice-append s.file (file_of s.headers log ++ sealed.older) image_bytes [] h.snapshot_offset
        h.snapshot_length (sealed.kept.file ∙ simp (append_assoc, append-nil))
        (omega (
          arith,
          offset,
          length-append (file_of s.headers log) sealed.older,
          length-file_of_log s.headers log,
        ))
        (sym size)

  pub open_engine-IsSealed :
      (e' : Engine) × (open_engine (blank s.file []) ≡ (ok tt, e'))
      × IsSealed e' log c
      × (e'.is_closed ≡ false)
      × (e'.file ≡ s.file)
  open_engine-IsSealed =
      let k = sealed.kept in
      let (back, parsed, law, tidy, few) =
        parse_snapshot-IsTidy sealed.image sealed.serial sealed.image_tidy in
      let e' = typed (record whole_map { index = back; next_offset = h.record_end }) in
      let at_end : h.snapshot_offset + h.snapshot_length ≡ length s.file =
        omega (arith, offset, size, length-file) in
      let behind : h.record_end ≤ h.snapshot_offset = omega (arith, offset, end) in
      let area : 8192 ≤ h.record_end = omega (arith, end) in
      let some_bytes : 0 < h.snapshot_length =
        omega (arith, size, length-blob sealed.image sealed.serial) in
      let parsed' : parse_snapshot
            (slice s.file h.snapshot_offset (h.snapshot_offset + h.snapshot_length))
          ≡ ok back =
        ap parse_snapshot blob-slice ∙ parsed in
      let ref = active_ref whole_map in
      let mm = mmap_whole whole_map refl in
      let restored =
        restore_loaded whole_map back (h.snapshot_offset + h.snapshot_length) h.record_end
          (rw (ref, mm)
            (restore_from_snapshot_lem h s.file back at_end area behind some_bytes parsed'))
          (rw (ref, mm)
            (scan_records_end s.file h.snapshot_offset (h.snapshot_offset + h.snapshot_length) back
              at_end))
          (rw (ref, mm)
            (recover_record_area_end_lem h s.file back at_end area behind some_bytes parsed')) in
      (
        e',
        opened_by s.file hs e' (omega (arith, length-file))
            (ap load_headers k.file
              ∙ load_headers-file_of s.headers log (sealed.older ++ image_bytes) c k.paired)
            restored,
        record {
          older = sealed.older;
          image = sealed.image;
          kept = record {
            calm = refl;
            file =
                k.file
                ∙ ap (λ l. l ++ (sealed.older ++ image_bytes)) (sym (file_of-reread s.headers log));
            whole = refl;
            next = end;
            paired = reread-IsPaired s.headers c k.paired;
            storable = k.storable;
            tidy = tidy;
            count = omega (arith, few, sealed.image_count);
            shows =
                Shows-keep s.file s.file s.next_offset h.record_end s.index back (view log nothing)
                  (λ off fr low high clean. clean) (omega (arith, k.next, end))
                  (λ a i. law a i ∙ sealed.same a i) k.shows;
          };
          serial = sealed.serial;
          image_tidy = sealed.image_tidy;
          image_count = sealed.image_count;
          same = λ a i. sym (law a i);
          offset = offset;
          size = size;
          end = end;
          small = sealed.small;
        },
        refl,
        refl,
      )
