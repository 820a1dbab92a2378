-- ===== src/Storage/Store/Reopen.antt =====
-- Open, when no system call fails, on the file of a log with no snapshot: also after a crash that left
-- fewer bytes than a frame's head behind the last whole frame.
use mem_hop.Prelude.{
  ℕ, ◌+◌, ◌-◌, ◌<◌, ◌≤◌, ◌≡◌, refl, sym, ap, ◌∙◌, subst, List, [], ◌∷◌, ◌++◌, true, false, not,
  some, ◌==◌, leb, ltb, if◌then◌else◌, length, take-all, take-append, length-append, append_assoc,
  arith, append-nil, Bool-cases, inl, inr,
}
use mem_hop.Errors.{ok}
use mem_hop.Storage.Domains.Tidy.{IsTidy}
use mem_hop.Storage.Engine.{total_records}
use mem_hop.Storage.Frame.{Frame}
use mem_hop.Storage.Header.{FileHeader, Headers, data_start, to_bytes, header_body, load_headers}
use mem_hop.Storage.Header.Select.{
  IsWritable, length-to_bytes, load_headers-to_bytes, opened, stored,
}
use mem_hop.Storage.Engine.{Engine, active_header_ref, mmap}
use mem_hop.Storage.Disk.Calm.{cut, system_call_calm, stat_calm, map_file_calm, truncate_tail_calm}
use mem_hop.Storage.Recovery.{Scan, scan_records, rebuild_by_agent_type}
use mem_hop.Storage.Recovery.Log.{log_bytes, replay, scan_records-log}
use mem_hop.Storage.Lifecycle.{
  blank, open_engine_file, Restored, restore_from_snapshot, settle_end, restore, open_engine,
}
use mem_hop.Storage.View.{nothing, view, Shows, Shows-empty}
use mem_hop.Storage.View.Replay.{replay-Shows, replay-IsTidy}
use mem_hop.Storage.Store.Bare.{file_of, IsSettled, IsCommitted, IsBare}

-- The engine when the headers are read.
abbrev pub mapped_engine : List ℕ → Headers → Engine
mapped_engine file hs = record (blank file []) { mapped = length file; headers = hs }

pub open_engine_file_calm :
    (file : List ℕ) (hs : Headers)
    → 8192 ≤ length file
    → load_headers file ≡ ok hs
    → open_engine_file (blank file []) ≡ (ok tt, mapped_engine file hs)
unfolding open_engine_file
open_engine_file_calm file hs room loaded =
    let e = blank file [] in
    let long : ltb (length file) 8192 ≡ false = ground arith in
    rw
      (
        system_call_calm e refl,
        system_call_calm e refl,
        stat_calm e refl,
        long,
        map_file_calm e refl (length file),
        take-all (length file) file (omega arith),
        loaded,
      )
      refl

-- Where the active header names no snapshot, the scan starts at the record area with nothing.
abbrev from_start : Restored
from_start = record { index = []; scan_start = data_start; loaded = false; corrupt = false }

-- The engine behind the scan.
abbrev scanned : Engine → Scan → Engine
scanned e s = record e { index = s.index; next_offset = s.end }

abbrev pub typed : Engine → Engine
typed e = record e { by_agent_type = rebuild_by_agent_type (mmap e) e.index [] }

module _ (e : Engine) (calm : e.plan ≡ []) (s : Scan)
    (start : restore_from_snapshot (active_header_ref e) (mmap e) ≡ from_start)
    (scan : scan_records (mmap e) (active_header_ref e).snapshot_offset data_start []
      ≡ some (ok s)) where
  restore_whole : s.truncate ≡ false → restore e ≡ (ok tt, typed (scanned e s))
  unfolding restore settle_end
  restore_whole h = rw (start, scan, h) refl

  restore_torn :
      s.truncate ≡ true
      → restore e
        ≡ (ok tt, typed (record (scanned e s) { file = cut s.end e.file; mapped = s.end }))
  unfolding restore settle_end
  restore_torn h = rw (start, scan, h, truncate_tail_calm (scanned e s) calm s.end) refl

-- The headers as they are read back: their checksums are filled in.
abbrev pub reread : Headers → Headers
reread hs =
    opened (stored hs.header_a) (stored hs.header_b)
      (if leb hs.header_b.commit_id hs.header_a.commit_id then 0 else 1)

pub stored-IsWritable : (h : FileHeader) → IsWritable h → IsWritable (stored h)
stored-IsWritable h w = record {
  current = w.current;
  reserved = w.reserved;
  commit = w.commit;
  offset = w.offset;
  size = w.size;
  count = w.count;
  flag_bits = w.flag_bits;
  end = w.end;
}

reread-IsSettled : (hs : Headers) → IsSettled hs → IsSettled (reread hs)
reread-IsSettled hs s = record {
  header_a = stored-IsWritable hs.header_a s.header_a;
  header_b = stored-IsWritable hs.header_b s.header_b;
  chosen = refl;
  no_snapshot = ground (arith, s.no_snapshot, s.chosen);
}

file_of-reread : (hs : Headers) (log : List Frame) → file_of (reread hs) log ≡ file_of hs log
unfolding to_bytes header_body
file_of-reread hs log = refl

pub nothing-IsTidy : IsTidy []
nothing-IsTidy = record { domains = tt; keys = tt }

pub no_more : (l m : List ℕ) → length m ≡ 0 → l ++ m ≡ l
no_more l [] h = append-nil l
no_more l (x ∷ m) h = absurd (omega (arith, h))

cut_front : (l m : List ℕ) (n : ℕ) → length l ≡ n → cut n (l ++ m) ≡ l
cut_front l m n h =
    let long : n - length (l ++ m) ≡ 0 = omega (arith, h, length-append l m) in
    rw (long, take-append n l m h) (append-nil l)

module _ (e : Engine) (log : List Frame) (c : ℕ) (b : IsBare e log c) where
  abbrev front : List ℕ
  front = to_bytes e.headers.header_a ++ to_bytes e.headers.header_b

  length-front : length front ≡ 8192
  length-front = omega (
    arith,
    length-append (to_bytes e.headers.header_a) (to_bytes e.headers.header_b),
    length-to_bytes e.headers.header_a,
    length-to_bytes e.headers.header_b,
  )

  file-front : e.file ≡ front ++ (log_bytes log ++ [])
  file-front = b.file ∙ simp (append_assoc, append-nil)

  length-file : length e.file ≡ 8192 + length (log_bytes log)
  length-file =
      ap length file-front
      ∙ omega (
        arith,
        length-append front (log_bytes log ++ []),
        length-append (log_bytes log) [],
        length-front,
      )

  replayed_few : total_records (replay log 8192 []) ≤ length log
  unfolding total_records
  replayed_few = omega (arith, (replay-IsTidy log 8192 [] b.storable nothing-IsTidy).1)

  -- An engine with the file of `e` and the replayed log.
  restored-IsBare :
      (e' : Engine)
      → e'.plan ≡ []
      → e'.is_closed ≡ false
      → e'.headers ≡ reread e.headers
      → e'.file ≡ e.file
      → e'.mapped ≡ length e.file
      → e'.next_offset ≡ length e.file
      → e'.index ≡ replay log 8192 []
      → IsBare e' log c
  restored-IsBare e' plan unclosed headers file whole next index = record {
    calm = plan;
    opened = unclosed;
    file =
        file
        ∙ b.file
        ∙ sym (file_of-reread e.headers log)
        ∙ ap (λ hs. file_of hs log) (sym headers);
    whole = whole ∙ ap length (sym file);
    next = next ∙ ap length (sym file);
    settled = subst IsSettled (sym headers) (reread-IsSettled e.headers b.settled);
    committed = subst (λ hs. IsCommitted hs c) (sym headers) b.committed;
    storable = b.storable;
    tidy = subst IsTidy (sym index) (replay-IsTidy log 8192 [] b.storable nothing-IsTidy).0;
    count = subst (λ x. total_records x ≤ length log) (sym index) replayed_few;
    shows =
        subst (λ x. Shows e'.file e'.next_offset x (view log nothing)) (sym index)
          (replay-Shows log e'.file front [] 8192 e'.next_offset [] nothing (file ∙ file-front)
            length-front (omega arith) (omega (arith, next, length-file)) b.storable
            (Shows-empty e'.file e'.next_offset));
  }

  module _ (torn : List ℕ) (short : length torn < 26) where
    abbrev crashed : List ℕ
    crashed = e.file ++ torn

    loaded : load_headers crashed ≡ ok (reread e.headers)
    loaded =
        ap load_headers (ap (λ l. l ++ torn) b.file ∙ simp append_assoc)
        ∙ load_headers-to_bytes e.headers.header_a e.headers.header_b (log_bytes log ++ torn)
            b.settled.header_a b.settled.header_b

    abbrev result : Scan
    result = record {
      index = replay log 8192 [];
      end = 8192 + length (log_bytes log);
      truncate = not (length torn == 0);
    }

    scan_crashed : (snap : ℕ) → scan_records crashed snap 8192 [] ≡ some (ok result)
    scan_crashed snap =
        subst
          (λ n.
            scan_records crashed snap n []
            ≡ some (
                ok (record {
                  index = replay log n [];
                  end = n + length (log_bytes log);
                  truncate = not (length torn == 0);
                })))
          length-front
          (ap (λ l. scan_records l snap (length front) [])
              (ap (λ l. l ++ torn) file-front ∙ simp (append_assoc, append-nil))
            ∙ scan_records-log log front torn snap [] b.storable short)

    abbrev mapped : Engine
    mapped = mapped_engine crashed (reread e.headers)

    starts : restore_from_snapshot (active_header_ref mapped) crashed ≡ from_start
    unfolding restore_from_snapshot active_header_ref
    starts = rw (reread-IsSettled e.headers b.settled).no_snapshot refl

    whole_map : mmap mapped ≡ crashed
    whole_map = take-all (length crashed) crashed (omega arith)

    starts' : restore_from_snapshot (active_header_ref mapped) (mmap mapped) ≡ from_start
    starts' = ap (restore_from_snapshot (active_header_ref mapped)) whole_map ∙ starts

    scan' :
        scan_records (mmap mapped) (active_header_ref mapped).snapshot_offset data_start []
        ≡ some (ok result)
    scan' =
        ap (λ l. scan_records l (active_header_ref mapped).snapshot_offset 8192 []) whole_map
        ∙ scan_crashed (active_header_ref mapped).snapshot_offset

    restore_crashed : (e' : Engine) × (restore mapped ≡ (ok tt, e')) × IsBare e' log c
    restore_crashed = elim (Bool-cases (length torn == 0)) [
      | inl whole ↦
          let empty : length torn ≡ 0 = ground (arith, whole) in
          let e' = typed (scanned mapped result) in
          let same : crashed ≡ e.file = no_more e.file torn empty in
          (
            e',
            restore_whole mapped refl result starts' scan' (rw whole refl),
            restored-IsBare e' refl refl refl same (ap length same) (sym length-file) refl,
          )
      | inr some_torn ↦
          let s = scanned mapped result in
          let e' = typed (record s { file = cut result.end crashed; mapped = result.end }) in
          (
            e',
            restore_torn mapped refl result starts' scan' (rw some_torn refl),
            restored-IsBare e' refl refl refl (cut_front e.file torn result.end length-file)
                (sym length-file) (sym length-file) refl,
          )
    ]

    -- Where fewer than 26 bytes stand behind the file of an engine that holds a log, no snapshot is named
    -- and no system call fails: Open succeeds on these bytes, and the engine it leaves holds the same log.
    pub open_engine-crashed :
        (e' : Engine) × (open_engine (blank crashed []) ≡ (ok tt, e')) × IsBare e' log c
    unfolding open_engine
    open_engine-crashed =
        let (e', eq, b') = restore_crashed in
        (
          e',
          rw
              (
                open_engine_file_calm crashed (reread e.headers)
                    (omega (arith, length-append e.file torn, length-file)) loaded,
                eq,
              )
              refl,
          b',
        )
