-- ===== src/Storage/Store/Sealed.antt =====
-- An engine with a snapshot behind its log, and the trim that takes it away before the next frame.
use mem_hop.Prelude.{
  ℕ, ◌+◌, ◌<◌, ◌≤◌, ◌^◌, ◌≡◌, refl, sym, ap, ◌∙◌, List, [], ◌++◌, true, false, some, Option, ◌==◌,
  ◌||◌, length, take, arith, All, length-append, append-nil, take-append, take-all, Bool-cases, inl,
  inr,
}
use mem_hop.Errors.{ok}
use mem_hop.Storage.Domains.{Index, offset_of}
use mem_hop.Storage.Domains.Tidy.{IsTidy}
use mem_hop.Storage.Frame.{Frame}
use mem_hop.Storage.Frame.RoundTrip.{IsStorable}
use mem_hop.Storage.Header.{FileHeader, Headers, to_bytes}
use mem_hop.Storage.Header.Select.{IsWritable, length-to_bytes}
use mem_hop.Storage.Snapshot.{build_snapshot}
use mem_hop.Storage.Snapshot.RoundTrip.{IsSerializable, length-blob}
use mem_hop.Storage.Engine.{Engine, active_header_ref, mmap, total_records}
use mem_hop.Storage.Disk.{overwrite}
use mem_hop.Storage.Disk.Calm.{cut}
use mem_hop.Storage.Tail.{null_header, trim_tail_snapshot}
use mem_hop.Storage.Recovery.Log.{log_bytes}
use mem_hop.Storage.Ready.{
  IsReady, cut_lem, switched, flipped, flipped-Trims, Holds, slot, trim_tail_snapshot_tail,
}
use mem_hop.Storage.View.{nothing, view, Shows, Shows-keep, answer, read_at-Shown, Shown}
use mem_hop.Storage.Read.{read_record, read_at}
use mem_hop.Storage.Store.Bare.{file_of, active_of, IsBare}
use mem_hop.Storage.Store.Flip.{
  IsPaired, switched-IsPaired, active_of-switched, overwrite_slot, active_commits,
}

-- The headers, the log and any `tail` behind it, with an index that shows the log.
pub record IsKept (e : Engine) (log : List Frame) (tail : List ℕ) (commits : ℕ) : Type 0 where
  pub calm : e.plan ≡ []
  pub file : e.file ≡ file_of e.headers log ++ tail
  pub whole : e.mapped ≡ length e.file
  pub next : e.next_offset ≡ 8192 + length (log_bytes log)
  pub paired : IsPaired e.headers commits
  pub storable : All IsStorable log
  pub tidy : IsTidy e.index
  pub count : total_records e.index ≤ length log
  pub shows : Shows e.file e.next_offset e.index (view log nothing)

pub length-file_of_log :
    (hs : Headers) (log : List Frame) → length (file_of hs log) ≡ 8192 + length (log_bytes log)
length-file_of_log hs log = omega (
  arith,
  length-append (to_bytes hs.header_a) (to_bytes hs.header_b ++ log_bytes log),
  length-append (to_bytes hs.header_b) (log_bytes log),
  length-to_bytes hs.header_a,
  length-to_bytes hs.header_b,
)

pub length-IsKept :
    (e : Engine) (log : List Frame) (tail : List ℕ) (c : ℕ)
    → IsKept e log tail c
    → length e.file ≡ 8192 + length (log_bytes log) + length tail
length-IsKept e log tail c k =
    ap length k.file
    ∙ omega (arith, length-append (file_of e.headers log) tail, length-file_of_log e.headers log)

pub length-IsBare :
    (e : Engine) (log : List Frame) (c : ℕ)
    → IsBare e log c
    → length e.file ≡ 8192 + length (log_bytes log)
length-IsBare e log c b = ap length b.file ∙ length-file_of_log e.headers log

pub IsBare-IsKept : (e : Engine) (log : List Frame) (c : ℕ) → IsBare e log c → IsKept e log [] c
IsBare-IsKept e log c b = record {
  calm = b.calm;
  file = b.file ∙ sym (append-nil (file_of e.headers log));
  whole = b.whole;
  next = b.next ∙ length-IsBare e log c b;
  paired = record {
    header_a = b.settled.header_a;
    header_b = b.settled.header_b;
    chosen = b.settled.chosen;
    committed = b.committed;
  };
  storable = b.storable;
  tidy = b.tidy;
  count = b.count;
  shows = b.shows;
}

-- The active header names a snapshot at the end of the file, whose index has the lookups of the engine's.
-- `older` stands between the log and that snapshot.
pub record IsSealed (e : Engine) (log : List Frame) (commits : ℕ) : Type 0 where
  pub older : List ℕ
  pub image : Index
  pub kept : IsKept e log (older ++ build_snapshot image) commits
  pub serial : IsSerializable image
  pub image_tidy : IsTidy image
  pub image_count : total_records image ≤ length log
  pub same : (a i : ℕ) → offset_of image a i ≡ offset_of e.index a i
  pub offset : (active_of e.headers).snapshot_offset ≡ 8192 + length (log_bytes log) + length older
  pub size : (active_of e.headers).snapshot_length ≡ length (build_snapshot image)
  pub end : (active_of e.headers).record_end ≡ 8192 + length (log_bytes log)
  pub small : length e.file < 256 ^ 8

pub active-IsWritable : (hs : Headers) (c : ℕ) → IsPaired hs c → IsWritable (active_of hs)
active-IsWritable hs c p = elim (Bool-cases (hs.active == 0)) [
  | inl first ↦ rw first p.header_a
  | inr second ↦ rw second p.header_b
]

-- The header that takes the snapshot away.
null_header_lem :
    (h : FileHeader) (c : ℕ)
    → IsWritable h
    → h.commit_id ≤ c
    → c + 1 < 256 ^ 8
    → IsWritable (null_header h)
      × ((null_header h).commit_id ≡ h.commit_id + 1)
      × (((null_header h).snapshot_offset == 0 || (null_header h).snapshot_length == 0) ≡ true)
unfolding null_header
null_header_lem h c w le room = (
  record {
    current = w.current;
    reserved = w.reserved;
    commit = omega arith;
    offset = omega arith;
    size = omega arith;
    count = w.count;
    flag_bits = w.flag_bits;
    end = w.end;
  },
  omega arith,
  refl,
)

pub mmap_whole : (e : Engine) → e.mapped ≡ length e.file → mmap e ≡ e.file
mmap_whole e whole = ap (λ n. take n e.file) whole ∙ take-all (length e.file) e.file (omega arith)

-- Reads answer from the store of the log.
pub read_record-IsKept :
    (e : Engine) (log : List Frame) (tail : List ℕ) (c a i : ℕ)
    → IsKept e log tail c
    → e.is_closed ≡ false
    → read_record e a i ≡ answer (view log nothing a i)
unfolding read_record
read_record-IsKept e log tail c a i k opened = rw opened (
    ap (λ l. read_at l (offset_of e.index a i)) (mmap_whole e k.whole)
    ∙ read_at-Shown e.file e.next_offset a i (offset_of e.index a i) (view log nothing a i)
        (k.shows.at a i (offset_of e.index a i) refl))

-- A shown lookup leads to a whole frame.
Shown-Holds :
    (e : Engine) (v : Option (ℕ × List ℕ)) (a i off : ℕ)
    → Shown e.file e.next_offset a i (some off) v
    → Holds e a i off
Shown-Holds e v a i off s =
    let (fr, clean, ea, ei, typed, low, high, eq) = s in (fr, clean, ea, ei, low, high)

pub active_ref : (e : Engine) → active_header_ref e ≡ active_of e.headers
unfolding active_header_ref
active_ref e = refl

module _ (e : Engine) (log : List Frame) (c : ℕ) (opened : e.is_closed ≡ false)
    (s : IsSealed e log c) (room : c + 1 < 256 ^ 8) where
  abbrev blob : List ℕ
  blob = build_snapshot s.image

  sealed-IsReady : IsReady e
  sealed-IsReady = record {
    opened = opened;
    whole = s.kept.whole;
    area = omega (arith, s.kept.next);
    room = omega (arith, s.kept.next, length-IsKept e log (s.older ++ blob) c s.kept);
    live = λ a i off h.
        Shown-Holds e (view log nothing a i) a i off (s.kept.shows.at a i (some off) h);
  }

  trims : trim_tail_snapshot e ≡ (ok tt, flipped e s.kept.calm)
  trims =
      trim_tail_snapshot_tail e s.kept.calm
        (rw (active_ref e) (ground (arith, s.offset, s.size, length-blob s.image s.serial)))
        (rw (active_ref e, mmap_whole e s.kept.whole)
          (ground (
            arith,
            s.offset,
            s.size,
            s.small,
            length-append s.older blob,
            length-IsKept e log (s.older ++ blob) c s.kept,
          )))

  abbrev null_active : FileHeader
  null_active = null_header (active_of e.headers)

  trimmed-file : (flipped e s.kept.calm).file ≡ file_of (switched e.headers null_active) log
  unfolding active_header_ref
  trimmed-file =
      let k = s.kept in
      let size = length-IsKept e log (s.older ++ blob) c k in
      let front : cut e.next_offset e.file ≡ file_of e.headers log ++ [] =
        cut_lem e.next_offset e.file (omega (arith, k.next, size))
        ∙ ap (take e.next_offset) k.file
        ∙ take-append e.next_offset (file_of e.headers log) (s.older ++ blob)
            (length-file_of_log e.headers log ∙ sym k.next)
        ∙ sym (append-nil (file_of e.headers log)) in
      ap (λ f. overwrite f (slot e) (to_bytes null_active)) front
      ∙ overwrite_slot e.headers null_active log []
      ∙ append-nil (file_of (switched e.headers null_active) log)

  -- The trim leaves the engine with its log and no snapshot, one commit later.
  pub trim_tail_snapshot-IsBare :
      (m : Engine) × (trim_tail_snapshot e ≡ (ok tt, m))
      × IsBare m log (c + 1)
      × (m.index ≡ e.index)
  unfolding active_header_ref
  trim_tail_snapshot-IsBare =
      let k = s.kept in
      let m = flipped e k.calm in
      let t = flipped-Trims e k.calm sealed-IsReady in
      let (w, next, gone) =
        null_header_lem (active_of e.headers) c (active-IsWritable e.headers c k.paired)
          (active_commits e.headers c k.paired) room in
      let p = switched-IsPaired e.headers null_active c k.paired w next in
      (
        m,
        trims,
        record {
          calm = k.calm;
          opened = opened;
          file = trimmed-file;
          whole = t.whole;
          next = t.whole;
          settled = record {
            header_a = p.header_a;
            header_b = p.header_b;
            chosen = p.chosen;
            no_snapshot = rw (active_of-switched e.headers null_active) gone;
          };
          committed = p.committed;
          storable = k.storable;
          tidy = k.tidy;
          count = k.count;
          shows =
              Shows-keep e.file m.file e.next_offset e.next_offset e.index e.index
                (view log nothing) t.keeps (omega arith) (λ a i. refl) k.shows;
        },
        refl,
      )
