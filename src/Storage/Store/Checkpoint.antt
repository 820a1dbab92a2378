-- ===== src/Storage/Store/Checkpoint.antt =====
-- Checkpoint and Close, when no system call fails: the snapshot of the index goes behind the file and the
-- flipped header names it.
use mem_hop.Prelude.{
  ℕ, ◌+◌, ◌*◌, ◌%◌, ◌<◌, ◌≤◌, ◌^◌, ◌≡◌, refl, sym, ap, ◌∙◌, List, [], ◌++◌, false, some, Option,
  length, arith, length-append, append_assoc,
}
use mem_hop.Errors.{ok}
use mem_hop.Storage.Domains.{offset_of}
use mem_hop.Storage.Frame.{Frame, record_data}
use mem_hop.Storage.Frame.Local.{record_data-append, record_data-drop}
use mem_hop.Storage.Header.{FileHeader, to_bytes}
use mem_hop.Storage.Header.Select.{IsWritable, length-to_bytes}
use mem_hop.Storage.Snapshot.{build_snapshot}
use mem_hop.Storage.Snapshot.RoundTrip.{IsSerializable}
use mem_hop.Storage.Snapshot.Size.{IsTidy-IsSerializable, length-build_snapshot}
use mem_hop.Storage.Engine.{Engine, active_header_ref}
use mem_hop.Storage.Disk.{overwrite}
use mem_hop.Storage.Disk.Calm.{
  seek_end_calm, append_calm, sync_calm, remap_file_calm, write_header_at_calm, unless_open,
}
use mem_hop.Storage.Tail.{
  write_inactive_header, switch_header, build_checkpoint_header, append_snapshot, checkpoint,
}
use mem_hop.Storage.Ready.{switched, length-overwrite, drop-overwrite}
use mem_hop.Storage.View.{nothing, view, Shown, Shows-keep}
use mem_hop.Storage.Store.Bare.{file_of, active_of}
use mem_hop.Storage.Store.Flip.{
  slot_of, switched-IsPaired, active_of-switched, overwrite_slot, active_commits,
}
use mem_hop.Storage.Store.Sealed.{IsKept, IsSealed, length-IsKept, active-IsWritable}

module _ (e : Engine) (calm : e.plan ≡ []) (bytes : List ℕ) where
  -- The file with the bytes behind it, and mapped.
  abbrev extended : Engine
  extended = record e { file = e.file ++ bytes; mapped = length (e.file ++ bytes) }

  abbrev new_header : FileHeader
  new_header = build_checkpoint_header extended (length e.file) (length bytes % 2 ^ 32)

  abbrev sealed_file : List ℕ
  sealed_file = overwrite (e.file ++ bytes) (slot_of e.headers) (to_bytes new_header)

  abbrev sealed_engine : Engine
  sealed_engine = record e {
    file = sealed_file;
    mapped = length sealed_file;
    headers = switched e.headers new_header;
  }

  append_snapshot_calm : append_snapshot bytes e ≡ (ok tt, sealed_engine)
  unfolding append_snapshot write_inactive_header switch_header
  append_snapshot_calm =
      let grown = record e { file = e.file ++ bytes } in
      let written = record extended { file = sealed_file } in
      rw
        (
          seek_end_calm e calm,
          append_calm e calm bytes,
          sync_calm grown calm,
          remap_file_calm grown calm,
          write_header_at_calm extended calm (slot_of e.headers) (to_bytes new_header),
          sync_calm written calm,
          remap_file_calm written calm,
        )
        refl

-- The header of a checkpoint, made from the active one.
checkpoint_header_lem :
    (e : Engine) (at size c : ℕ)
    → IsWritable (active_of e.headers)
    → (active_of e.headers).commit_id ≤ c
    → c + 1 < 256 ^ 8
    → at < 256 ^ 8
    → size < 256 ^ 4
    → e.next_offset < 256 ^ 8
    → IsWritable (build_checkpoint_header e at size)
      × ((build_checkpoint_header e at size).commit_id ≡ (active_of e.headers).commit_id + 1)
      × ((build_checkpoint_header e at size).snapshot_offset ≡ at)
      × ((build_checkpoint_header e at size).snapshot_length ≡ size)
      × ((build_checkpoint_header e at size).record_end ≡ e.next_offset)
unfolding build_checkpoint_header active_header_ref
checkpoint_header_lem e at size c w le room la ls ln = (
  record {
    current = w.current;
    reserved = w.reserved;
    commit = omega arith;
    offset = la;
    size = ls;
    count = omega arith;
    flag_bits = w.flag_bits;
    end = ln;
  },
  omega arith,
  refl,
  refl,
  refl,
)

Shown-below :
    (mm : List ℕ) (end a i off : ℕ) (v : Option (ℕ × List ℕ))
    → Shown mm end a i (some off) v
    → off < end
Shown-below mm end a i off v s =
    let (fr, clean, ea, ei, typed, low, high, eq) = s in omega (arith, high)

module _ (e : Engine) (log : List Frame) (tail : List ℕ) (c : ℕ) (k : IsKept e log tail c)
    (room : c + 1 < 256 ^ 8) (small : length e.file + (13 + 28 * length log) < 256 ^ 4) where
  abbrev image_bytes : List ℕ
  image_bytes = build_snapshot e.index

  offsets_below : (a i off : ℕ) → offset_of e.index a i ≡ some off → off < 256 ^ 8
  offsets_below a i off h = omega (
    arith,
    small,
    k.next,
    length-IsKept e log tail c k,
    Shown-below e.file e.next_offset a i off (view log nothing a i) (k.shows.at a i (some off) h),
  )

  image-IsSerializable : IsSerializable e.index
  image-IsSerializable =
      IsTidy-IsSerializable e.index k.tidy offsets_below (omega (arith, k.count, small))

  pub image_short : length image_bytes ≤ 13 + 28 * length log
  image_short = omega (arith, length-build_snapshot e.index image-IsSerializable, k.count)

  abbrev pub after_seal : Engine
  after_seal = sealed_engine e k.calm image_bytes

  abbrev header : FileHeader
  header = new_header e k.calm image_bytes

  grown-size : length (e.file ++ image_bytes) ≡ length e.file + length image_bytes
  grown-size = length-append e.file image_bytes

  slot_fits : slot_of e.headers + length (to_bytes header) ≤ 8192
  slot_fits = ground (arith, length-to_bytes header)

  inside : slot_of e.headers + length (to_bytes header) ≤ length (e.file ++ image_bytes)
  inside = omega (arith, slot_fits, grown-size, length-IsKept e log tail c k)

  pub length-after_seal : length after_seal.file ≡ length e.file + length image_bytes
  length-after_seal =
      length-overwrite (e.file ++ image_bytes) (slot_of e.headers) (to_bytes header) inside
      ∙ grown-size

  after_seal-file :
      after_seal.file ≡ file_of (switched e.headers header) log ++ (tail ++ image_bytes)
  after_seal-file =
      ap (λ l. overwrite l (slot_of e.headers) (to_bytes header))
        (ap (λ l. l ++ image_bytes) k.file ∙ append_assoc (file_of e.headers log) tail image_bytes)
      ∙ overwrite_slot e.headers header log (tail ++ image_bytes)

  -- The frames stand where they stood.
  after_seal-keeps :
      (off : ℕ) (fr : Frame)
      → 8192 ≤ off
      → off + 26 + length fr.payload ≤ e.next_offset
      → record_data e.file off ≡ ok fr
      → record_data after_seal.file off ≡ ok fr
  after_seal-keeps off fr low high clean =
      record_data-drop (e.file ++ image_bytes) after_seal.file 8192 off fr
        (record_data-append e.file image_bytes off fr clean) low
        (drop-overwrite (e.file ++ image_bytes) (slot_of e.headers) (to_bytes header) 8192 slot_fits
          inside)
        (length-after_seal ∙ sym grown-size)

  -- The snapshot is in place: the engine has the same log, one commit later.
  pub append_snapshot-IsSealed :
      (append_snapshot image_bytes e ≡ (ok tt, after_seal)) × IsSealed after_seal log (c + 1)
  append_snapshot-IsSealed =
      let (w, next, offset, size, end) =
        checkpoint_header_lem (extended e k.calm image_bytes) (length e.file)
          (length image_bytes % 2 ^ 32) c (active-IsWritable e.headers c k.paired)
          (active_commits e.headers c k.paired) room (omega (arith, small)) (omega arith)
          (omega (arith, small, k.next, length-IsKept e log tail c k)) in
      (
        append_snapshot_calm e k.calm image_bytes,
        record {
          older = tail;
          image = e.index;
          kept = record {
            calm = k.calm;
            file = after_seal-file;
            whole = refl;
            next = k.next;
            paired = switched-IsPaired e.headers header c k.paired w next;
            storable = k.storable;
            tidy = k.tidy;
            count = k.count;
            shows =
                Shows-keep e.file after_seal.file e.next_offset e.next_offset e.index e.index
                  (view log nothing) after_seal-keeps (omega arith) (λ a i. refl) k.shows;
          };
          serial = image-IsSerializable;
          image_tidy = k.tidy;
          image_count = k.count;
          same = λ a i. refl;
          offset =
              ap (λ (h : FileHeader). h.snapshot_offset) (active_of-switched e.headers header)
              ∙ offset
              ∙ length-IsKept e log tail c k;
          size =
              ap (λ (h : FileHeader). h.snapshot_length) (active_of-switched e.headers header)
              ∙ size
              ∙ omega (arith, image_short, small);
          end =
              ap (λ (h : FileHeader). h.record_end) (active_of-switched e.headers header)
              ∙ end
              ∙ k.next;
          small = omega (arith, length-after_seal, image_short, small);
        },
      )

-- Checkpoint.
pub checkpoint-IsSealed :
    (e : Engine) (log : List Frame) (tail : List ℕ) (c : ℕ) (k : IsKept e log tail c)
    → e.is_closed ≡ false
    → c + 1 < 256 ^ 8
    → length e.file + (13 + 28 * length log) < 256 ^ 4
    → (e' : Engine) × (checkpoint e ≡ (ok tt, e'))
      × IsSealed e' log (c + 1)
      × (e'.is_closed ≡ false)
      × (length e'.file ≤ length e.file + (13 + 28 * length log))
unfolding checkpoint
checkpoint-IsSealed e log tail c k opened room small =
    let (eq, sealed) = append_snapshot-IsSealed e log tail c k room small in
    (
      after_seal e log tail c k room small,
      unless_open (λ e. append_snapshot (build_snapshot e.index) e) e opened ∙ eq,
      sealed,
      opened,
      omega (
        arith,
        length-after_seal e log tail c k room small,
        image_short e log tail c k room small,
      ),
    )
