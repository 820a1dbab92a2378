-- ===== src/Storage/Store/Batch/Read.antt =====
-- engine_write.go, when no system call fails: what a batch of records leaves to be read.
use mem_hop.Prelude.{
  ℕ, suc, ◌+◌, ◌≡◌, refl, sym, ap, ◌∙◌, List, [], ◌∷◌, ◌++◌, length, arith, Option, some, none,
  length-append, All,
}
use mem_hop.Errors.{ok}
use mem_hop.Storage.Domains.{offset_of}
use mem_hop.Storage.Frame.RoundTrip.{IsStorable}
use mem_hop.Storage.Frame.Local.{record_data-append}
use mem_hop.Storage.Engine.{Engine}
use mem_hop.Storage.Disk.Calm.{unless_open, seek_end_calm, sync_calm, remap_file_calm}
use mem_hop.Storage.Read.{read_record, read_result, read_at}
use mem_hop.Storage.Write.{
  RecordEntry, append_frames, update_index_after_write, end_of, write_batch, write_record_batch,
}
use mem_hop.Storage.Tail.{trim_tail_snapshot}
use mem_hop.Storage.Ready.{IsReady, Trims, Holds, trim_tail_snapshot-Trims}
use mem_hop.Storage.Store.{read_record-at}
use mem_hop.Storage.Store.Batch.{
  frame_of_entry, bytes_of, offsets_from, append_loop_calm, end_of_lem, placed_lem, latest, over,
}
use mem_hop.Storage.Store.Batch.Enter.{update_index-IsReady}

length-offsets_from : (n : ℕ) (rs : List RecordEntry) → length rs ≡ length (offsets_from n rs)
unfolding offsets_from
length-offsets_from n [] = refl
length-offsets_from n (r ∷ rs) = ap suc (length-offsets_from (n + 26 + length r.payload) rs)

-- The engine `e` that the trim of `before` left, with more bytes behind its file.
module _ (before e : Engine) (r : IsReady before) (k : Trims before e) (more : List ℕ) where
  abbrev pub extended : Engine
  extended = record e {
    file = e.file ++ more;
    next_offset = length (e.file ++ more);
    mapped = length (e.file ++ more);
  }

  extended-live : (b j off : ℕ) → offset_of extended.index b j ≡ some off → Holds extended b j off
  extended-live b j off h =
      let (fr, clean, p, q, low, high) =
        r.live b j off (ap (λ m. offset_of m b j) (sym k.index) ∙ h) in
      (
        fr,
        record_data-append e.file more off fr (k.keeps off fr low high clean),
        p,
        q,
        low,
        omega (arith, high, k.room, length-append e.file more),
      )

  pub extended-IsReady : IsReady extended
  extended-IsReady = record {
    opened = k.opened;
    whole = refl;
    area = omega (arith, r.area, k.room, length-append e.file more);
    room = omega arith;
    live = extended-live;
  }

  same_read :
      (b j : ℕ) (o : Option ℕ)
      → offset_of before.index b j ≡ o
      → read_at extended.file o ≡ read_at before.file o
  same_read b j none h = refl
  same_read b j (some off) h =
      let (fr, clean, p, q, low, high) = r.live b j off h in
      ap read_result (record_data-append e.file more off fr (k.keeps off fr low high clean))
      ∙ sym (ap read_result clean)

  pub extended_read : (b j : ℕ) → read_record extended b j ≡ read_record before b j
  extended_read b j =
      let o = offset_of before.index b j in
      read_record-at extended b j o extended-IsReady (ap (λ m. offset_of m b j) k.index)
      ∙ same_read b j o refl
      ∙ sym (read_record-at before b j o r refl)

write_batch_calm :
    (before e : Engine) (r : IsReady before) (k : Trims before e) (x : RecordEntry)
    (rs : List RecordEntry)
    → trim_tail_snapshot before ≡ (ok tt, e)
    → write_batch (x ∷ rs) before ≡ (
      ok (offsets_from (length e.file) (x ∷ rs)),
      update_index_after_write
          (x ∷ rs)
          (offsets_from (length e.file) (x ∷ rs))
          (extended before e r k (bytes_of (x ∷ rs))),
    )
unfolding write_batch append_frames
write_batch_calm before e r k x rs trimmed =
    let more = bytes_of (x ∷ rs) in
    let os = offsets_from (length e.file) (x ∷ rs) in
    let grown = record e { file = e.file ++ more } in
    let moved = record grown { next_offset = end_of (x ∷ rs) os e.next_offset } in
    rw
      (
        trimmed,
        seek_end_calm e k.calm,
        append_loop_calm (length e.file) (x ∷ rs) e k.calm,
        sync_calm moved k.calm,
        remap_file_calm moved k.calm,
      )
      (rw (end_of_lem (length e.file) e.next_offset x rs, sym (length-append e.file more)) refl)

-- When no system call fails: a batch written into a ready engine leaves a ready engine, in which a record
-- reads as the last entry of the batch that names it, and one that no entry names as before.
-- The type of each entry is above 0 and its fields fit their widths.
pub write_record_batch-read_record :
    (rs : List RecordEntry) (e : Engine)
    → e.plan ≡ []
    → IsReady e
    → All (λ r. IsStorable (frame_of_entry r)) rs
    → (offsets : List ℕ) × (e' : Engine) × (write_record_batch rs e ≡ (ok offsets, e'))
      × IsReady e'
      × (e'.plan ≡ [])
      × ((b j : ℕ) → read_record e' b j ≡ over (latest rs b j) (read_record e b j))
unfolding write_record_batch write_batch
write_record_batch-read_record [] e calm ready s =
    ([], e, unless_open (write_batch []) e ready.opened, ready, calm, λ b j. refl)
write_record_batch-read_record (x ∷ rs) e calm ready s =
    let (m, trimmed, k) = trim_tail_snapshot-Trims e calm ready in
    let more = bytes_of (x ∷ rs) in
    let os = offsets_from (length m.file) (x ∷ rs) in
    let big = extended e m ready k more in
    let (ready', same, law) =
      update_index-IsReady (x ∷ rs) os big (extended-IsReady e m ready k more)
        (length-offsets_from (length m.file) (x ∷ rs))
        (placed_lem m.file (x ∷ rs) (omega (arith, ready.area, k.room)) s) in
    (
      os,
      update_index_after_write (x ∷ rs) os big,
      unless_open (write_batch (x ∷ rs)) e ready.opened ∙ write_batch_calm e m ready k x rs trimmed,
      ready',
      same ∙ k.calm,
      λ b j. law b j ∙ ap (over (latest (x ∷ rs) b j)) (extended_read e m ready k more b j),
    )
