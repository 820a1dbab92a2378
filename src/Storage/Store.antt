-- ===== src/Storage/Store.antt =====
-- The engine as a store of records: what a write leaves to be read, for the record written and for
-- all the others.
pub mod Erase
pub mod Bare
pub mod Bury
pub mod Flip
pub mod Sealed
pub mod Checkpoint
pub mod Restart
pub mod Close
pub mod Reopen
pub mod At
pub mod Forget
pub mod Event
pub mod Steps
pub mod History
pub mod Batch
pub mod Purge
use mem_hop.Prelude.{
  ℕ, ◌+◌, ◌≡◌, ◌≤◌, refl, sym, ap, ◌∙◌, List, [], ◌∷◌, ◌++◌, ◌==◌, ◌&&◌, if◌then◌else◌, length,
  take, arith, true, false, Option, some, none, length-append, take-all, append-nil, subst,
  Bool-cases, inl, inr, ==_self,
}
use mem_hop.Errors.{ok}
use mem_hop.Storage.Domains.{offset_of, offset_of-put}
use mem_hop.Storage.Frame.{Frame, record_data, encode_record}
use mem_hop.Storage.Frame.RoundTrip.{IsStorable, length-encode_record, record_data-encode}
use mem_hop.Storage.Frame.Local.{record_data-append}
use mem_hop.Storage.Engine.{Engine, pure, ◌>>=◌}
use mem_hop.Storage.Disk.Calm.{unless_open, seek_end_calm, append_calm, sync_calm, remap_file_calm}
use mem_hop.Storage.Read.{read_record, read_result, read_at}
use mem_hop.Storage.Write.{
  RecordEntry, append_frames, index_one, update_index_after_write, write_batch, write_record,
  first_offset,
}
use mem_hop.Storage.Tail.{trim_tail_snapshot}
use mem_hop.Storage.Ready.{IsReady, Trims, Holds, trim_tail_snapshot-Trims}

-- The frame that WriteRecord encodes.
abbrev pub frame_of : ℕ → ℕ → ℕ → List ℕ → Frame
frame_of a t i d = record { record_type = t; flags = 0; payload = d; agent_id = a; id_hash = i }

abbrev pub entry_of : ℕ → ℕ → ℕ → List ℕ → RecordEntry
entry_of a t i d = record { agent_id = a; record_type = t; id_hash = i; payload = d }

-- An open engine answers a read by the frame that its index names.
pub read_record-at :
    (e : Engine) (a i : ℕ) (o : Option ℕ)
    → IsReady e
    → offset_of e.index a i ≡ o
    → read_record e a i ≡ read_at e.file o
unfolding read_record
read_record-at e a i o r h =
    rw (r.opened, h)
      (ap (λ l. read_at l o)
        (ap (λ n. take n e.file) r.whole ∙ take-all (length e.file) e.file (omega arith)))

module _ (e : Engine) (calm : e.plan ≡ []) (a t i : ℕ) (d : List ℕ) where
  abbrev pub grown : Engine
  grown = record e { file = e.file ++ encode_record a t 0 i d }

  append_frames_calm : append_frames (entry_of a t i d ∷ []) e ≡ (ok (length e.file ∷ []), grown)
  unfolding append_frames
  append_frames_calm =
      rw (seek_end_calm e calm, seek_end_calm e calm, append_calm e calm (encode_record a t 0 i d))

  -- The engine when the record is written and indexed.
  abbrev pub stored : Engine
  stored =
      index_one (entry_of a t i d) (length e.file)
        (record grown { next_offset = length e.file + 26 + length d; mapped = length grown.file })

  write_batch_calm :
      (before : Engine)
      → trim_tail_snapshot before ≡ (ok tt, e)
      → write_batch (entry_of a t i d ∷ []) before ≡ (ok (length e.file ∷ []), stored)
  unfolding write_batch update_index_after_write
  write_batch_calm before trimmed =
      let moved = record grown { next_offset = length e.file + 26 + length d } in
      rw (trimmed, append_frames_calm, sync_calm moved calm, remap_file_calm moved calm)

  stored_index :
      (b j : ℕ)
      → offset_of stored.index b j
        ≡ (if a == b && i == j then some (length e.file) else offset_of e.index b j)
  unfolding index_one
  stored_index b j = offset_of-put e.index a i (length e.file) b j

  stored_file : stored.file ≡ e.file ++ encode_record a t 0 i d
  unfolding index_one
  stored_file = refl

  stored_open : stored.is_closed ≡ e.is_closed
  unfolding index_one
  stored_open = refl

  stored_mapped : stored.mapped ≡ length stored.file
  unfolding index_one
  stored_mapped = refl

  stored_plan : stored.plan ≡ e.plan
  unfolding index_one
  stored_plan = refl

  stored_end : stored.next_offset ≡ length e.file + 26 + length d
  unfolding index_one
  stored_end = refl

  length_stored : length stored.file ≡ length e.file + 26 + length d
  unfolding index_one
  length_stored =
      omega (arith, length-append e.file (encode_record a t 0 i d), length-encode_record a t 0 i d)

  pub stored_frame :
      IsStorable (frame_of a t i d)
      → record_data stored.file (length e.file) ≡ ok (frame_of a t i d)
  unfolding index_one
  stored_frame s =
      ap (λ l. record_data (e.file ++ l) (length e.file))
        (sym (append-nil (encode_record a t 0 i d)))
      ∙ record_data-encode (frame_of a t i d) e.file [] s

-- What follows is about a write into an engine `e` that the trim of `before` left.
module _ (before e : Engine) (calm : e.plan ≡ []) (a t i : ℕ) (d : List ℕ) (r : IsReady before)
    (k : Trims before e) (s : IsStorable (frame_of a t i d)) where
  abbrev new : Engine
  new = stored e calm a t i d

  old_index :
      (b j : ℕ) (o : Option ℕ)
      → (a == b && i == j) ≡ false
      → offset_of new.index b j ≡ o
      → offset_of before.index b j ≡ o
  old_index b j o other h =
      ap (λ m. offset_of m b j) (sym k.index)
      ∙ ground (arith, stored_index e calm a t i d b j, other, h)

  -- A frame of the old record area reads in the new file.
  old_frame :
      (off : ℕ) (fr : Frame)
      → record_data before.file off ≡ ok fr
      → 8192 ≤ off
      → off + 26 + length fr.payload ≤ before.next_offset
      → record_data new.file off ≡ ok fr
  old_frame off fr clean low high =
      subst (λ l. record_data l off ≡ ok fr) (sym (stored_file e calm a t i d))
        (record_data-append e.file (encode_record a t 0 i d) off fr (k.keeps off fr low high clean))

  new_holds :
      (b j off : ℕ)
      → (a == b && i == j) ≡ true
      → offset_of new.index b j ≡ some off
      → Holds new b j off
  new_holds b j off same h =
      let at : length e.file ≡ off = ground (arith, stored_index e calm a t i d b j, same, h) in
      (
        frame_of a t i d,
        rw (← at) (stored_frame e calm a t i d s),
        ground (arith, same),
        ground (arith, same),
        omega (arith, at, r.area, k.room),
        omega (arith, at, stored_end e calm a t i d),
      )

  old_holds :
      (b j off : ℕ)
      → (a == b && i == j) ≡ false
      → offset_of new.index b j ≡ some off
      → Holds new b j off
  old_holds b j off other h =
      let (fr, clean, p, q, low, high) = r.live b j off (old_index b j (some off) other h) in
      (
        fr,
        old_frame off fr clean low high,
        p,
        q,
        low,
        omega (arith, high, k.room, stored_end e calm a t i d),
      )

  stored-IsReady : IsReady new
  stored-IsReady = record {
    opened = stored_open e calm a t i d ∙ k.opened;
    whole = stored_mapped e calm a t i d;
    area = omega (arith, r.area, k.room, stored_end e calm a t i d);
    room = omega (arith, stored_end e calm a t i d, length_stored e calm a t i d);
    live = λ b j off h. elim (Bool-cases (a == b && i == j)) [
      | inl same ↦ new_holds b j off same h
      | inr other ↦ old_holds b j off other h
    ];
  }

  read_new : read_record new a i ≡ ok (t, d)
  read_new =
      read_record-at new a i (some (length e.file)) stored-IsReady
        (stored_index e calm a t i d a i ∙ rw (==_self a, ==_self i))
      ∙ ap read_result (stored_frame e calm a t i d s)

  same_read :
      (b j : ℕ) (o : Option ℕ)
      → offset_of before.index b j ≡ o
      → read_at new.file o ≡ read_at before.file o
  same_read b j none h = refl
  same_read b j (some off) h =
      let (fr, clean, p, q, low, high) = r.live b j off h in
      ap read_result (old_frame off fr clean low high) ∙ sym (ap read_result clean)

  read_old : (b j : ℕ) → (a == b && i == j) ≡ false → read_record new b j ≡ read_record before b j
  read_old b j other =
      let h = old_index b j (offset_of new.index b j) other refl in
      read_record-at new b j (offset_of new.index b j) stored-IsReady refl
      ∙ same_read b j (offset_of new.index b j) h
      ∙ sym (read_record-at before b j (offset_of new.index b j) r h)

  read_all :
      (b j : ℕ)
      → read_record new b j ≡ (if a == b && i == j then ok (t, d) else read_record before b j)
  read_all b j = elim (Bool-cases (a == b && i == j)) [
    | inl same ↦
        let ea : a ≡ b = ground (arith, same) in
        let ei : i ≡ j = ground (arith, same) in
        rw same
          (ap (λ x. read_record new x j) (sym ea) ∙ ap (read_record new a) (sym ei) ∙ read_new)
    | inr other ↦ rw other (read_old b j other)
  ]

-- When no system call fails: a write into a ready engine succeeds and leaves a ready engine, in
-- which the record reads back as it was written and every other record reads as it did before.
-- The type of the record is above 0 and its fields fit their widths.
pub write_record-read_record :
    (e : Engine) (a t i : ℕ) (d : List ℕ)
    → e.plan ≡ []
    → IsReady e
    → IsStorable (frame_of a t i d)
    → (off : ℕ) × (e' : Engine) × (write_record a t i d e ≡ (ok off, e'))
      × IsReady e'
      × (e'.plan ≡ [])
      × ((b j : ℕ)
          → read_record e' b j ≡ (if a == b && i == j then ok (t, d) else read_record e b j))
unfolding write_record
write_record-read_record e a t i d calm r s =
    let (m, trimmed, k) = trim_tail_snapshot-Trims e calm r in
    (
      length m.file,
      stored m k.calm a t i d,
      unless_open (write_batch (entry_of a t i d ∷ []) >>= λ offsets. pure (first_offset offsets)) e
            r.opened
          ∙ rw (write_batch_calm m k.calm a t i d e trimmed),
      stored-IsReady e m k.calm a t i d r k s,
      stored_plan m k.calm a t i d ∙ k.calm,
      read_all e m k.calm a t i d r k s,
    )
