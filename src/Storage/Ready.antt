-- ===== src/Storage/Ready.antt =====
-- What holds of an engine between two operations, and what the trim in front of every append keeps.
use mem_hop.Prelude.{
  ℕ, ◌+◌, ◌-◌, ◌≡◌, ◌≤◌, refl, sym, ap, ◌∙◌, List, [], ◌++◌, ◌==◌, if◌then◌else◌, length, take,
  drop, replicate, arith, false, true, some, length-append, length-take, length-drop, append-nil,
  append_assoc, drop-append, drop-drop, ◌||◌, Bool-cases, inl, inr, ◌%◌, ◌^◌, subst,
}
use mem_hop.Errors.{ok}
use mem_hop.Storage.Domains.{offset_of}
use mem_hop.Storage.Frame.{Frame, record_data}
use mem_hop.Storage.Frame.Local.{record_data-take, record_data-drop}
use mem_hop.Storage.Header.{FileHeader, Headers, header_size, to_bytes}
use mem_hop.Storage.Header.Select.{length-to_bytes}
use mem_hop.Storage.Engine.{Engine, active_header_ref, mmap}
use mem_hop.Storage.Disk.{overwrite}
use mem_hop.Storage.Disk.Calm.{cut, write_header_at_calm, sync_calm, truncate_tail_calm}
use mem_hop.Storage.Tail.{
  write_inactive_header, switch_header, null_header, write_null_snapshot_header, trim_tail_snapshot,
}

-- A whole frame of record (a, id) stands at `off`, inside the record area.
abbrev pub Holds : Engine → ℕ → ℕ → ℕ → Type 0
Holds e a id off =
    (fr : Frame) × (record_data e.file off ≡ ok fr)
    × (fr.agent_id ≡ a)
    × (fr.id_hash ≡ id)
    × (8192 ≤ off)
    × (off + 26 + length fr.payload ≤ e.next_offset)

pub record IsReady (e : Engine) : Type 0 where
  pub opened : e.is_closed ≡ false
  pub whole : e.mapped ≡ length e.file
  pub area : 8192 ≤ e.next_offset
  pub room : e.next_offset ≤ length e.file
  pub live : (a id off : ℕ) → offset_of e.index a id ≡ some off → Holds e a id off

-- What the trim may change: the bytes behind the record area, and the headers.
pub record Trims (e e' : Engine) : Type 0 where
  pub calm : e'.plan ≡ []
  pub opened : e'.is_closed ≡ false
  pub index : e'.index ≡ e.index
  pub next : e'.next_offset ≡ e.next_offset
  pub whole : e'.mapped ≡ length e'.file
  pub room : e.next_offset ≤ length e'.file
  pub keeps :
      (off : ℕ) (fr : Frame)
      → 8192 ≤ off
      → off + 26 + length fr.payload ≤ e.next_offset
      → record_data e.file off ≡ ok fr
      → record_data e'.file off ≡ ok fr

module _ (f : List ℕ) (off : ℕ) (b : List ℕ) where
  pub length-overwrite : off + length b ≤ length f → length (overwrite f off b) ≡ length f
  length-overwrite h = omega (
    arith,
    length-append (take off f) (b ++ drop (off + length b) f),
    length-append b (drop (off + length b) f),
    length-take off f,
    length-drop (off + length b) f,
  )

  pub drop-overwrite :
      (n : ℕ)
      → off + length b ≤ n
      → off + length b ≤ length f
      → drop n (overwrite f off b) ≡ drop n f
  drop-overwrite n h fits =
      let front = take off f ++ b in
      let k = off + length b in
      let size : length front ≡ k =
        omega (arith, length-append (take off f) b, length-take off f) in
      let at : k + (n - k) ≡ n = omega arith in
      ap (λ m. drop m (overwrite f off b)) (sym at)
      ∙ sym (drop-drop (n - k) k (overwrite f off b))
      ∙ ap (λ l. drop (n - k) (drop k l)) (sym (append_assoc (take off f) b (drop k f)))
      ∙ ap (drop (n - k)) (drop-append k front (drop k f) size)
      ∙ drop-drop (n - k) k f
      ∙ ap (λ m. drop m f) at

-- The offset of the slot that is not active.
abbrev pub slot : Engine → ℕ
slot e = if e.headers.active == 1 then 0 else header_size

abbrev pub switched : Headers → FileHeader → Headers
switched hs h =
    if hs.active == 1
    then record { header_a = h; header_b = hs.header_b; active = 0 }
    else record { header_a = hs.header_a; header_b = h; active = 1 }

module _ (e : Engine) (calm : e.plan ≡ []) where
  abbrev pub null : FileHeader
  null = null_header (active_header_ref e)

  pub write_null_calm : write_null_snapshot_header e ≡ (
    ok tt,
    record e {
      file = overwrite e.file (slot e) (to_bytes null);
      headers = switched e.headers null;
    },
  )
  unfolding write_null_snapshot_header write_inactive_header switch_header
  write_null_calm =
      let written = record e { file = overwrite e.file (slot e) (to_bytes null) } in
      rw (write_header_at_calm e calm (slot e) (to_bytes null), sync_calm written calm)

  slot_fits : slot e + length (to_bytes null) ≤ 8192
  slot_fits = ground (arith, length-to_bytes null)

pub cut_lem : (n : ℕ) (f : List ℕ) → n ≤ length f → cut n f ≡ take n f
cut_lem n f h =
    ap (λ k. take n f ++ replicate k 0) {x = n - length f} {y = 0} (omega arith)
    ∙ append-nil (take n f)

-- The engine after the tail behind the record area was cut off and the headers were flipped.
abbrev pub shortened : Engine → Engine
shortened e = record e { file = cut e.next_offset e.file; mapped = e.next_offset }

abbrev pub flipped : (e : Engine) → e.plan ≡ [] → Engine
flipped e calm =
    let s = shortened e in
    record s {
      file = overwrite s.file (slot s) (to_bytes (null s calm));
      headers = switched s.headers (null s calm);
    }

pub flipped-Trims : (e : Engine) (calm : e.plan ≡ []) → IsReady e → Trims e (flipped e calm)
flipped-Trims e calm r =
    let s = shortened e in
    let h = to_bytes (null s calm) in
    let short : s.file ≡ take e.next_offset e.file = cut_lem e.next_offset e.file r.room in
    let size : length s.file ≡ e.next_offset =
      ap length short ∙ omega (arith, length-take e.next_offset e.file, r.room) in
    let fits : slot s + length h ≤ 8192 = slot_fits s calm in
    let inside : slot s + length h ≤ length s.file = omega (arith, fits, size, r.area) in
    let size' : length (overwrite s.file (slot s) h) ≡ length s.file =
      length-overwrite s.file (slot s) h inside in
    record {
      calm = calm;
      opened = r.opened;
      index = refl;
      next = refl;
      whole = sym (size' ∙ size);
      room = omega (arith, size, size');
      keeps = λ off fr low high clean.
          record_data-drop s.file (overwrite s.file (slot s) h) 8192 off fr
            (subst (λ l. record_data l off ≡ ok fr) (sym short)
              (record_data-take e.file e.next_offset off fr clean high))
            low (drop-overwrite s.file (slot s) h 8192 fits inside) size';
    }

same-Trims : (e : Engine) → e.plan ≡ [] → IsReady e → Trims e e
same-Trims e calm r = record {
  calm = calm;
  opened = r.opened;
  index = refl;
  next = refl;
  whole = r.whole;
  room = r.room;
  keeps = λ off fr low high clean. clean;
}

-- The trim where the snapshot is at the end of the file.
pub trim_tail_snapshot_tail :
    (e : Engine) (calm : e.plan ≡ [])
    → ((active_header_ref e).snapshot_offset == 0 || (active_header_ref e).snapshot_length == 0)
      ≡ false
    → (((active_header_ref e).snapshot_offset + (active_header_ref e).snapshot_length) % 2 ^ 64
        == length (mmap e))
      ≡ true
    → trim_tail_snapshot e ≡ (ok tt, flipped e calm)
unfolding trim_tail_snapshot
trim_tail_snapshot_tail e calm blob tail =
    rw (blob, tail, truncate_tail_calm e calm e.next_offset) (write_null_calm (shortened e) calm)

-- The trim succeeds, and no frame of the record area and no entry of the index is touched by it.
pub trim_tail_snapshot-Trims :
    (e : Engine)
    → e.plan ≡ []
    → IsReady e
    → (e' : Engine) × (trim_tail_snapshot e ≡ (ok tt, e')) × Trims e e'
unfolding trim_tail_snapshot
trim_tail_snapshot-Trims e calm r =
    let h = active_header_ref e in
    elim (Bool-cases (h.snapshot_offset == 0 || h.snapshot_length == 0)) [
      | inl none ↦ (e, rw none, same-Trims e calm r)
      | inr blob ↦
          elim (Bool-cases ((h.snapshot_offset + h.snapshot_length) % 2 ^ 64 == length (mmap e))) [
            | inl tail ↦
                (flipped e calm, trim_tail_snapshot_tail e calm blob tail, flipped-Trims e calm r)
            | inr elsewhere ↦ (e, rw (blob, elsewhere), same-Trims e calm r)
          ]
    ]
