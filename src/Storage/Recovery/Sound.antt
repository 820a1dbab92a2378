-- ===== src/Storage/Recovery/Sound.antt =====
-- The scan of arbitrary bytes: it ends, inside the mapping, and every entry of the index that it
-- leaves names a whole frame of that record or was there at the start.
use Prim.Native.Nat.{bit_and}
use mem_hop.Prelude.{
  ℕ, zero, suc, ◌+◌, ◌-◌, ◌<◌, ◌≤◌, ◌≡◌, refl, ◌∙◌, List, arith, ◌==◌, ◌&&◌, ◌⊎◌, drop, ==_iff,
  Bool, true, false, Bool-cases, inl, inr, Option, none, some, length, if◌then◌else◌, Option-cases,
}
use mem_hop.Prelude.Map.{get, put, inner}
use mem_hop.Errors.{Code, Result, ok, err, eof, corruption, crc_mismatch, Result-cases}
use mem_hop.Storage.Domains.{
  Index, offset_of, offset_of-put, offset_of-drop_from_index, drop_from_index,
}
use mem_hop.Storage.Frame.{Frame, record_data, decode_frame, flag_deleted}
use mem_hop.Storage.Frame.RoundTrip.{record_data-fits}
use mem_hop.Storage.Recovery.{
  apply_frame, cursor_in_snapshot_area, resync_loop, resync_scan, Scan, stop_at, scan_loop,
  scan_records,
}

-- A frame of record (a, id) that is no tombstone reads clean at `off`.
abbrev pub Names : List ℕ → ℕ → ℕ → ℕ → Type 0
Names mm a id off =
    (fr : Frame) × (record_data mm off ≡ ok fr)
    × (fr.agent_id ≡ a)
    × (fr.id_hash ≡ id)
    × (bit_and fr.flags flag_deleted ≡ 0)

-- Every entry names a live frame of its record, or is one of the index that the scan began with.
pub record IsSound (mm : List ℕ) (base index : Index) : Type 0 where
  pub entry :
      (a id off : ℕ)
      → offset_of index a id ≡ some off
      → Names mm a id off ⊎ (offset_of base a id ≡ some off)

put-IsSound :
    (mm : List ℕ) (fr : Frame) (off : ℕ) (base index : Index) (a id o : ℕ)
    → record_data mm off ≡ ok fr
    → bit_and fr.flags flag_deleted ≡ 0
    → IsSound mm base index
    → offset_of (put index fr.agent_id (put (inner (get index fr.agent_id)) fr.id_hash off)) a id
      ≡ some o
    → Names mm a id o ⊎ (offset_of base a id ≡ some o)
put-IsSound mm fr off base index a id o e live s h =
    let law = offset_of-put index fr.agent_id fr.id_hash off a id in
    elim (Bool-cases (fr.agent_id == a && fr.id_hash == id)) [
      | inl same ↦
          let at_o : off ≡ o = ground (arith, law, h, same) in
          inl (fr, rw (← at_o) e, ground (arith, same), ground (arith, same), live)
      | inr other ↦ s.entry a id o (ground (arith, law, h, other))
    ]

drop-IsSound :
    (mm : List ℕ) (base index : Index) (b j a id o : ℕ)
    → IsSound mm base index
    → offset_of (drop_from_index index b j) a id ≡ some o
    → Names mm a id o ⊎ (offset_of base a id ≡ some o)
drop-IsSound mm base index b j a id o s h =
    s.entry a id o (ground (arith, offset_of-drop_from_index index b j a id, h))

apply_frame-IsSound :
    (mm : List ℕ) (fr : Frame) (off : ℕ) (base index : Index)
    → record_data mm off ≡ ok fr
    → IsSound mm base index
    → IsSound mm base (apply_frame fr off index)
unfolding apply_frame
apply_frame-IsSound mm fr off base index e s =
    elim (Bool-cases (bit_and fr.flags flag_deleted == 0)) [
      | inl live ↦ record {
        entry = λ a id o h.
            put-IsSound mm fr off base index a id o e ((==_iff _ _).0 live) s (rw live at h);
      }
      | inr dead ↦ record {
        entry =
            λ a id o h. drop-IsSound mm base index fr.agent_id fr.id_hash a id o s (rw dead at h);
      }
    ]

-- The next offset that reads clean lies behind the cursor and inside the mapping.
resync_loop_bounds :
    (mm : List ℕ) (n off next : ℕ)
    → resync_loop mm n off ≡ some next
    → (off ≤ next) × (next ≤ length mm)
unfolding resync_loop
resync_loop_bounds mm zero off next h = cc
resync_loop_bounds mm (suc n) off next h = elim (Result-cases (record_data mm off)) [
  | inl (fr, e) ↦
      let same : off ≡ next = ground (arith, e) in omega (arith, record_data-fits mm off fr e)
  | inr (c, e) ↦
      let rest = resync_loop_bounds mm n (off + 1) next (rw (e, resync_loop) at h) in
      omega (arith, rest)
]

resync_scan_bounds :
    (mm : List ℕ) (from next : ℕ)
    → resync_scan mm from ≡ some next
    → (from ≤ next) × (next ≤ length mm)
unfolding resync_scan
resync_scan_bounds mm from next h = resync_loop_bounds mm (length mm - from) from next h

-- RecordData fails in three ways only.
decode_frame_codes :
    (rest : List ℕ) (c : Code)
    → decode_frame rest ≡ err c
    → (c ≡ eof) ⊎ ((c ≡ crc_mismatch) ⊎ (c ≡ corruption))
unfolding decode_frame
decode_frame_codes rest c h = ground arith

record_data_codes :
    (mm : List ℕ) (off : ℕ) (c : Code)
    → record_data mm off ≡ err c
    → (c ≡ eof) ⊎ ((c ≡ crc_mismatch) ⊎ (c ≡ corruption))
unfolding record_data
record_data_codes mm off c h = ground (arith, decode_frame_codes (drop off mm) c)

-- What a finished scan of `mm` from `start` leaves.
pub record IsScan (mm : List ℕ) (base : Index) (start : ℕ) (r : Scan) : Type 0 where
  pub sound : IsSound mm base r.index
  pub forward : start ≤ r.end
  pub inside : r.end ≤ length mm

abbrev Ends : List ℕ → Index → ℕ → Option (Result Scan) → Type 0
Ends mm base start o = (r : Scan) × (o ≡ some (ok r)) × IsScan mm base start r

module _ (mm : List ℕ) (snap fuel p : ℕ) (index : Index) where
  at_eof : record_data mm p ≡ err eof → scan_loop mm snap (suc fuel) p index ≡ stop_at index p false
  unfolding scan_loop
  at_eof e = rw (e, scan_loop)

  at_damage :
      (c : Code) (b : Bool) (o : Option ℕ)
      → record_data mm p ≡ err c
      → (c ≡ crc_mismatch) ⊎ (c ≡ corruption)
      → cursor_in_snapshot_area snap p ≡ b
      → resync_scan mm (p + 1) ≡ o
      → scan_loop mm snap (suc fuel) p index ≡ (
          if b then stop_at index p true else elim o [
            | none ↦ stop_at index p true
            | some next ↦ scan_loop mm snap fuel next index
          ])
  unfolding scan_loop
  at_damage c b o e (inl k) cur re = rw (e, k, cur, re, scan_loop)
  at_damage c b o e (inr k) cur re = rw (e, k, cur, re, scan_loop)

scan_loop-Ends :
    (mm : List ℕ) (snap fuel p : ℕ) (base index : Index)
    → p ≤ length mm
    → length mm - p < fuel
    → IsSound mm base index
    → Ends mm base p (scan_loop mm snap fuel p index)
unfolding scan_loop
scan_loop-Ends mm snap zero p base index le f s = absurd (omega arith)
scan_loop-Ends mm snap (suc fuel) p base index le f s = elim (Result-cases (record_data mm p)) [
  | inl (fr, e) ↦
      let fits = record_data-fits mm p fr e in
      let (r, eq, i) =
        scan_loop-Ends mm snap fuel (p + 26 + length fr.payload) base (apply_frame fr p index)
          (omega (arith, fits)) (omega (arith, fits))
          (apply_frame-IsSound mm fr p base index e s) in
      (
        r,
        rw (e, scan_loop) eq,
        record { sound = i.sound; forward = omega (arith, i.forward); inside = i.inside },
      )
  | inr (c, e) ↦ elim (record_data_codes mm p c e) [
    | inl k ↦ (
      _,
      at_eof mm snap fuel p index (rw k at e),
      record { sound = s; forward = omega arith; inside = le },
    )
    | inr k ↦ elim (Bool-cases (cursor_in_snapshot_area snap p)) [
      | inl cur ↦
          let eq = at_damage mm snap fuel p index c true (resync_scan mm (p + 1)) e k cur refl in
          (_, eq, record { sound = s; forward = omega arith; inside = le })
      | inr cur ↦ elim (Option-cases (resync_scan mm (p + 1))) [
        | inl re ↦
            let eq = at_damage mm snap fuel p index c false none e k cur re in
            (_, eq, record { sound = s; forward = omega arith; inside = le })
        | inr (next, re) ↦
            let eq = at_damage mm snap fuel p index c false (some next) e k cur re in
            let (low, high) = resync_scan_bounds mm (p + 1) next re in
            let (r, eq', i) =
              scan_loop-Ends mm snap fuel next base index high (omega (arith, low, high)) s in
            (
              r,
              eq ∙ eq',
              record {
                sound = i.sound;
                forward = omega (arith, i.forward, low);
                inside = i.inside;
              },
            )
      ]
    ]
  ]
]

-- From a start inside the mapping and from any index, such as that of a snapshot, whatever bytes the mapping
-- holds: the scan ends without an error, inside the mapping, with an index every entry of which names a
-- whole frame of that record that is no tombstone, or is an entry that the index had at the start.
pub scan_records-Ends :
    (mm : List ℕ) (snap start : ℕ) (index : Index)
    → start ≤ length mm
    → (r : Scan) × (scan_records mm snap start index ≡ some (ok r)) × IsScan mm index start r
unfolding scan_records
scan_records-Ends mm snap start index le =
    scan_loop-Ends mm snap (length mm - start + 1) start index index le (omega arith)
      (record { entry = λ a id off h. inr h })
