-- ===== src/Storage/Store/Bury.antt =====
-- The deletion of a record from an engine with a log and no snapshot: its tombstone joins the log.
use mem_hop.Prelude.{
  ℕ, zero, suc, drop, ◌<◌, ◌^◌, ◌≡◌, refl, sym, ap, ◌∙◌, List, [], ◌∷◌, ◌++◌, true, false, some,
  length, arith, length-append, take, take-all,
}
use mem_hop.Errors.{ok}
use mem_hop.Storage.Domains.{offset_of}
use mem_hop.Storage.Frame.{Frame, record_data, byte_at, decode_frame, flag_deleted}
use mem_hop.Storage.Frame.RoundTrip.{IsStorable, encode}
use mem_hop.Storage.Engine.{Engine, mmap}
use mem_hop.Storage.Delete.{delete_record, old_type}
use mem_hop.Storage.Tail.{trim_tail_snapshot}
use mem_hop.Storage.Store.Erase.{reindexed, buried, delete_record_calm}
use mem_hop.Storage.Store.Bare.{IsBare, grown-IsBare}

byte_at-drop : (off : ℕ) (mm : List ℕ) → byte_at (drop off mm) 0 ≡ byte_at mm off
byte_at-drop zero mm = refl
byte_at-drop (suc off) [] = refl
byte_at-drop (suc off) (x ∷ mm) = byte_at-drop off mm

decode_frame_type :
    (rest : List ℕ) (fr : Frame) → decode_frame rest ≡ ok fr → byte_at rest 0 ≡ fr.record_type
unfolding decode_frame
decode_frame_type rest fr h = ground arith

-- The type byte that a tombstone copies is the type of the frame it buries.
pub old_type_lem :
    (mm : List ℕ) (off : ℕ) (fr : Frame)
    → record_data mm off ≡ ok fr
    → old_type mm off ≡ fr.record_type
unfolding record_data
old_type_lem mm off fr h = ground (arith, decode_frame_type (drop off mm) fr, byte_at-drop off mm)

-- The tombstone's frame.
abbrev pub grave : Engine → ℕ → ℕ → ℕ → Frame
grave e a i off = record {
  record_type = old_type (mmap e) off;
  flags = flag_deleted;
  payload = [];
  agent_id = a;
  id_hash = i;
}

grave-IsStorable :
    (e : Engine) (log : List Frame) (c a i off : ℕ)
    → IsBare e log c
    → a < 256 ^ 8
    → i < 256 ^ 8
    → offset_of e.index a i ≡ some off
    → IsStorable (grave e a i off)
grave-IsStorable e log c a i off b la li there =
    let (fr, clean, ea, ei, typed, low, high, eq) = b.shows.at a i (some off) there in
    let kind : old_type (mmap e) off ≡ fr.record_type =
      ap (λ l. old_type l off)
        (ap (λ n. take n e.file) b.whole ∙ take-all (length e.file) e.file (omega arith))
      ∙ old_type_lem e.file off fr clean in
    record { typed = omega (arith, kind); sized = omega arith; agent = la; id = li }

-- The deletion of a record that the index leads to succeeds and adds its tombstone to the log, where the
-- trim of the open engine `before` leaves such an engine.
pub delete_record-trimmed :
    (before e : Engine) (log : List Frame) (c a i off : ℕ)
    → before.is_closed ≡ false
    → offset_of before.index a i ≡ some off
    → old_type (mmap before) off ≡ old_type (mmap e) off
    → trim_tail_snapshot before ≡ (ok tt, e)
    → IsBare e log c
    → a < 256 ^ 8
    → i < 256 ^ 8
    → offset_of e.index a i ≡ some off
    → (e' : Engine) × (delete_record a i before ≡ (ok true, e'))
      × IsBare e' (log ++ (grave e a i off ∷ [])) c
delete_record-trimmed before e log c a i off opened known kind trimmed b la li there =
    let (index, types, eq, tidy, fewer, law) =
      delete_record_calm e b.calm a i off there before opened known kind trimmed in
    let e' = reindexed (buried e b.calm a i off there) index types in
    let fr = grave e a i off in
    (
      e',
      eq,
      grown-IsBare e e' log c fr b (grave-IsStorable e log c a i off b la li there) refl refl refl
          refl refl (sym (length-append e.file (encode fr))) law (tidy la b.tidy)
          (omega (arith, fewer)),
    )
