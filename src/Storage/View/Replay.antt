-- ===== src/Storage/View/Replay.antt =====
-- The replay of a log shows the store that the log stands for.
use mem_hop.Prelude.{
  ℕ, ◌+◌, ◌≤◌, ◌≡◌, ◌∙◌, sym, ap, List, [], ◌∷◌, ◌++◌, ◌==◌, length, length-append, append_assoc,
  arith, All, Bool-cases, inl, inr,
}
use Prim.Native.Nat.{bit_and}
use mem_hop.Errors.{ok}
use mem_hop.Storage.Domains.{Index, offset_of-put, offset_of-drop_from_index}
use mem_hop.Storage.Domains.Tidy.{
  IsTidy, put-IsTidy, drop_from_index-IsTidy, total_records-put, total_records-drop_from_index,
}
use mem_hop.Storage.Engine.{total_records}
use mem_hop.Storage.Frame.{Frame, record_data, flag_deleted}
use mem_hop.Storage.Frame.RoundTrip.{encode, IsStorable, length-encode_record, record_data-encode}
use mem_hop.Storage.Recovery.{apply_frame}
use mem_hop.Storage.Recovery.Log.{log_bytes, replay}
use mem_hop.Storage.View.{View, after, view, Shows, Shows-after, Entered}

apply_frame-Entered :
    (fr : Frame) (p : ℕ) (index : Index) → Entered fr p index (apply_frame fr p index)
unfolding apply_frame
apply_frame-Entered fr p index b j = elim (Bool-cases (bit_and fr.flags flag_deleted == 0)) [
  | inl live ↦ rw (live, apply_frame) (offset_of-put index fr.agent_id fr.id_hash p b j)
  | inr dead ↦ rw (dead, apply_frame) (offset_of-drop_from_index index fr.agent_id fr.id_hash b j)
]

-- A log that stands in the file behind the headers, replayed over an index that shows `v`.
pub replay-Shows :
    (log : List Frame) (mm pre rest : List ℕ) (p end : ℕ) (index : Index) (v : View)
    → mm ≡ pre ++ (log_bytes log ++ rest)
    → length pre ≡ p
    → 8192 ≤ p
    → p + length (log_bytes log) ≤ end
    → All IsStorable log
    → Shows mm end index v
    → Shows mm end (replay log p index) (view log v)
replay-Shows [] mm pre rest p end index v e lp low high s shows = shows
replay-Shows (fr ∷ log) mm pre rest p end index v e lp low high s shows =
    let size = length-encode_record fr.agent_id fr.record_type fr.flags fr.id_hash fr.payload in
    let whole = length-append (encode fr) (log_bytes log) in
    let clean : record_data mm p ≡ ok fr =
      ap (λ l. record_data l p)
        (e ∙ ap (λ l. pre ++ l) (append_assoc (encode fr) (log_bytes log) rest))
      ∙ ap (record_data (pre ++ (encode fr ++ (log_bytes log ++ rest)))) (sym lp)
      ∙ record_data-encode fr pre (log_bytes log ++ rest) s.0 in
    replay-Shows log mm (pre ++ encode fr) rest (p + 26 + length fr.payload) end
      (apply_frame fr p index) (after fr v) (e ∙ simp append_assoc)
      (omega (arith, length-append pre (encode fr), size, lp)) (omega arith)
      (omega (arith, size, whole)) s.1
      (Shows-after mm mm end end p fr index (apply_frame fr p index) v (λ off x a b h. h)
        (omega arith) clean s.0.typed low (omega (arith, size, whole))
        (apply_frame-Entered fr p index) shows)

apply_frame-IsTidy :
    (fr : Frame) (p : ℕ) (index : Index)
    → IsStorable fr
    → IsTidy index
    → IsTidy (apply_frame fr p index)
unfolding apply_frame
apply_frame-IsTidy fr p index s t = elim (Bool-cases (bit_and fr.flags flag_deleted == 0)) [
  | inl live ↦ rw (live, apply_frame) (put-IsTidy index fr.agent_id fr.id_hash p s.agent s.id t)
  | inr dead ↦
      rw (dead, apply_frame) (drop_from_index-IsTidy index fr.agent_id fr.id_hash s.agent t)
]

total_records-apply_frame :
    (fr : Frame) (p : ℕ) (index : Index)
    → total_records (apply_frame fr p index) ≤ total_records index + 1
unfolding apply_frame
total_records-apply_frame fr p index = elim (Bool-cases (bit_and fr.flags flag_deleted == 0)) [
  | inl live ↦ rw (live, apply_frame) (total_records-put index fr.agent_id fr.id_hash p)
  | inr dead ↦
      rw (dead, apply_frame)
        (omega (arith, total_records-drop_from_index index fr.agent_id fr.id_hash))
]

-- The replayed index has no key twice, and at most one record for each frame.
pub replay-IsTidy :
    (log : List Frame) (p : ℕ) (index : Index)
    → All IsStorable log
    → IsTidy index
    → IsTidy (replay log p index)
      × (total_records (replay log p index) ≤ total_records index + length log)
replay-IsTidy [] p index s t = (t, omega arith)
replay-IsTidy (fr ∷ log) p index s t =
    let next = apply_frame fr p index in
    let (tidy, few) =
      replay-IsTidy log (p + 26 + length fr.payload) next s.1
        (apply_frame-IsTidy fr p index s.0 t) in
    (tidy, omega (arith, few, total_records-apply_frame fr p index))
