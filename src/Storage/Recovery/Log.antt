-- ===== src/Storage/Recovery/Log.antt =====
-- The scan of a log that the engine wrote: the index it rebuilds, and what a torn tail costs.
use mem_hop.Prelude.{
  ℕ, zero, suc, ◌+◌, ◌-◌, ◌<◌, ◌≤◌, ◌≡◌, refl, ap, ◌∙◌, List, [], ◌∷◌, ◌++◌, arith, ◌==◌, not, inl,
  inr, none, some, length, All, length-append, append_assoc,
}
use mem_hop.Errors.{Result-cases, ok}
use mem_hop.Storage.Domains.{Index}
use mem_hop.Storage.Frame.{Frame, record_data}
use mem_hop.Storage.Frame.RoundTrip.{
  encode, IsStorable, length-encode_record, record_data-encode, record_data_end, record_data-fits,
}
use mem_hop.Storage.Recovery.{
  apply_frame, resync_loop, resync_scan, stop_at, scan_loop, scan_records,
}

-- The bytes of a log, and the index that its frames leave when the first one stands at `offset`.
abbrev pub log_bytes : List Frame → List ℕ
log_bytes [] = []
log_bytes (fr ∷ log) = encode fr ++ log_bytes log

abbrev pub replay : List Frame → ℕ → Index → Index
replay [] offset index = index
replay (fr ∷ log) offset index =
    replay log (offset + 26 + length fr.payload) (apply_frame fr offset index)

-- One unit of fuel for each frame.
abbrev pub fuel_for : List Frame → ℕ → ℕ
fuel_for [] fuel = fuel
fuel_for (fr ∷ log) fuel = suc (fuel_for log fuel)

fuel_for_lem : (log : List Frame) (fuel : ℕ) → fuel_for log fuel ≡ length log + fuel
fuel_for_lem [] fuel = omega arith
fuel_for_lem (fr ∷ log) fuel = omega (arith, fuel_for_lem log fuel)

length-encode : (fr : Frame) → length (encode fr) ≡ 26 + length fr.payload
length-encode fr = length-encode_record fr.agent_id fr.record_type fr.flags fr.id_hash fr.payload

log_size : (log : List Frame) → length log ≤ length (log_bytes log)
log_size [] = omega arith
log_size (fr ∷ log) =
    omega (arith, log_size log, length-append (encode fr) (log_bytes log), length-encode fr)

-- The scan goes through a log frame by frame, whatever stands behind it.
scan_loop-log :
    (log : List Frame) (mm pre rest : List ℕ) (snap p fuel : ℕ) (index : Index)
    → mm ≡ pre ++ (log_bytes log ++ rest)
    → length pre ≡ p
    → All IsStorable log
    → scan_loop mm snap (fuel_for log fuel) p index
      ≡ scan_loop mm snap fuel (p + length (log_bytes log)) (replay log p index)
unfolding scan_loop
scan_loop-log [] mm pre rest snap p fuel index e lp s =
    ap (λ k. scan_loop mm snap fuel k index) (omega arith)
scan_loop-log (fr ∷ log) mm pre rest snap p fuel index e lp s =
    let here : record_data mm p ≡ ok fr =
      rw (e, ← lp)
        (ap (λ l. record_data (pre ++ l) (length pre))
            (append_assoc (encode fr) (log_bytes log) rest)
          ∙ record_data-encode fr pre (log_bytes log ++ rest) s.0) in
    let q = p + 26 + length fr.payload in
    let next =
      scan_loop-log log mm (pre ++ encode fr) rest snap q fuel (apply_frame fr p index)
        (e ∙ simp append_assoc) (omega (arith, length-append pre (encode fr), length-encode fr))
        s.1 in
    rw (here, scan_loop)
      (next
        ∙ ap (λ k. scan_loop mm snap fuel k (replay log q (apply_frame fr p index)))
            (omega (arith, length-append (encode fr) (log_bytes log), length-encode fr)))

-- No frame starts in the last 25 bytes.
resync_loop_near_end :
    (mm : List ℕ) (n off : ℕ) → length mm < off + 26 → resync_loop mm n off ≡ none
unfolding resync_loop
resync_loop_near_end mm zero off h = refl
resync_loop_near_end mm (suc n) off h = elim (Result-cases (record_data mm off)) [
  | inl (fr, e) ↦ absurd (omega (arith, record_data-fits mm off fr e))
  | inr (c, e) ↦ rw (e, resync_loop) (resync_loop_near_end mm n (off + 1) (omega arith))
]

-- What the scan answers once the log is behind it: the end, or fewer than 26 torn bytes.
scan_loop_stop :
    (mm : List ℕ) (snap fuel p : ℕ) (index : Index)
    → p ≤ length mm
    → length mm < p + 26
    → scan_loop mm snap (suc fuel) p index ≡ stop_at index p (not (p == length mm))
unfolding scan_loop resync_scan
scan_loop_stop mm snap fuel p index le near = ground (
  arith,
  record_data_end mm p near,
  resync_loop_near_end mm (length mm - (p + 1)) (p + 1) (omega arith),
)

at_end : (a b c : ℕ) → b ≡ a + c → (a == b) ≡ (c == 0)
at_end a b c h = ground arith

-- Scanning a log that whole frames make up, with at most 25 bytes of a torn one behind them: the
-- index is the replay of the frames, the record area ends behind the last whole frame, and the
-- torn bytes, if there are any, are to be cut off.
pub scan_records-log :
    (log : List Frame) (pre torn : List ℕ) (snap : ℕ) (index : Index)
    → All IsStorable log
    → length torn < 26
    → scan_records (pre ++ (log_bytes log ++ torn)) snap (length pre) index
      ≡ some (
          ok (record {
            index = replay log (length pre) index;
            end = length pre + length (log_bytes log);
            truncate = not (length torn == 0);
          }))
unfolding scan_records
scan_records-log log pre torn snap index s short =
    let mm = pre ++ (log_bytes log ++ torn) in
    let p = length pre in
    let size = length-append pre (log_bytes log ++ torn) in
    let size' = length-append (log_bytes log) torn in
    let left = length mm - p - length log in
    let enough : length mm - p + 1 ≡ fuel_for log (suc left) =
      omega (arith, fuel_for_lem log (suc left), log_size log, size, size') in
    let q = p + length (log_bytes log) in
    rw enough (
      scan_loop-log log mm pre torn snap p (suc left) index refl refl s
      ∙ scan_loop_stop mm snap left q (replay log p index) (omega (arith, size, size'))
          (omega (arith, size, size'))
      ∙ ap (λ b. stop_at (replay log p index) q (not b))
          (at_end q (length mm) (length torn) (omega (arith, size, size'))))
