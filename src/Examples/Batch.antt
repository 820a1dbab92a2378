-- ===== src/Examples/Batch.antt =====
-- Batches and compaction on a new database.
use mem_hop.Prelude.{
  ℕ, ◌<◌, ◌+◌, ◌*◌, ◌^◌, ◌≡◌, refl, List, [], ◌∷◌, ◌&&◌, ◌==◌, All, arith, length, keep_if,
  contains, ◌++◌, ap, ◌∙◌, length-append,
}
use mem_hop.Prelude.Map.{get, put, delete}
use mem_hop.Errors.{ok}
use mem_hop.Storage.Frame.RoundTrip.{IsStorable, encode, length-encode_record}
use mem_hop.Storage.Frame.{Frame}
use mem_hop.Storage.Engine.{Engine, mmap}
use mem_hop.Storage.Read.{read_record}
use mem_hop.Storage.Write.{RecordEntry, write_record_batch, index_one}
use mem_hop.Storage.Delete.{delete_record_batch}
use mem_hop.Storage.Lifecycle.{blank, open_engine}
use mem_hop.Storage.Recovery.Log.{log_bytes}
use mem_hop.Storage.Fresh.{created, created-IsReady}
use mem_hop.Storage.Ready.{IsReady}
use mem_hop.Storage.Store.{frame_of, entry_of, stored, stored_frame}
use mem_hop.Storage.Store.Bare.{IsBare, stored-IsBare}
use mem_hop.Storage.Store.Sealed.{IsSealed, IsBare-IsKept, mmap_whole}
use mem_hop.Storage.Store.Batch.{frame_of_entry, latest, over}
use mem_hop.Storage.Store.Batch.Read.{write_record_batch-read_record}
use mem_hop.Storage.Store.Batch.Log.{frames_of}
use mem_hop.Storage.Store.Purge.{without, is_live, delete_record_batch-read_record}
use mem_hop.Storage.Store.History.{created-IsBare}
use mem_hop.Storage.Compact.{compact}
use mem_hop.Storage.Compact.Copy.{kept_log, compact-open_engine}
use mem_hop.Storage.Compact.Live.{add_live, live_records}
use mem_hop.Storage.Compact.Damage.{Reads, compact-Reads}

abbrev batch : List RecordEntry
batch = entry_of 1 4 10 (5 ∷ []) ∷ entry_of 2 5 11 [] ∷ entry_of 1 4 10 (6 ∷ []) ∷ []

batch-IsStorable : All (λ r. IsStorable (frame_of_entry r)) batch
batch-IsStorable = (
  record { typed = omega arith; sized = omega arith; agent = omega arith; id = omega arith },
  (
    record { typed = omega arith; sized = omega arith; agent = omega arith; id = omega arith },
    (
      record { typed = omega arith; sized = omega arith; agent = omega arith; id = omega arith },
      tt,
    ),
  ),
)

write_record_batch-read_record_example :
    (offsets : List ℕ) × (e' : Engine) × (write_record_batch batch created ≡ (ok offsets, e'))
    × IsReady e'
    × (e'.plan ≡ [])
    × ((b j : ℕ) → read_record e' b j ≡ over (latest batch b j) (read_record created b j))
write_record_batch-read_record_example =
    write_record_batch-read_record batch created refl created-IsReady batch-IsStorable

abbrev filled :
    (offsets : List ℕ) × (e' : Engine) × (write_record_batch batch created ≡ (ok offsets, e'))
    × IsReady e'
    × (e'.plan ≡ [])
    × ((b j : ℕ) → read_record e' b j ≡ over (latest batch b j) (read_record created b j))
filled = write_record_batch-read_record batch created refl created-IsReady batch-IsStorable

delete_record_batch-read_record_example :
    (e' : Engine) × (delete_record_batch 1 (10 ∷ 7 ∷ []) filled.1
      ≡ (ok (length (keep_if (is_live filled.1 1) (10 ∷ 7 ∷ []))), e'))
    × IsReady e'
    × (e'.plan ≡ [])
    × ((b j : ℕ)
        → read_record e' b j
          ≡ without (1 == b && contains (10 ∷ 7 ∷ []) j) (read_record filled.1 b j))
delete_record_batch-read_record_example =
    delete_record_batch-read_record filled.1 filled.4 filled.3 1 (10 ∷ 7 ∷ [])

-- A database of one record, and its compaction.
abbrev record_frame : Frame
record_frame = frame_of 1 4 10 (5 ∷ 6 ∷ [])

record_frame-IsStorable : IsStorable record_frame
record_frame-IsStorable = record {
  typed = omega arith;
  sized = omega arith;
  agent = omega arith;
  id = omega arith;
}

abbrev engine : Engine
engine = stored created refl 1 4 10 (5 ∷ 6 ∷ [])

engine-IsBare : IsBare engine (record_frame ∷ []) 0
engine-IsBare =
    stored-IsBare created [] 0 1 4 10 (5 ∷ 6 ∷ []) created-IsBare record_frame-IsStorable

engine_index : engine.index ≡ (1, (10, length created.file) ∷ []) ∷ []
unfolding index_one put delete get
engine_index = refl

kept : kept_log engine ≡ record_frame ∷ []
unfolding index_one put delete get
kept =
    ap (λ l. frames_of (live_records l engine.index)) (mmap_whole engine engine-IsBare.whole)
    ∙ ap (λ r. frames_of (add_live 1 10 r [] ++ []))
        (stored_frame created refl 1 4 10 (5 ∷ 6 ∷ []) record_frame-IsStorable)

kept_size :
    8192 + length (log_bytes (kept_log engine)) + (13 + 28 * length (kept_log engine)) < 256 ^ 4
kept_size = rw kept (
    omega
      (arith, length-append (encode record_frame) [], length-encode_record 1 4 0 10 (5 ∷ 6 ∷ [])))

compact-open_engine_example :
    (e₁ : Engine) × (e₂ : Engine) × (compact engine (blank (9 ∷ []) []) ≡ (ok tt, e₁))
    × (open_engine (blank e₁.file []) ≡ (ok tt, e₂))
    × IsSealed e₂ (kept_log engine) 1
    × ((b j : ℕ) → read_record e₂ b j ≡ read_record engine b j)
compact-open_engine_example =
    compact-open_engine engine (record_frame ∷ []) [] (9 ∷ []) 0
      (IsBare-IsKept engine (record_frame ∷ []) 0 engine-IsBare) engine-IsBare.opened kept_size

abbrev compacted :
    (e₁ : Engine) × (e₂ : Engine) × (compact engine (blank (9 ∷ []) []) ≡ (ok tt, e₁))
    × (open_engine (blank e₁.file []) ≡ (ok tt, e₂))
    × IsSealed e₂ (kept_log engine) 1
    × ((b j : ℕ) → read_record e₂ b j ≡ read_record engine b j)
compacted =
    compact-open_engine engine (record_frame ∷ []) [] (9 ∷ []) 0
      (IsBare-IsKept engine (record_frame ∷ []) 0 engine-IsBare) engine-IsBare.opened kept_size

compact-Reads_example : All (λ s. All (Reads (mmap engine)) s.1) engine.index
compact-Reads_example = compact-Reads engine (blank (9 ∷ []) []) compacted.0 compacted.2
