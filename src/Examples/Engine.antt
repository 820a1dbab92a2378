-- ===== src/Examples/Engine.antt =====
-- The storage engine on a new database, and on one with a record in it.
use mem_hop.Prelude.{
  ℕ, refl, ◌≡◌, List, [], ◌∷◌, ◌++◌, false, ◌&&◌, ◌==◌, arith, length, length-append, ◌∙◌, ◌+◌, ◌*◌,
  ◌≤◌, if◌then◌else◌,
}
use mem_hop.Errors.{ok}
use mem_hop.Storage.Frame.{Frame}
use mem_hop.Storage.Frame.RoundTrip.{IsStorable}
use mem_hop.Storage.Engine.{Engine}
use mem_hop.Storage.Read.{read_record}
use mem_hop.Storage.Write.{write_record}
use mem_hop.Storage.Lifecycle.{blank, open_engine, close}
use mem_hop.Storage.Fresh.{created, created-IsReady}
use mem_hop.Storage.Ready.{IsReady}
use mem_hop.Storage.Store.{frame_of, write_record-read_record}
use mem_hop.Storage.Store.Bare.{IsBare, write_record-trimmed, trim_tail_snapshot_bare}
use mem_hop.Storage.Store.Forget.{Deleted, delete_record-At}
use mem_hop.Storage.Store.Sealed.{IsSealed, IsBare-IsKept, length-IsBare}
use mem_hop.Storage.Store.Close.{close-open_engine}
use mem_hop.Storage.Frame.RoundTrip.{encode, length-encode_record}
use mem_hop.Storage.Store.Reopen.{open_engine-crashed}
use mem_hop.Storage.Store.History.{created-IsBare}

abbrev pub record_frame : Frame
record_frame = frame_of 1 4 10 (5 ∷ 6 ∷ [])

pub record_frame-IsStorable : IsStorable record_frame
record_frame-IsStorable = record {
  typed = omega arith;
  sized = omega arith;
  agent = omega arith;
  id = omega arith;
}

abbrev log : List Frame
log = record_frame ∷ []

abbrev written :
    (off : ℕ) × (e : Engine) × (write_record 1 4 10 (5 ∷ 6 ∷ []) created ≡ (ok off, e))
    × IsBare e log 0
written =
    write_record-trimmed created created [] 0 1 4 10 (5 ∷ 6 ∷ []) refl
      (trim_tail_snapshot_bare created created-IsBare.settled) created-IsBare
      record_frame-IsStorable

abbrev engine : Engine
engine = written.1

write_record-read_record_example :
    (off : ℕ) × (e : Engine) × (write_record 1 4 10 (5 ∷ 6 ∷ []) created ≡ (ok off, e))
    × IsReady e
    × (e.plan ≡ [])
    × ((b j : ℕ)
        → read_record e b j
          ≡ (if 1 == b && 10 == j then ok (4, 5 ∷ 6 ∷ []) else read_record created b j))
write_record-read_record_example =
    write_record-read_record created 1 4 10 (5 ∷ 6 ∷ []) refl created-IsReady
      record_frame-IsStorable

written_size : length engine.file ≡ 8220
written_size =
    length-IsBare engine log 0 written.3
    ∙ omega
        (arith, length-append (encode record_frame) [], length-encode_record 1 4 0 10 (5 ∷ 6 ∷ []))

delete_record-At_example : Deleted engine log 0 false 1 10
delete_record-At_example =
    delete_record-At engine log 0 false 1 10 written.3 (omega arith) (omega arith) (omega arith)

open_engine-crashed_example :
    (e : Engine) × (open_engine (blank (engine.file ++ (1 ∷ 4 ∷ [])) []) ≡ (ok tt, e))
    × IsBare e log 0
open_engine-crashed_example = open_engine-crashed engine log 0 written.3 (1 ∷ 4 ∷ []) (omega arith)

close-open_engine_example :
    (e₁ : Engine) × (e₂ : Engine) × (close engine ≡ (ok tt, e₁))
    × (open_engine (blank e₁.file []) ≡ (ok tt, e₂))
    × IsSealed e₂ log 1
    × (e₂.is_closed ≡ false)
    × (length e₂.file ≤ length engine.file + (13 + 28 * 1))
close-open_engine_example =
    close-open_engine engine log [] 0 (IsBare-IsKept engine log 0 written.3) written.3.opened
      (omega arith) (omega (arith, written_size))
