-- ===== src/Examples/History.antt =====
-- A short history of a database: two writes, a crash in the middle of a third, a checkpoint, a deletion
-- behind it, a restart, and a crash that leaves no bytes.
use mem_hop.Prelude.{ℕ, ◌≡◌, List, [], ◌∷◌, false, arith}
use mem_hop.Errors.{ok}
use mem_hop.Storage.Frame.RoundTrip.{IsStorable}
use mem_hop.Storage.Engine.{Engine, ◌>>◌}
use mem_hop.Storage.Read.{read_record}
use mem_hop.Storage.Lifecycle.{blank, create}
use mem_hop.Storage.View.{nothing, answer}
use mem_hop.Storage.Store.{frame_of}
use mem_hop.Storage.Store.Event.{Event, write, delete, save, restart, crash, run, store_of, AllFit}
use mem_hop.Storage.Store.History.{run-read_record}

abbrev events : List Event
events =
    write 1 4 10 (5 ∷ 6 ∷ [])
    ∷ write 1 4 11 []
    ∷ crash (1 ∷ 4 ∷ 0 ∷ [])
    ∷ save
    ∷ delete 1 10
    ∷ restart
    ∷ crash []
    ∷ []

first-IsStorable : IsStorable (frame_of 1 4 10 (5 ∷ 6 ∷ []))
first-IsStorable = record {
  typed = omega arith;
  sized = omega arith;
  agent = omega arith;
  id = omega arith;
}

second-IsStorable : IsStorable (frame_of 1 4 11 [])
second-IsStorable = record {
  typed = omega arith;
  sized = omega arith;
  agent = omega arith;
  id = omega arith;
}

events_fit : AllFit events false
events_fit = (
  first-IsStorable,
  (second-IsStorable, (omega arith, (tt, ((omega arith, omega arith), (tt, (omega arith, tt)))))),
)

run-read_record_example :
    (e : Engine) × ((create >> run events) (blank (9 ∷ []) []) ≡ (ok tt, e))
    × ((a i : ℕ) → read_record e a i ≡ answer (store_of events nothing a i))
run-read_record_example = run-read_record (9 ∷ []) events events_fit (omega arith) (omega arith)
