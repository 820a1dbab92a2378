-- ===== src/Storage/Store/History.antt =====
-- Histories of a new database: writes, deletions, checkpoints, restarts and crashes in any order.
use mem_hop.Prelude.{
  ℕ, ◌+◌, ◌<◌, ◌≤◌, ◌^◌, ◌≡◌, refl, sym, ap, ◌∙◌, List, [], ◌∷◌, Bool, true, false, length, arith,
}
use mem_hop.Errors.{ok}
use mem_hop.Storage.Frame.{Frame}
use mem_hop.Storage.Header.{new_file_header}
use mem_hop.Storage.Header.Select.{IsWritable}
use mem_hop.Storage.Engine.{Engine, total_records, ◌>>◌}
use mem_hop.Storage.Read.{read_record}
use mem_hop.Storage.Lifecycle.{blank, create}
use mem_hop.Storage.Fresh.{created, create_lem, new_file, length-new_file}
use mem_hop.Storage.View.{nothing, view, answer, Shows-empty}
use mem_hop.Storage.Store.Bare.{IsBare}
use mem_hop.Storage.Store.Reopen.{nothing-IsTidy}
use mem_hop.Storage.Store.Sealed.{read_record-IsKept}
use mem_hop.Storage.Store.Event.{
  Event, run, effect, store_of, store_of_ext, sealed_after, AllFit, costs,
}
use mem_hop.Storage.Store.At.{At, At-IsKept, At-true}
use mem_hop.Storage.Store.Steps.{step}

fresh : IsWritable new_file_header
unfolding new_file_header
fresh = record {
  current = refl;
  reserved = omega arith;
  commit = omega arith;
  offset = omega arith;
  size = omega arith;
  count = omega arith;
  flag_bits = omega arith;
  end = omega arith;
}

pub created-IsBare : IsBare created [] 0
unfolding new_file_header total_records
created-IsBare = record {
  calm = refl;
  opened = refl;
  file = refl;
  whole = sym length-new_file;
  next = sym length-new_file;
  settled = record { header_a = fresh; header_b = fresh; chosen = refl; no_snapshot = refl };
  committed = (omega arith, omega arith);
  storable = tt;
  tidy = nothing-IsTidy;
  count = omega arith;
  shows = Shows-empty new_file 8192;
}

-- Any number of events.
run_lem :
    (n : ℕ) (events : List Event) (e : Engine) (log : List Frame) (c : ℕ) (sealed : Bool)
    → At e log c sealed
    → AllFit events sealed
    → c + length events < 256 ^ 8
    → length log + length events ≤ n
    → length e.file + costs n events < 256 ^ 4
    → (e' : Engine) × (log' : List Frame) × (c' : ℕ) × (run events e ≡ (ok tt, e'))
      × At e' log' c' true
      × ((a i : ℕ) → view log' nothing a i ≡ store_of events (view log nothing) a i)
run_lem n [] e log c sealed at s room few small =
    (e, log, c, refl, At-true e log c sealed at, λ a i. refl)
run_lem n (x ∷ events) e log c sealed at s room few small =
    let (e₁, log₁, c₁, eq₁, at₁, le, more, size, law₁) =
      step n x e log c sealed at s.0 (omega (arith, room)) (omega (arith, few))
        (omega (arith, small)) in
    let (e₂, log₂, c₂, eq₂, at₂, law₂) =
      run_lem n events e₁ log₁ c₁ (sealed_after x sealed) at₁ s.1 (omega (arith, le, room))
        (omega (arith, more, few)) (omega (arith, size, small)) in
    (
      e₂,
      log₂,
      c₂,
      rw eq₁ eq₂,
      at₂,
      λ a i.
          law₂ a i ∙ store_of_ext events (view log₁ nothing) (effect x (view log nothing)) law₁ a i,
    )

-- When no system call fails: Create makes a database of any file, and then every history of writes,
-- deletions, checkpoints, restarts and crashes succeeds. In the end ReadRecord answers for every record
-- what the last write of it stored, and ErrNotFound for a record that was deleted since or never
-- written. The fields of a record are in their machine widths; a crash leaves fewer bytes than a frame's
-- head behind the last whole frame, and none where a snapshot may stand behind the log; and the bytes
-- of all frames, with 13 and 28 for each event in every snapshot, stay below 2^32.
pub run-read_record :
    (file : List ℕ) (events : List Event)
    → AllFit events false
    → 8192 + costs (length events) events < 256 ^ 4
    → length events < 256 ^ 8
    → (e : Engine) × ((create >> run events) (blank file []) ≡ (ok tt, e))
      × ((a i : ℕ) → read_record e a i ≡ answer (store_of events nothing a i))
run-read_record file events s small room =
    let (e, log, c, eq, at, law) =
      run_lem (length events) events created [] 0 false created-IsBare s (omega (arith, room))
        (omega arith) (omega (arith, small, length-new_file)) in
    let (tail, k, opened) = At-IsKept e log c at in
    (
      e,
      rw (create_lem file) eq,
      λ a i. read_record-IsKept e log tail c a i k opened ∙ ap answer (law a i),
    )
