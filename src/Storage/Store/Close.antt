-- ===== src/Storage/Store/Close.antt =====
-- Close and the Open that follows it, when no system call fails.
use mem_hop.Prelude.{
  ℕ, ◌+◌, ◌*◌, ◌<◌, ◌≤◌, ◌^◌, ◌≡◌, refl, ap, ◌∙◌, List, [], true, false, length, arith,
}
use mem_hop.Errors.{ok}
use mem_hop.Storage.Frame.{Frame}
use mem_hop.Storage.Snapshot.{build_snapshot}
use mem_hop.Storage.Engine.{Engine}
use mem_hop.Storage.Disk.Calm.{unless_open, unmap_file_calm, sync_calm, system_call_calm}
use mem_hop.Storage.Tail.{append_snapshot}
use mem_hop.Storage.Lifecycle.{blank, open_engine, shutdown_handles, close, both}
use mem_hop.Storage.Store.Sealed.{IsKept, IsSealed}
use mem_hop.Storage.Store.Checkpoint.{
  append_snapshot-IsSealed, after_seal, length-after_seal, image_short,
}
use mem_hop.Storage.Store.Restart.{open_engine-IsSealed}

pub shutdown_handles_calm :
    (e : Engine) → e.plan ≡ [] → shutdown_handles e ≡ (ok tt, record e { mapped = 0 })
unfolding shutdown_handles
shutdown_handles_calm e calm =
    rw
      (
        unmap_file_calm e calm e.mapped,
        sync_calm e calm,
        system_call_calm e calm,
        system_call_calm e calm,
      )
      refl

abbrev shut : Engine → Engine
shut e = record e { is_closed = true }

shut-IsKept :
    (e : Engine) (log : List Frame) (tail : List ℕ) (c : ℕ)
    → IsKept e log tail c
    → IsKept (shut e) log tail c
shut-IsKept e log tail c k = record {
  calm = k.calm;
  file = k.file;
  whole = k.whole;
  next = k.next;
  paired = k.paired;
  storable = k.storable;
  tidy = k.tidy;
  count = k.count;
  shows = k.shows;
}

-- When no system call fails: Close and the Open that follows it succeed on an open engine that holds a
-- log, and the engine opened holds the same log, with a snapshot behind it and one commit later, where
-- the commit id stays below 2^64 and the file with its new snapshot below 2^32.
pub close-open_engine :
    (e : Engine) (log : List Frame) (tail : List ℕ) (c : ℕ)
    → IsKept e log tail c
    → e.is_closed ≡ false
    → c + 1 < 256 ^ 8
    → length e.file + (13 + 28 * length log) < 256 ^ 4
    → (e₁ : Engine) × (e₂ : Engine) × (close e ≡ (ok tt, e₁))
      × (open_engine (blank e₁.file []) ≡ (ok tt, e₂))
      × IsSealed e₂ log (c + 1)
      × (e₂.is_closed ≡ false)
      × (length e₂.file ≤ length e.file + (13 + 28 * length log))
unfolding close
close-open_engine e log tail c k opened room small =
    let k' = shut-IsKept e log tail c k in
    let (eq, sealed) = append_snapshot-IsSealed (shut e) log tail c k' room small in
    let s = after_seal (shut e) log tail c k' room small in
    let (e₂, eq₂, sealed₂, opened₂, same) = open_engine-IsSealed s log (c + 1) sealed in
    (
      record s { mapped = 0 },
      e₂,
      unless_open
            (λ e.
              both (append_snapshot (build_snapshot e.index)) shutdown_handles
                (record e { is_closed = true }))
            e opened
          ∙ rw (eq, shutdown_handles_calm s k.calm) refl,
      eq₂,
      sealed₂,
      opened₂,
      omega (
        arith,
        ap length same,
        length-after_seal (shut e) log tail c k' room small,
        image_short (shut e) log tail c k' room small,
      ),
    )
