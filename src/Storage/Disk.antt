-- ===== src/Storage/Disk.antt =====
-- The system calls of the engine, each ended by the next entry of the plan: os.File, the mapping of
-- mmap.go and mmap_unix.go, writeHeaderAt of header.go and truncateTail of engine_recovery.go.
pub mod Calm
use mem_hop.Prelude.{
  ℕ, zero, suc, ◌+◌, ◌-◌, List, [], ◌∷◌, ◌++◌, Bool, true, false, ◌==◌, if◌then◌else◌, length, take,
  drop, replicate,
}
use mem_hop.Errors.{Code, Result, ok, err, io}
use mem_hop.Storage.Engine.{
  Engine, Outcome, succeeds, fails, Act, ◌>>=◌, ◌>>◌, pure, fail, gets, modify, on_error,
  unless_closed,
}

abbrev ended_by :
    {A : Type 0} → List Outcome → (Engine → Engine) → (ℕ → Engine → Engine) → (Engine → A) → Act A
ended_by [] done part result e = (ok (result e), done e)
ended_by (succeeds ∷ plan) done part result e =
    let e' = record e { plan = plan } in (ok (result e'), done e')
ended_by (fails n ∷ plan) done part result e = (err io, part n (record e { plan = plan }))

-- A call that changes the state by `done`, or by `part n` when it fails after n bytes.
abbrev call : {A : Type 0} → (Engine → Engine) → (ℕ → Engine → Engine) → (Engine → A) → Act A
call done part result e = ended_by e.plan done part result e

-- A call that changes nothing when it fails.
abbrev plain : (Engine → Engine) → Act (Unit {0})
plain done = call done (λ _ e. e) (λ _. tt)

-- A call that only succeeds or fails, such as the lock or the close.
unfoldable pub system_call : Act (Unit {0})
system_call = plain (λ e. e)

-- file.Seek(0, io.SeekEnd)
unfoldable pub seek_end : Act ℕ
seek_end = call (λ e. e) (λ _ e. e) (λ e. length e.file)

-- The size that file.Stat reports.
unfoldable pub stat : Act ℕ
stat = call (λ e. e) (λ _ e. e) (λ e. length e.file)

-- file.Write behind a seek to the end; a failed write may leave a part of the bytes.
unfoldable pub append : List ℕ → Act (Unit {0})
append bytes =
    call (λ e. record e { file = e.file ++ bytes })
      (λ n e. record e { file = e.file ++ take n bytes }) (λ _. tt)

-- The bytes of `file` from `offset` on replaced by `bytes`.
abbrev pub overwrite : List ℕ → ℕ → List ℕ → List ℕ
overwrite file offset bytes = take offset file ++ (bytes ++ drop (offset + length bytes) file)

unfoldable pub sync : Act (Unit {0})
sync = plain (λ e. e)

-- file.Truncate: the file is cut, or grown by zeros.
unfoldable pub truncate : ℕ → Act (Unit {0})
truncate size =
    plain (λ e. record e { file = take size e.file ++ replicate (size - length e.file) 0 })

-- MapFile: a size of 0 maps nothing and makes no call. The caller stores the mapping.
unfoldable pub map_file : ℕ → Act ℕ
map_file zero = pure 0
map_file (suc n) = call (λ e. e) (λ _ e. e) (λ _. suc n)

-- UnmapFile of a mapping of that many bytes.
unfoldable pub unmap_file : ℕ → Act (Unit {0})
unmap_file zero = pure tt
unmap_file (suc n) = plain (λ e. e)

-- RemapFile: the new mapping comes before the old one goes.
unfoldable pub remap_file : Act ℕ
remap_file = do
  size ← stat
  new ← map_file size
  old ← gets (λ e. e.mapped)
  on_error (unmap_file old) (λ c. on_error (unmap_file new) (λ _. pure tt) >> fail c)
  pure new

-- writeHeaderAt: the seek, then the write.
unfoldable pub write_header_at : ℕ → List ℕ → Act (Unit {0})
write_header_at offset bytes = do
  plain (λ e. e)
  call (λ e. record e { file = overwrite e.file offset bytes })
      (λ n e. record e { file = overwrite e.file offset (take n bytes) }) (λ _. tt)

-- truncateTail: between the unmap and the new mapping there is none.
unfoldable pub truncate_tail : ℕ → Act (Unit {0})
truncate_tail size = do
  old ← gets (λ e. e.mapped)
  unmap_file old
  modify (λ e. record e { mapped = 0 })
  truncate size
  sync
  new ← map_file size
  modify (λ e. record e { mapped = new })
