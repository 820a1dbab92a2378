-- ===== src/Storage/Store/Batch.antt =====
-- engine_write.go, when no system call fails: the frames of a batch, and its last word on a record.
pub mod Enter
pub mod Read
pub mod Log
use mem_hop.Prelude.{
  ℕ, suc, ◌+◌, ◌≡◌, ◌≤◌, refl, sym, ap, ◌∙◌, List, [], ◌∷◌, ◌++◌, Bool, ◌==◌, ◌&&◌, if◌then◌else◌,
  length, arith, true, false, Option, some, none, length-append, append-nil, append_assoc, subst,
  All, Bool-cases, inl, inr, ==_self,
}
use mem_hop.Errors.{Result, ok}
use mem_hop.Storage.Domains.{offset_of, offset_of-put}
use mem_hop.Storage.Frame.{Frame, record_data, encode_record}
use mem_hop.Storage.Frame.RoundTrip.{IsStorable, length-encode_record, record_data-encode}
use mem_hop.Storage.Frame.Local.{record_data-append}
use mem_hop.Storage.Engine.{Engine}
use mem_hop.Storage.Disk.Calm.{unless_open, seek_end_calm, append_calm, sync_calm, remap_file_calm}
use mem_hop.Storage.Read.{read_record, read_result, read_at}
use mem_hop.Storage.Write.{
  RecordEntry, append_loop, append_frames, index_one, update_index_after_write, end_of, write_batch,
  write_record_batch,
}
use mem_hop.Storage.Tail.{trim_tail_snapshot}
use mem_hop.Storage.Ready.{IsReady, Trims, Holds, trim_tail_snapshot-Trims}
use mem_hop.Storage.Store.{frame_of, read_record-at}

abbrev pub frame_of_entry : RecordEntry → Frame
frame_of_entry r = frame_of r.agent_id r.record_type r.id_hash r.payload

abbrev encoded : RecordEntry → List ℕ
encoded r = encode_record r.agent_id r.record_type 0 r.id_hash r.payload

unfoldable pub bytes_of : List RecordEntry → List ℕ
bytes_of [] = []
bytes_of (r ∷ rs) = encoded r ++ bytes_of rs

unfoldable pub offsets_from : ℕ → List RecordEntry → List ℕ
offsets_from n [] = []
offsets_from n (r ∷ rs) = n ∷ offsets_from (n + 26 + length r.payload) rs

pub length-encoded :
    (f : List ℕ) (r : RecordEntry) → length (f ++ encoded r) ≡ length f + 26 + length r.payload
length-encoded f r = omega (
  arith,
  length-append f (encoded r),
  length-encode_record r.agent_id r.record_type 0 r.id_hash r.payload,
)

pub append_loop_calm :
    (start : ℕ) (rs : List RecordEntry) (e : Engine)
    → e.plan ≡ []
    → append_loop start rs e
      ≡ (ok (offsets_from (length e.file) rs), record e { file = e.file ++ bytes_of rs })
unfolding append_loop bytes_of offsets_from
append_loop_calm start [] e calm = rw (append-nil e.file) refl
append_loop_calm start (r ∷ rs) e calm =
    let grown = record e { file = e.file ++ encoded r } in
    rw (seek_end_calm e calm, append_calm e calm (encoded r), append_loop_calm start rs grown calm)
      (rw (length-encoded e.file r, append_assoc e.file (encoded r) (bytes_of rs)) refl)

-- Each record's frame stands at its offset, in the record area.
unfoldable pub Placed : List ℕ → ℕ → List RecordEntry → List ℕ → Type 0
Placed file next [] os = Unit {0}
Placed file next (r ∷ rs) [] = Unit {0}
Placed file next (r ∷ rs) (o ∷ os) =
    (record_data file o ≡ ok (frame_of_entry r))
    × (8192 ≤ o)
    × (o + 26 + length r.payload ≤ next)
    × Placed file next rs os

pub length-bytes_of :
    (f : List ℕ) (r : RecordEntry) (rs : List RecordEntry)
    → length (f ++ (encoded r ++ bytes_of rs))
      ≡ length f + 26 + length r.payload + length (bytes_of rs)
length-bytes_of f r rs = omega (
  arith,
  length-append f (encoded r ++ bytes_of rs),
  length-append (encoded r) (bytes_of rs),
  length-encode_record r.agent_id r.record_type 0 r.id_hash r.payload,
)

pub end_of_lem :
    (n before : ℕ) (r : RecordEntry) (rs : List RecordEntry)
    → end_of (r ∷ rs) (offsets_from n (r ∷ rs)) before ≡ n + length (bytes_of (r ∷ rs))
unfolding offsets_from bytes_of
end_of_lem n before r [] = omega (arith, length-bytes_of [] r [])
end_of_lem n before r (x ∷ xs) =
    end_of_lem (n + 26 + length r.payload) before x xs
    ∙ omega (arith, length-bytes_of [] r (x ∷ xs))

pub placed_lem :
    (pre : List ℕ) (rs : List RecordEntry)
    → 8192 ≤ length pre
    → All (λ r. IsStorable (frame_of_entry r)) rs
    → Placed (pre ++ bytes_of rs) (length (pre ++ bytes_of rs)) rs (offsets_from (length pre) rs)
unfolding Placed bytes_of offsets_from
placed_lem pre [] low s = tt
placed_lem pre (r ∷ rs) low s =
    let here = record_data-encode (frame_of_entry r) pre (bytes_of rs) s.0 in
    let rest = placed_lem (pre ++ encoded r) rs (omega (arith, length-encoded pre r)) s.1 in
    (
      here,
      low,
      omega (arith, length-bytes_of pre r rs),
      rw (length-encoded pre r, append_assoc pre (encoded r) (bytes_of rs)) at rest,
    )

-- The batch's last word on a record.
abbrev pub latest : List RecordEntry → ℕ → ℕ → Option (ℕ × List ℕ)
latest [] b j = none
latest (r ∷ rs) b j = elim (latest rs b j) [
  | some v ↦ some v
  | none ↦ if r.agent_id == b && r.id_hash == j then some (r.record_type, r.payload) else none
]

-- What is read where a batch was written over an older answer.
abbrev pub over : Option (ℕ × List ℕ) → Result (ℕ × List ℕ) → Result (ℕ × List ℕ)
over none old = old
over (some v) old = ok v

-- The first of two words that is one.
abbrev pub first_of : Option (ℕ × List ℕ) → Option (ℕ × List ℕ) → Option (ℕ × List ℕ)
first_of (some v) other = some v
first_of none other = other

cons_lem :
    (later mine : Option (ℕ × List ℕ)) (same : Bool) (w : ℕ × List ℕ)
    → elim (first_of later mine) [ some x ↦ some x | none ↦ if same then some w else none ]
      ≡ first_of later (elim mine [ some x ↦ some x | none ↦ if same then some w else none ])
cons_lem (some x) mine same w = refl
cons_lem none mine same w = refl

pub first_of-none : (o : Option (ℕ × List ℕ)) → o ≡ first_of o none
first_of-none none = refl
first_of-none (some x) = refl

-- The word of a later batch counts.
pub latest-append :
    (rs ss : List RecordEntry) (b j : ℕ)
    → latest (rs ++ ss) b j ≡ first_of (latest ss b j) (latest rs b j)
latest-append [] ss b j = first_of-none (latest ss b j)
latest-append (r ∷ rs) ss b j = rw (latest-append rs ss b j) (
    cons_lem (latest ss b j) (latest rs b j) (r.agent_id == b && r.id_hash == j)
      (r.record_type, r.payload))
