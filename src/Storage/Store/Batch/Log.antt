-- ===== src/Storage/Store/Batch/Log.antt =====
-- engine_write.go, when no system call fails: a batch adds its frames to a log with no snapshot behind it.
use mem_hop.Prelude.{
  ℕ, ◌≡◌, refl, sym, ap, ◌∙◌, List, [], ◌∷◌, ◌++◌, length, arith, length-append, append_assoc,
  append-nil, All, map, subst,
}
use mem_hop.Prelude.Map.{get, put, inner}
use mem_hop.Errors.{ok}
use mem_hop.Storage.Domains.{Index, offset_of, offset_of-put}
use mem_hop.Storage.Domains.Tidy.{IsTidy, put-IsTidy, total_records-put}
use mem_hop.Storage.Frame.{Frame, record_data}
use mem_hop.Storage.Frame.RoundTrip.{IsStorable}
use mem_hop.Storage.Engine.{Engine, TypeIndex, total_records}
use mem_hop.Storage.View.{nothing, view, Shows-keep}
use mem_hop.Storage.Disk.Calm.{unless_open, seek_end_calm, sync_calm, remap_file_calm}
use mem_hop.Storage.Write.{
  RecordEntry, append_frames, index_one, update_index_after_write, end_of, write_batch,
  write_record_batch,
}
use mem_hop.Storage.Store.Bare.{
  IsBare, IsSettled, IsCommitted, file_of, grown-IsBare, trim_tail_snapshot_bare,
}
use mem_hop.Storage.Store.Erase.{reindexed}
use mem_hop.Storage.Store.Batch.{
  frame_of_entry, encoded, bytes_of, offsets_from, length-encoded, append_loop_calm, end_of_lem,
}

abbrev pub frames_of : List RecordEntry → List Frame
frames_of rs = map frame_of_entry rs

-- The index that a batch leaves.
indexed : List RecordEntry → List ℕ → Index → Index
indexed (r ∷ rs) (o ∷ os) index =
    indexed rs os (put index r.agent_id (put (inner (get index r.agent_id)) r.id_hash o))
indexed _ _ index = index

update_index-reindexed :
    (rs : List RecordEntry) (os : List ℕ) (e : Engine)
    → (types : TypeIndex) × (update_index_after_write rs os e
        ≡ reindexed e (indexed rs os e.index) types)
unfolding update_index_after_write indexed index_one
update_index-reindexed [] os e = (e.by_agent_type, refl)
update_index-reindexed (r ∷ rs) [] e = (e.by_agent_type, refl)
update_index-reindexed (r ∷ rs) (o ∷ os) e = update_index-reindexed rs os (index_one r o e)

same-IsBare :
    (e e' : Engine) (log : List Frame) (c : ℕ)
    → IsBare e log c
    → e'.plan ≡ e.plan
    → e'.is_closed ≡ e.is_closed
    → e'.headers ≡ e.headers
    → e'.file ≡ e.file
    → e'.mapped ≡ length e'.file
    → e'.next_offset ≡ length e'.file
    → e'.index ≡ e.index
    → IsBare e' log c
same-IsBare e e' log c b plan opened headers file whole next index = record {
  calm = plan ∙ b.calm;
  opened = opened ∙ b.opened;
  file = file ∙ b.file ∙ ap (λ hs. file_of hs log) (sym headers);
  whole = whole;
  next = next;
  settled = subst IsSettled (sym headers) b.settled;
  committed = subst (λ hs. IsCommitted hs c) (sym headers) b.committed;
  storable = b.storable;
  tidy = subst IsTidy (sym index) b.tidy;
  count = omega (arith, ap total_records index, b.count);
  shows =
      Shows-keep e.file e'.file e.next_offset e'.next_offset e.index e'.index (view log nothing)
        (λ off fr low high h. subst (λ l. record_data l off ≡ ok fr) (sym file) h)
        (omega (arith, b.next, next, ap length file)) (λ a i. ap (λ m. offset_of m a i) index)
        b.shows;
}

-- The engine behind a batch.
abbrev batched : Engine → List RecordEntry → TypeIndex → Engine
batched e rs types = record e {
  file = e.file ++ bytes_of rs;
  next_offset = length (e.file ++ bytes_of rs);
  mapped = length (e.file ++ bytes_of rs);
  index = indexed rs (offsets_from (length e.file) rs) e.index;
  by_agent_type = types;
}

batched-IsBare :
    (rs : List RecordEntry) (e : Engine) (log : List Frame) (c : ℕ) (types : TypeIndex)
    → IsBare e log c
    → All (λ r. IsStorable (frame_of_entry r)) rs
    → IsBare (batched e rs types) (log ++ frames_of rs) c
unfolding bytes_of offsets_from indexed
batched-IsBare [] e log c types b s =
    subst (λ l. IsBare (batched e [] types) l c) (sym (append-nil log))
      (same-IsBare e (batched e [] types) log c b refl refl refl (append-nil e.file) refl refl refl)
batched-IsBare (r ∷ rs) e log c types b s =
    let one = record e {
      file = e.file ++ encoded r;
      next_offset = length (e.file ++ encoded r);
      mapped = length (e.file ++ encoded r);
      index =
          put e.index r.agent_id (put (inner (get e.index r.agent_id)) r.id_hash (length e.file));
    } in
    let b' =
      grown-IsBare e one log c (frame_of_entry r) b s.0 refl refl refl refl refl refl
        (offset_of-put e.index r.agent_id r.id_hash (length e.file))
        (put-IsTidy e.index r.agent_id r.id_hash (length e.file) s.0.agent s.0.id b.tidy)
        (total_records-put e.index r.agent_id r.id_hash (length e.file)) in
    let rest = batched-IsBare rs one (log ++ (frame_of_entry r ∷ [])) c types b' s.1 in
    let at = append_assoc e.file (encoded r) (bytes_of rs) in
    subst (λ l. IsBare (batched e (r ∷ rs) types) l c)
      (append_assoc log (frame_of_entry r ∷ []) (frames_of rs))
      (same-IsBare (batched one rs types) (batched e (r ∷ rs) types)
        ((log ++ (frame_of_entry r ∷ [])) ++ frames_of rs) c rest refl refl refl (sym at) refl refl
        (ap (λ n. indexed rs (offsets_from n rs) one.index) (sym (length-encoded e.file r))))

-- When no system call fails: a batch is written behind a log with no snapshot, and the engine then holds
-- the log with the frames of the batch behind it.
pub write_record_batch-IsBare :
    (rs : List RecordEntry) (e : Engine) (log : List Frame) (c : ℕ)
    → IsBare e log c
    → All (λ r. IsStorable (frame_of_entry r)) rs
    → (offsets : List ℕ) × (e' : Engine) × (write_record_batch rs e ≡ (ok offsets, e'))
      × IsBare e' (log ++ frames_of rs) c
unfolding write_record_batch write_batch append_frames
write_record_batch-IsBare [] e log c b s = (
  [],
  e,
  unless_open (write_batch []) e b.opened,
  subst (λ l. IsBare e l c) (sym (append-nil log)) b,
)
write_record_batch-IsBare (x ∷ rs) e log c b s =
    let os = offsets_from (length e.file) (x ∷ rs) in
    let more = bytes_of (x ∷ rs) in
    let grown = record e { file = e.file ++ more } in
    let moved = record grown { next_offset = end_of (x ∷ rs) os e.next_offset } in
    let big = record grown {
      next_offset = length (e.file ++ more);
      mapped = length (e.file ++ more);
    } in
    let (types, eq) = update_index-reindexed (x ∷ rs) os big in
    (
      os,
      batched e (x ∷ rs) types,
      unless_open (write_batch (x ∷ rs)) e b.opened
          ∙ rw
              (
                trim_tail_snapshot_bare e b.settled,
                seek_end_calm e b.calm,
                append_loop_calm (length e.file) (x ∷ rs) e b.calm,
                sync_calm moved b.calm,
                remap_file_calm moved b.calm,
              )
              (rw (end_of_lem (length e.file) e.next_offset x rs, sym (length-append e.file more))
                (rw eq refl)),
      batched-IsBare (x ∷ rs) e log c types b s,
    )
