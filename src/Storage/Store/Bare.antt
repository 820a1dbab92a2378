-- ===== src/Storage/Store/Bare.antt =====
-- An engine whose file holds two headers and a log of whole frames, with no snapshot behind them: it
-- shows the store that the log stands for, and a write or a deletion adds one frame to the log.
use mem_hop.Prelude.{
  ℕ, ◌+◌, ◌≡◌, ◌≤◌, refl, sym, ap, ◌∙◌, List, [], ◌∷◌, ◌++◌, true, false, some, none, ◌&&◌, ◌||◌,
  ◌==◌, leb, if◌then◌else◌, length, arith, All, length-append, append_assoc, append-nil, subst,
  take, take-all,
}
use Prim.Native.Nat.{bit_and}
use mem_hop.Errors.{ok}
use mem_hop.Storage.Domains.{offset_of}
use mem_hop.Storage.Domains.Tidy.{IsTidy, put-IsTidy, total_records-put}
use mem_hop.Storage.Frame.{Frame, record_data, flag_deleted}
use mem_hop.Storage.Frame.RoundTrip.{IsStorable, encode, length-encode_record, record_data-encode}
use mem_hop.Storage.Frame.Local.{record_data-append}
use mem_hop.Storage.Header.{FileHeader, Headers, to_bytes}
use mem_hop.Storage.Header.Select.{IsWritable, length-to_bytes}
use mem_hop.Storage.Engine.{Engine, active_header_ref, total_records, pure, ◌>>=◌}
use mem_hop.Storage.Disk.Calm.{unless_open}
use mem_hop.Storage.Read.{read_record, read_at}
use mem_hop.Storage.Write.{write_record, write_batch, first_offset, index_one}
use mem_hop.Storage.Tail.{trim_tail_snapshot}
use mem_hop.Storage.Recovery.Log.{log_bytes}
use mem_hop.Storage.View.{nothing, view, view-append, answer, Shows, Shows-after, read_at-Shown}
use mem_hop.Storage.Store.{
  frame_of, entry_of, stored, write_batch_calm, stored_index, stored_file, stored_open,
  stored_mapped, stored_plan, stored_end, length_stored,
}

-- The bytes of a file with these headers and this log.
abbrev pub file_of : Headers → List Frame → List ℕ
file_of hs log = to_bytes hs.header_a ++ (to_bytes hs.header_b ++ log_bytes log)

-- A pair of headers that reads back from the file, with no snapshot named by the active one.
abbrev pub active_of : Headers → FileHeader
active_of hs = if hs.active == 0 then hs.header_a else hs.header_b

pub record IsSettled (hs : Headers) : Type 0 where
  pub header_a : IsWritable hs.header_a
  pub header_b : IsWritable hs.header_b
  pub chosen : hs.active ≡ (if leb hs.header_b.commit_id hs.header_a.commit_id then 0 else 1)
  pub no_snapshot :
      ((active_of hs).snapshot_offset == 0 || (active_of hs).snapshot_length == 0) ≡ true

abbrev pub IsCommitted : Headers → ℕ → Type 0
IsCommitted hs commits = (hs.header_a.commit_id ≤ commits) × (hs.header_b.commit_id ≤ commits)

-- `commits` bounds the commit ids of both headers.
pub record IsBare (e : Engine) (log : List Frame) (commits : ℕ) : Type 0 where
  pub calm : e.plan ≡ []
  pub opened : e.is_closed ≡ false
  pub file : e.file ≡ file_of e.headers log
  pub whole : e.mapped ≡ length e.file
  pub next : e.next_offset ≡ length e.file
  pub settled : IsSettled e.headers
  pub committed : IsCommitted e.headers commits
  pub storable : All IsStorable log
  pub tidy : IsTidy e.index
  pub count : total_records e.index ≤ length log
  pub shows : Shows e.file e.next_offset e.index (view log nothing)

pub log_bytes-append :
    (log : List Frame) (fr : Frame) → log_bytes (log ++ (fr ∷ [])) ≡ log_bytes log ++ encode fr
log_bytes-append [] fr = append-nil (encode fr)
log_bytes-append (x ∷ log) fr = simp (log_bytes-append log fr, append_assoc)

file_of-append :
    (hs : Headers) (log : List Frame) (fr : Frame)
    → file_of hs log ++ encode fr ≡ file_of hs (log ++ (fr ∷ []))
file_of-append hs log fr = simp (log_bytes-append log fr, append_assoc)

All-snoc :
    (log : List Frame) (fr : Frame)
    → All IsStorable log
    → IsStorable fr
    → All IsStorable (log ++ (fr ∷ []))
All-snoc [] fr s h = (h, tt)
All-snoc (x ∷ log) fr s h = (s.0, All-snoc log fr s.1 h)

pub length-file_of : (hs : Headers) (log : List Frame) → 8192 ≤ length (file_of hs log)
length-file_of hs log = omega (
  arith,
  length-append (to_bytes hs.header_a) (to_bytes hs.header_b ++ log_bytes log),
  length-append (to_bytes hs.header_b) (log_bytes log),
  length-to_bytes hs.header_a,
  length-to_bytes hs.header_b,
)

-- With no snapshot there is nothing to trim.
pub trim_tail_snapshot_bare : (e : Engine) → IsSettled e.headers → trim_tail_snapshot e ≡ (ok tt, e)
unfolding trim_tail_snapshot active_header_ref
trim_tail_snapshot_bare e s = rw s.no_snapshot refl

-- Reads answer from the store of the log.
pub read_record-IsBare :
    (e : Engine) (log : List Frame) (c a i : ℕ)
    → IsBare e log c
    → read_record e a i ≡ answer (view log nothing a i)
unfolding read_record
read_record-IsBare e log c a i b = rw b.opened (
    ap (λ l. read_at l (offset_of e.index a i))
      (ap (λ n. take n e.file) b.whole ∙ take-all (length e.file) e.file (omega arith))
    ∙ read_at-Shown e.file e.next_offset a i (offset_of e.index a i) (view log nothing a i)
        (b.shows.at a i (offset_of e.index a i) refl))

-- An engine that one frame was appended to, and entered into the index.
pub grown-IsBare :
    (e e' : Engine) (log : List Frame) (c : ℕ) (fr : Frame)
    → IsBare e log c
    → IsStorable fr
    → e'.plan ≡ e.plan
    → e'.is_closed ≡ e.is_closed
    → e'.headers ≡ e.headers
    → e'.file ≡ e.file ++ encode fr
    → e'.mapped ≡ length e'.file
    → e'.next_offset ≡ length e'.file
    → ((b j : ℕ)
        → offset_of e'.index b j ≡ (
            if fr.agent_id == b && fr.id_hash == j
            then (if bit_and fr.flags flag_deleted == 0 then some (length e.file) else none)
            else offset_of e.index b j))
    → IsTidy e'.index
    → total_records e'.index ≤ total_records e.index + 1
    → IsBare e' (log ++ (fr ∷ [])) c
grown-IsBare e e' log c fr b s plan opened headers file whole next entered tidy count =
    let size = length-encode_record fr.agent_id fr.record_type fr.flags fr.id_hash fr.payload in
    let grown : length e'.file ≡ length e.file + 26 + length fr.payload =
      ap length file ∙ omega (arith, length-append e.file (encode fr), size) in
    let clean : record_data e'.file (length e.file) ≡ ok fr =
      ap (λ l. record_data l (length e.file))
        (file ∙ ap (λ l. e.file ++ l) (sym (append-nil (encode fr))))
      ∙ record_data-encode fr e.file [] s in
    let start : 8192 ≤ length e.file =
      omega (arith, ap length b.file, length-file_of e.headers log) in
    record {
      calm = plan ∙ b.calm;
      opened = opened ∙ b.opened;
      file =
          file
          ∙ ap (λ l. l ++ encode fr) b.file
          ∙ file_of-append e.headers log fr
          ∙ ap (λ hs. file_of hs (log ++ (fr ∷ []))) (sym headers);
      whole = whole;
      next = next;
      settled = subst IsSettled (sym headers) b.settled;
      committed = subst (λ hs. IsCommitted hs c) (sym headers) b.committed;
      storable = All-snoc log fr b.storable s;
      tidy = tidy;
      count = omega (arith, count, b.count, length-append log (fr ∷ []));
      shows = subst (Shows e'.file e'.next_offset e'.index) (sym (view-append log fr nothing)) (
          Shows-after e.file e'.file e.next_offset e'.next_offset (length e.file) fr e.index
            e'.index (view log nothing)
            (λ off x low high h.
              subst (λ l. record_data l off ≡ ok x) (sym file)
                (record_data-append e.file (encode fr) off x h))
            (omega (arith, next, grown, b.next)) clean s.typed start (omega (arith, next, grown))
            entered b.shows);
    }

-- The engine that a write leaves.
pub stored-IsBare :
    (e : Engine) (log : List Frame) (c a t i : ℕ) (d : List ℕ) (b : IsBare e log c)
    → IsStorable (frame_of a t i d)
    → IsBare (stored e b.calm a t i d) (log ++ (frame_of a t i d ∷ [])) c
unfolding index_one
stored-IsBare e log c a t i d b s =
    grown-IsBare e (stored e b.calm a t i d) log c (frame_of a t i d) b s
      (stored_plan e b.calm a t i d) (stored_open e b.calm a t i d) refl
      (stored_file e b.calm a t i d) (stored_mapped e b.calm a t i d)
      (stored_end e b.calm a t i d ∙ sym (length_stored e b.calm a t i d))
      (stored_index e b.calm a t i d) (put-IsTidy e.index a i (length e.file) s.agent s.id b.tidy)
      (total_records-put e.index a i (length e.file))

-- A write succeeds and adds the frame of its record to the log, where the trim of the open engine
-- `before` leaves such an engine.
pub write_record-trimmed :
    (before e : Engine) (log : List Frame) (c a t i : ℕ) (d : List ℕ)
    → before.is_closed ≡ false
    → trim_tail_snapshot before ≡ (ok tt, e)
    → IsBare e log c
    → IsStorable (frame_of a t i d)
    → (off : ℕ) × (e' : Engine) × (write_record a t i d before ≡ (ok off, e'))
      × IsBare e' (log ++ (frame_of a t i d ∷ [])) c
unfolding write_record
write_record-trimmed before e log c a t i d opened trimmed b s = (
  length e.file,
  stored e b.calm a t i d,
  unless_open (write_batch (entry_of a t i d ∷ []) >>= λ offsets. pure (first_offset offsets))
        before opened
      ∙ rw (write_batch_calm e b.calm a t i d before trimmed) refl,
  stored-IsBare e log c a t i d b s,
)
