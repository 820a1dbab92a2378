-- ===== src/Storage/Compact/Copy.antt =====
-- Compact, when no system call fails: the new file, once it is opened, answers every read as the source did.
pub mod Readable
use mem_hop.Prelude.{
  ℕ, ◌+◌, ◌*◌, ◌<◌, ◌≤◌, ◌^◌, ◌≡◌, refl, sym, ap, ◌∙◌, List, [], ◌∷◌, ◌++◌, true, false, Option,
  some, none, ◌==◌, arith, All, length, Bool-cases, inl, inr, append_assoc, append-nil, subst,
}
use mathlib.Core.List.{map-append}
use mem_hop.Prelude.Map.{Map}
use mem_hop.Errors.{Result, ok, err}
use mem_hop.Storage.Domains.{Index, offset_of}
use mem_hop.Storage.Frame.{Frame, record_data}
use mem_hop.Storage.Frame.RoundTrip.{IsStorable}
use mem_hop.Storage.Engine.{Engine, mmap}
use mem_hop.Storage.Read.{read_record}
use mem_hop.Storage.Write.{RecordEntry}
use mem_hop.Storage.Store.Bare.{IsBare}
use mem_hop.Storage.Store.Batch.{frame_of_entry}
use mem_hop.Storage.Store.Batch.Log.{frames_of, write_record_batch-IsBare}
use mem_hop.Storage.Store.Batch.{latest, first_of-none}
use mem_hop.Storage.Store.Sealed.{
  IsKept, IsSealed, IsBare-IsKept, length-IsBare, mmap_whole, read_record-IsKept,
}
use mem_hop.Storage.Store.Checkpoint.{checkpoint-IsSealed}
use mem_hop.Storage.Store.Restart.{open_engine-IsSealed}
use mem_hop.Storage.Store.Close.{shutdown_handles_calm}
use mem_hop.Storage.Store.History.{created-IsBare}
use mem_hop.Storage.Fresh.{created, create_lem}
use mem_hop.Storage.Lifecycle.{blank, open_engine}
use mem_hop.Storage.Recovery.Log.{log_bytes}
use mem_hop.Storage.View.{nothing, view, answer}
use mem_hop.Storage.Compact.{damage, copied, flush, copy_domain, copy_domains, compact}
use mem_hop.Storage.Compact.Copy.Readable.{IsReadable, readable, tidy_domains, said-view}
use mem_hop.Storage.Compact.Live.{
  said, view-frames_of, latest-live_records, add_live, live_of, live_records,
}

abbrev AreStorable : List RecordEntry → Type 0
AreStorable rs = All (λ r. IsStorable (frame_of_entry r)) rs

flush_lem :
    (rs : List RecordEntry) (e : Engine) (log : List Frame) (c : ℕ)
    → IsBare e log c
    → AreStorable rs
    → (e' : Engine) × (flush rs e ≡ (ok tt, e')) × IsBare e' (log ++ frames_of rs) c
flush_lem [] e log c b s = (e, refl, subst (λ l. IsBare e l c) (sym (append-nil log)) b)
flush_lem (r ∷ rs) e log c b s =
    let (os, e', eq, b') = write_record_batch-IsBare (r ∷ rs) e log c b s in (e', rw eq refl, b')

AreStorable-snoc :
    (rs : List RecordEntry) (r : RecordEntry)
    → AreStorable rs
    → IsStorable (frame_of_entry r)
    → AreStorable (rs ++ (r ∷ []))
AreStorable-snoc [] r s h = (h, tt)
AreStorable-snoc (x ∷ rs) r s h = (s.0, AreStorable-snoc rs r s.1 h)

copy_domain_lem :
    (mm : List ℕ) (a : ℕ) (m : Map ℕ) (batch : List RecordEntry) (e : Engine) (log : List Frame)
    (c : ℕ)
    → IsBare e log c
    → AreStorable batch
    → All (IsReadable mm a) m
    → (e' : Engine) × (copy_domain mm a batch m e ≡ (ok tt, e'))
      × IsBare e' (log ++ frames_of (batch ++ live_of mm a m)) c
unfolding copy_domain
copy_domain_lem mm a [] batch e log c b s r =
    let (e', eq, b') = flush_lem batch e log c b s in
    (e', eq, subst (λ l. IsBare e' (log ++ frames_of l) c) (sym (append-nil batch)) b')
copy_domain_lem mm a ((i, off) ∷ m) batch e log c b s ((fr, clean, st), more) =
    let full = batch ++ (copied a i fr ∷ []) in
    let full-s = AreStorable-snoc batch (copied a i fr) s st in
    let back = λ (e' : Engine).
      subst (λ r. IsBare e' (log ++ frames_of (batch ++ add_live a i r (live_of mm a m))) c)
        (sym clean) in
    elim (Bool-cases (length full == 256)) [
      | inl whole ↦
          let (e₁, eq₁, b₁) = flush_lem full e log c b full-s in
          let (e', eq, b') = copy_domain_lem mm a m [] e₁ (log ++ frames_of full) c b₁ tt more in
          (
            e',
            rw (clean, copy_domain) (rw (whole, eq₁) eq),
            back e' (subst (λ l. IsBare e' l c) (simp (map-append, append_assoc)) b'),
          )
      | inr room ↦
          let (e', eq, b') = copy_domain_lem mm a m full e log c b full-s more in
          (
            e',
            rw (clean, copy_domain) (rw room eq),
            back e' (subst (λ l. IsBare e' l c) (simp (append_assoc)) b'),
          )
    ]

copy_domains_lem :
    (mm : List ℕ) (index : Index) (e : Engine) (log : List Frame) (c : ℕ)
    → IsBare e log c
    → All (λ s. All (IsReadable mm s.0) s.1) index
    → (e' : Engine) × (copy_domains mm index e ≡ (ok tt, e'))
      × IsBare e' (log ++ frames_of (live_records mm index)) c
unfolding copy_domains
copy_domains_lem mm [] e log c b r = (e, refl, subst (λ l. IsBare e l c) (sym (append-nil log)) b)
copy_domains_lem mm ((a, m) ∷ index) e log c b r =
    let (e₁, eq₁, b₁) = copy_domain_lem mm a m [] e log c b tt r.0 in
    let (e', eq, b') = copy_domains_lem mm index e₁ (log ++ frames_of (live_of mm a m)) c b₁ r.1 in
    (e', rw eq₁ eq, subst (λ l. IsBare e' l c) (simp (map-append, append_assoc)) b')

-- The frames that Compact writes: those of the live records.
abbrev pub kept_log : Engine → List Frame
kept_log source = frames_of (live_records (mmap source) source.index)

-- The store of the live records is the source's.
view-kept_log :
    (source : Engine) (log : List Frame) (tail : List ℕ) (c b j : ℕ)
    → IsKept source log tail c
    → view (kept_log source) nothing b j ≡ view log nothing b j
view-kept_log source log tail c b j k =
    let mm = mmap source in
    let o = offset_of source.index b j in
    view-frames_of (live_records mm source.index) nothing b j
    ∙ sym (first_of-none (latest (live_records mm source.index) b j))
    ∙ latest-live_records mm source.index b j k.tidy.domains (tidy_domains source.index k.tidy.keys)
    ∙ ap (λ l. said l o) (mmap_whole source k.whole)
    ∙ said-view source.file source.next_offset (view log nothing) b j o (k.shows.at b j o refl)

-- When no system call fails: Compact of an open engine that holds a log succeeds, whatever stood at the new
-- path; the engine opened from the new file holds the live records' frames and no others, and answers every
-- read as the source does, where the new file with its snapshot stays below 2^32.
pub compact-open_engine :
    (source : Engine) (log : List Frame) (tail old : List ℕ) (c : ℕ)
    → IsKept source log tail c
    → source.is_closed ≡ false
    → 8192 + length (log_bytes (kept_log source)) + (13 + 28 * length (kept_log source)) < 256 ^ 4
    → (e₁ : Engine) × (e₂ : Engine) × (compact source (blank old []) ≡ (ok tt, e₁))
      × (open_engine (blank e₁.file []) ≡ (ok tt, e₂))
      × IsSealed e₂ (kept_log source) 1
      × ((b j : ℕ) → read_record e₂ b j ≡ read_record source b j)
unfolding compact
compact-open_engine source log tail old c k opened small =
    let mm = mmap source in
    let r =
      subst (λ l. All (λ s. All (IsReadable l s.0) s.1) source.index)
        (sym (mmap_whole source k.whole))
        (readable source.file source.next_offset log source.index k.storable k.tidy k.shows) in
    let (full, copied_eq, b) = copy_domains_lem mm source.index created [] 0 created-IsBare r in
    let room : length full.file + (13 + 28 * length (kept_log source)) < 256 ^ 4 =
      omega (arith, small, length-IsBare full (kept_log source) 0 b) in
    let (s, sealed_eq, sealed, open_s, size) =
      checkpoint-IsSealed full (kept_log source) [] 0 (IsBare-IsKept full (kept_log source) 0 b)
        b.opened (omega arith) room in
    let (e₂, opened_eq, sealed₂, open₂, same) = open_engine-IsSealed s (kept_log source) 1 sealed in
    (
      record s { mapped = 0 },
      e₂,
      rw (create_lem old, copied_eq, sealed_eq, shutdown_handles_calm s sealed.kept.calm) refl,
      opened_eq,
      sealed₂,
      λ b j.
          read_record-IsKept e₂ (kept_log source) _ 1 b j sealed₂.kept open₂
          ∙ ap answer (view-kept_log source log tail c b j k)
          ∙ sym (read_record-IsKept source log tail c b j k opened),
    )
