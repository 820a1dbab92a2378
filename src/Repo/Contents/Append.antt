-- ===== src/Repo/Contents/Append.antt =====
-- AppendArchiveBatchL4, when no system call fails: what was appended is read back through the mirror.
use mem_hop.Prelude.{
  ℕ, ◌<◌, ◌^◌, ◌≡◌, refl, ap, ◌∙◌, List, [], ◌∷◌, Bool, false, Option, none, any, ◌&&◌, ◌==◌,
  ==_self, if◌then◌else◌, arith, All, map,
}
use mem_hop.Errors.{Result, ok}
use mem_hop.Storage.Engine.{Engine}
use mem_hop.Storage.Frame.RoundTrip.{IsStorable}
use mem_hop.Storage.Read.{read_record}
use mem_hop.Storage.Ready.{IsReady}
use mem_hop.Storage.Write.{RecordEntry}
use mem_hop.Storage.Store.Batch.{frame_of_entry, latest, over}
use mem_hop.Storage.Store.Batch.Read.{write_record_batch-read_record}
use mem_hop.Index.Content.{Entry, ContentIndex, at_topic, append, ids, all_ids}
use mem_hop.Index.Content.Order.{IsOrdered, append-IsOrdered}
use mem_hop.Records.{read_json}
use mem_hop.Records.Laws.{IsLossless}
use mem_hop.Repo.Contents.{
  ArchiveSlot, Contents, hash_content, entry_of, mirror, addressed, encode_all, address_all,
  append_archive_batch_l4,
}
use mem_hop.Repo.Contents.Reading.{read_archives_by_ids}
use mem_hop.Repo.Contents.Mirror.{
  over_first, IsFaithful, IsMirrored, IsAppendable, AreApart, All-map, faithful-ext,
  append-IsMirrored,
}

-- Whether one of the slots has this address.
abbrev pub is_addressed : (List ℕ → ℕ) → List ArchiveSlot → ℕ → Bool
is_addressed xxhash arcs j = any (λ arc. hash_content xxhash arc.topic_id arc.seq == j) arcs

module _ (marshal : ArchiveSlot → Option (List ℕ)) (unmarshal : List ℕ → Option ArchiveSlot)
    (xxhash : List ℕ → ℕ) (used : ℕ → ℕ → Bool) where
  -- A mirror that is right names, of each topic, records that all read back, in the order of its entries.
  faithful_reads :
      (e : Engine) (a u : ℕ) (es : List Entry)
      → All (IsFaithful marshal unmarshal xxhash used (read_record e a) u) es
      → (answer : List ArchiveSlot) × (read_archives_by_ids unmarshal e a (ids none es) ≡ ok answer)
        × (map entry_of answer ≡ es)
        × All (λ arc. arc.topic_id ≡ u) answer
  unfolding ids read_archives_by_ids read_json
  faithful_reads e a u [] f = ([], refl, refl, tt)
  faithful_reads e a u (x ∷ xs) ((arc, reads, at, same, addr, known), f) =
      let (answer, eq, back, all) = faithful_reads e a u xs f in
      (arc ∷ answer, rw (reads, eq) refl, rw (same, back) refl, (at, all))

  module _ (lossless : IsLossless marshal unmarshal)
      (apart : AreApart marshal unmarshal xxhash used) (a : ℕ) (la : a < 256 ^ 8)
      (hashed : (bytes : List ℕ) → xxhash bytes < 256 ^ 8) where
    -- What a batch of slots is encoded to, and what the mirror says of it.
    encode_all_lem :
        (arcs : List ArchiveSlot)
        → All (IsAppendable marshal unmarshal xxhash used) arcs
        → (ws : List RecordEntry) × (encode_all marshal xxhash a arcs ≡ ok ws)
          × All (λ w. IsStorable (frame_of_entry w)) ws
          × ((b j : ℕ) → (a == b && is_addressed xxhash arcs j) ≡ false → latest ws b j ≡ none)
          × ((idx : ContentIndex) (r r' : ℕ → Result (ℕ × List ℕ))
              → IsOrdered idx
              → IsMirrored marshal unmarshal xxhash used r idx
              → ((j : ℕ) → r' j ≡ over (latest ws a j) (r j))
              → IsOrdered (mirror (address_all marshal xxhash arcs) idx)
                × IsMirrored marshal unmarshal xxhash used r'
                    (mirror (address_all marshal xxhash arcs) idx))
    unfolding encode_all address_all mirror
    encode_all_lem [] s = (
      [],
      refl,
      tt,
      (λ b j h. refl),
      λ idx r r' o k h. (
        o,
        λ u.
            All-map marshal unmarshal xxhash used (IsFaithful marshal unmarshal xxhash used r u)
              (IsFaithful marshal unmarshal xxhash used r' u) (at_topic idx u)
              (λ e f. faithful-ext marshal unmarshal xxhash used r r' u e (h e.id_hash) f) (k u),
      ),
    )
    encode_all_lem (arc ∷ arcs) ((bytes, m, positive, known), s) =
        let (ws, eq, fit, quiet, keeps) = encode_all_lem arcs s in
        let id = hash_content xxhash arc.topic_id arc.seq in
        let w : RecordEntry = record {
          agent_id = a;
          record_type = 8;
          id_hash = id;
          payload = bytes;
        } in
        let storable : IsStorable (frame_of_entry w) = record {
          typed = omega arith;
          sized = lossless.sized (addressed marshal xxhash arc) bytes m;
          agent = la;
          id = hashed _;
        } in
        (
          w ∷ ws,
          rw (m, eq) refl,
          (storable, fit),
          (λ b j h. rw (quiet b j (ground (arith, h))) (ground (arith, h))),
          λ idx r r' o k h.
              keeps (append idx arc.topic_id (entry_of (addressed marshal xxhash arc)))
                (λ j. if id == j then ok (8, bytes) else r j) r'
                (append-IsOrdered idx arc.topic_id (entry_of (addressed marshal xxhash arc))
                  positive o)
                (append-IsMirrored marshal unmarshal xxhash used lossless apart arc bytes m known r
                  (λ j. if id == j then ok (8, bytes) else r j) (λ j. refl) idx o k)
                (λ j.
                  h j
                  ∙ over_first (latest ws a j) (a == a && id == j) (8, bytes) (r j)
                  ∙ rw (==_self a) refl),
        )

    -- When no system call fails, on a ready engine under an ordered mirror all of whose entries name records
    -- that read back as they say: a batch of slots is appended, the mirror stays so, the mirrored read of
    -- each topic succeeds and answers the slots of its entries, and records at other addresses read as
    -- before. The codec is assumed to lose nothing, and no two addresses in use to have the same hash.
    pub append_archive_batch_l4_lem :
        (arcs : List ArchiveSlot) (s : Contents)
        → s.engine.plan ≡ []
        → IsReady s.engine
        → IsOrdered s.index
        → IsMirrored marshal unmarshal xxhash used (read_record s.engine a) s.index
        → All (IsAppendable marshal unmarshal xxhash used) arcs
        → (s' : Contents) × (append_archive_batch_l4 marshal xxhash a arcs s ≡ (ok tt, s'))
          × IsReady s'.engine
          × (s'.engine.plan ≡ [])
          × (s'.index ≡ mirror (address_all marshal xxhash arcs) s.index)
          × IsOrdered s'.index
          × IsMirrored marshal unmarshal xxhash used (read_record s'.engine a) s'.index
          × ((u : ℕ)
              → (answer : List ArchiveSlot) × (read_archives_by_ids unmarshal s'.engine a
                    (all_ids s'.index u)
                  ≡ ok answer)
                × (map entry_of answer ≡ at_topic s'.index u)
                × All (λ arc. arc.topic_id ≡ u) answer)
          × ((b j : ℕ)
              → (a == b && is_addressed xxhash arcs j) ≡ false
              → read_record s'.engine b j ≡ read_record s.engine b j)
    unfolding append_archive_batch_l4 all_ids
    append_archive_batch_l4_lem arcs s calm ready o k can =
        let (ws, eq, fit, quiet, keeps) = encode_all_lem arcs can in
        let (os, e', eq', ready', calm', law) =
          write_record_batch-read_record ws s.engine calm ready fit in
        let idx = mirror (address_all marshal xxhash arcs) s.index in
        let (o', k') = keeps s.index (read_record s.engine a) (read_record e' a) o k (law a) in
        (
          record { engine = e'; index = idx },
          rw (eq, eq') refl,
          ready',
          calm',
          refl,
          o',
          k',
          (λ u. faithful_reads e' a u (at_topic idx u) (k' u)),
          λ b j h. law b j ∙ ap (λ w. over w (read_record s.engine b j)) (quiet b j h),
        )
