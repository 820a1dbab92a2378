-- ===== src/Repo/Topics/Sink.antt =====
-- CompressTopicsL2, when no system call fails: every listed topic sinks one level or is deleted.
use mem_hop.Prelude.{
  ℕ, ◌<◌, ◌^◌, ◌≡◌, refl, ap, ◌∙◌, List, [], ◌∷◌, ◌++◌, Bool, true, false, Option, some, none, ◌==◌,
  ◌&&◌, ◌||◌, leb, if◌then◌else◌, contains, arith, All, Bool-cases, inl, inr, ==_iff, subst,
}
use mem_hop.Errors.{Result, ok, err, not_found, ◌>>=◌}
use mem_hop.Storage.Engine.{Engine}
use mem_hop.Storage.Read.{read_record}
use mem_hop.Storage.Frame.RoundTrip.{IsStorable}
use mem_hop.Storage.Write.{RecordEntry}
use mem_hop.Storage.Ready.{IsReady}
use mem_hop.Storage.Store.Batch.{frame_of_entry, latest, over, first_of, latest-append}
use mem_hop.Storage.Store.Batch.Read.{write_record_batch-read_record}
use mem_hop.Storage.Store.Purge.{without, delete_record_batch-read_record}
use mem_hop.Index.Topics.{TopicSlot}
use mem_hop.Records.{is_not_found}
use mem_hop.Records.Laws.{IsLossless}
use mem_hop.Repo.Topics.{
  Sinking, both_sinkings, no_sinking, sink, max_depth, decode_topic, read_topic_lenient, sink_one,
  sink_all, compress_topics_l2,
}

-- A read of a topic, and what sinking makes of it.
abbrev pub Reading : Type 0
Reading = Result (Option TopicSlot)

abbrev pub is_deep : ℕ → TopicSlot → Bool
is_deep parent t = leb max_depth (sink parent t).depth

abbrev pub sunk : ℕ → Reading → Reading
sunk parent (err c) = err c
sunk parent (ok none) = ok none
sunk parent (ok (some t)) = if is_deep parent t then err not_found else ok (some (sink parent t))

abbrev word : Option (List ℕ) → Option (ℕ × List ℕ)
word none = none
word (some bytes) = some (4, bytes)

module _ (marshal : TopicSlot → Option (List ℕ)) where
  -- The id is missing, or names a topic that stands at its own id and can be marshalled when it has sunk.
  abbrev pub IsSinkable : ℕ → ℕ → Reading → Type 0
  IsSinkable parent id (err c) = is_not_found c ≡ true
  IsSinkable parent id (ok none) = ⊥
  IsSinkable parent id (ok (some t)) =
      (bytes : List ℕ) × (t.id ≡ id) × (id < 256 ^ 8) × (marshal (sink parent t) ≡ some bytes)

  -- The write, and whether a deletion, that sinking asks for.
  abbrev wrote : ℕ → Reading → Option (ℕ × List ℕ)
  wrote parent (err c) = none
  wrote parent (ok none) = none
  wrote parent (ok (some t)) = if is_deep parent t then none else word (marshal (sink parent t))

  abbrev drowned : ℕ → Reading → Bool
  drowned parent (err c) = false
  drowned parent (ok none) = false
  drowned parent (ok (some t)) = is_deep parent t

-- What a pass asks for, of one id.
module _ (marshal : TopicSlot → Option (List ℕ)) (unmarshal : List ℕ → Option TopicSlot)
    (lossless : IsLossless marshal unmarshal) (a parent : ℕ) (la : a < 256 ^ 8) where
  abbrev AreStorable : Sinking → Type 0
  AreStorable p = All (λ r. IsStorable (frame_of_entry r)) p.writes

  sink_one_lem :
      (id : ℕ) (r : Reading)
      → IsSinkable marshal parent id r
      → (p : Sinking) × (sink_one marshal unmarshal a parent r ≡ ok p)
        × AreStorable p
        × ((b j : ℕ)
            → latest p.writes b j ≡ (if a == b && id == j then wrote marshal parent r else none))
        × ((j : ℕ) → contains p.deletes j ≡ (id == j && drowned marshal parent r))
  sink_one_lem id (err c) s = (no_sinking, rw s refl, tt, (λ b j. ground arith), λ j. ground arith)
  sink_one_lem id (ok none) s = absurd s
  sink_one_lem id (ok (some t)) (bytes, at, small, m) = elim (Bool-cases (is_deep parent t)) [
    | inl deep ↦ (
      record { writes = []; deletes = t.id ∷ [] },
      rw deep refl,
      tt,
      (λ b j. ground (arith, deep)),
      λ j. ground (arith, at, deep),
    )
    | inr room ↦ (
      record {
        writes = record { agent_id = a; record_type = 4; id_hash = t.id; payload = bytes } ∷ [];
        deletes = [];
      },
      rw (room, m) refl,
      (
        record {
          typed = omega arith;
          sized = lossless.sized (sink parent t) bytes m;
          agent = la;
          id = omega (arith, at);
        },
        tt,
      ),
      (λ b j. ground (arith, at, room, m)),
      λ j. ground (arith, room),
    )
  ]

  twice :
      (w : Option (ℕ × List ℕ)) (p q r : Bool)
      → first_of (if p && r then w else none) (if p && q then w else none)
        ≡ (if p && (q || r) then w else none)
  twice w false q r = refl
  twice none true q r = ground arith
  twice (some x) true q r = ground arith

  -- The same id reads the same.
  same_word :
      (e : Engine) (p : Bool) (i j : ℕ)
      → (if p && i == j then wrote marshal parent (read_topic_lenient unmarshal e a i) else none)
        ≡ (if p && i == j then wrote marshal parent (read_topic_lenient unmarshal e a j) else none)
  same_word e p i j = elim (Bool-cases (i == j)) [
    | inl same ↦
        ap
          (λ x.
            if p && i == j then wrote marshal parent (read_topic_lenient unmarshal e a x) else none)
          ((==_iff i j).0 same)
    | inr other ↦ ground (arith, other)
  ]

  same_drowned :
      (e : Engine) (i j : ℕ)
      → (i == j && drowned marshal parent (read_topic_lenient unmarshal e a i))
        ≡ (i == j && drowned marshal parent (read_topic_lenient unmarshal e a j))
  same_drowned e i j = elim (Bool-cases (i == j)) [
    | inl same ↦
        ap (λ x. i == j && drowned marshal parent (read_topic_lenient unmarshal e a x))
          ((==_iff i j).0 same)
    | inr other ↦ ground (arith, other)
  ]

  All-append :
      (rs ss : List RecordEntry)
      → All (λ r. IsStorable (frame_of_entry r)) rs
      → All (λ r. IsStorable (frame_of_entry r)) ss
      → All (λ r. IsStorable (frame_of_entry r)) (rs ++ ss)
  All-append [] ss h k = k
  All-append (r ∷ rs) ss h k = (h.0, All-append rs ss h.1 k)

  contains-append :
      (xs ys : List ℕ) (j : ℕ) → contains (xs ++ ys) j ≡ (contains xs j || contains ys j)
  contains-append [] ys j = refl
  contains-append (x ∷ xs) ys j = ground (arith, contains-append xs ys j)

  -- What the pass asks for, of all the ids.
  sink_all_lem :
      (e : Engine) (ids : List ℕ)
      → All (λ i. IsSinkable marshal parent i (read_topic_lenient unmarshal e a i)) ids
      → (p : Sinking) × (sink_all marshal unmarshal e a parent ids ≡ ok p)
        × AreStorable p
        × ((b j : ℕ)
            → latest p.writes b j ≡ (
                if a == b && contains ids j
                then wrote marshal parent (read_topic_lenient unmarshal e a j)
                else none))
        × ((j : ℕ)
            → contains p.deletes j
              ≡ (contains ids j && drowned marshal parent (read_topic_lenient unmarshal e a j)))
  unfolding sink_all
  sink_all_lem e [] s = (no_sinking, refl, tt, (λ b j. ground arith), λ j. refl)
  sink_all_lem e (i ∷ ids) s =
      let (p, eq, fit, words, drops) = sink_one_lem i (read_topic_lenient unmarshal e a i) s.0 in
      let (q, eq', fit', words', drops') = sink_all_lem e ids s.1 in
      (
        both_sinkings p q,
        rw (eq, eq') refl,
        All-append p.writes q.writes fit fit',
        (λ b j.
            latest-append p.writes q.writes b j
            ∙ rw (words b j, words' b j, same_word e (a == b) i j)
                (twice (wrote marshal parent (read_topic_lenient unmarshal e a j)) (a == b) (i == j)
                  (contains ids j))),
        λ j.
            contains-append p.deletes q.deletes j
            ∙ rw (drops j, drops' j, same_drowned e i j) (ground arith),
      )

sunk_read :
    (marshal : TopicSlot → Option (List ℕ)) (unmarshal : List ℕ → Option TopicSlot)
    (lossless : IsLossless marshal unmarshal) (parent id : ℕ) (raw : Result (ℕ × List ℕ))
    (r : Reading)
    → IsSinkable marshal parent id r
    → (raw >>= decode_topic unmarshal) ≡ r
    → (without (drowned marshal parent r) (over (wrote marshal parent r) raw)
        >>= decode_topic unmarshal)
      ≡ sunk parent r
sunk_read marshal unmarshal lossless parent id raw (err c) s h = h
sunk_read marshal unmarshal lossless parent id raw (ok none) s h = absurd s
sunk_read marshal unmarshal lossless parent id raw (ok (some t)) (bytes, at, small, m) h =
    elim (Bool-cases (is_deep parent t)) [
      | inl deep ↦ rw deep refl
      | inr room ↦ rw (room, m) (rw (lossless.back (sink parent t) bytes m) refl)
    ]

pub All-contains : (P : ℕ → Type 0) (ids : List ℕ) (j : ℕ) → All P ids → contains ids j ≡ true → P j
All-contains P [] j h c = absurd (cc c)
All-contains P (i ∷ ids) j h c = elim (Bool-cases (i == j)) [
  | inl same ↦ subst P ((==_iff i j).0 same) h.0
  | inr other ↦ All-contains P ids j h.1 (rw other at c)
]

gated :
    (p q d : Bool) (w : Option (ℕ × List ℕ)) (raw : Result (ℕ × List ℕ))
    → without (p && (q && d)) (over (if p && q then w else none) raw)
      ≡ (if p && q then without d (over w raw) else raw)
gated true true d w raw = refl
gated true false d w raw = refl
gated false q d w raw = refl

-- When no system call fails, on a ready engine whose listed ids are missing or name topics that can be
-- written again: CompressTopicsL2 succeeds; each listed topic has sunk one level under the parent, or is
-- gone where it would reach the depth of 4; every other topic of every domain reads as before.
-- The codec loses nothing, and the ids have 64 bits.
pub compress_topics_l2_lem :
    (marshal : TopicSlot → Option (List ℕ)) (unmarshal : List ℕ → Option TopicSlot) (e : Engine)
    (a parent : ℕ) (ids : List ℕ)
    → IsLossless marshal unmarshal
    → e.plan ≡ []
    → IsReady e
    → a < 256 ^ 8
    → All (λ i. IsSinkable marshal parent i (read_topic_lenient unmarshal e a i)) ids
    → (e' : Engine) × (compress_topics_l2 marshal unmarshal a ids parent e ≡ (ok tt, e'))
      × IsReady e'
      × (e'.plan ≡ [])
      × ((b j : ℕ)
          → read_topic_lenient unmarshal e' b j ≡ (
              if a == b && contains ids j
              then sunk parent (read_topic_lenient unmarshal e b j)
              else read_topic_lenient unmarshal e b j))
unfolding compress_topics_l2 read_topic_lenient
compress_topics_l2_lem marshal unmarshal e a parent ids lossless calm ready la s =
    let read = λ (j : ℕ). read_topic_lenient unmarshal e a j in
    let (p, eq, fit, words, drops) = sink_all_lem marshal unmarshal lossless a parent la e ids s in
    let (os, e₁, eq₁, ready₁, calm₁, law₁) =
      write_record_batch-read_record p.writes e calm ready fit in
    let (e₂, eq₂, ready₂, calm₂, law₂) =
      delete_record_batch-read_record e₁ calm₁ ready₁ a p.deletes in
    (
      e₂,
      rw (eq, eq₁, eq₂) refl,
      ready₂,
      calm₂,
      λ b j.
          ap (λ x. x >>= decode_topic unmarshal) (law₂ b j)
          ∙ rw (law₁ b j, words b j, drops j)
              (ap (λ x. x >>= decode_topic unmarshal)
                  (gated (a == b) (contains ids j) (drowned marshal parent (read j))
                    (wrote marshal parent (read j)) (read_record e b j))
                ∙ elim (Bool-cases (a == b && contains ids j)) [
                  | inr other ↦ rw other refl
                  | inl named ↦
                      let same : a ≡ b = ground (arith, named) in
                      let s' =
                        All-contains (λ i. IsSinkable marshal parent i (read i)) ids j s
                          (ground (arith, named)) in
                      rw named (
                        subst
                          (λ x.
                            (without (drowned marshal parent (read j))
                                (over (wrote marshal parent (read j)) (read_record e x j))
                              >>= decode_topic unmarshal)
                            ≡ sunk parent (read_record e x j >>= decode_topic unmarshal))
                          same
                          (sunk_read marshal unmarshal lossless parent j (read_record e a j)
                            (read j) s' refl))
                ]),
    )
