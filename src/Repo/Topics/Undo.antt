-- ===== src/Repo/Topics/Undo.antt =====
-- A sink and its undoing: what the rollback of a consolidation leaves.
use mem_hop.Prelude.{
  ℕ, ◌+◌, ◌-◌, ◌<◌, ◌≤◌, ◌%◌, ◌^◌, ◌≡◌, refl, sym, ap, ◌∙◌, List, [], Bool, true, false, Option,
  some, none, ◌==◌, ◌&&◌, ltb, if◌then◌else◌, contains, arith, All, Bool-cases, inl, inr, ==_self,
  subst,
}
use mem_hop.Errors.{ok, err}
use mem_hop.Storage.Engine.{Engine}
use mem_hop.Storage.Ready.{IsReady}
use mem_hop.Index.Topics.{TopicSlot}
use mem_hop.Records.{is_not_found}
use mem_hop.Records.Laws.{IsLossless}
use mem_hop.Repo.Topics.{sink, rise, read_topic_lenient, restore_sunk_topics_l2, compress_topics_l2}
use mem_hop.Repo.Topics.Sink.{
  Reading, sunk, is_deep, IsSinkable, compress_topics_l2_lem, All-contains,
}
use mem_hop.Repo.Topics.Restore.{risen, IsRisable, restore_sunk_topics_l2_lem, All-then}

module _ (marshal : TopicSlot → Option (List ℕ)) (parent : ℕ) where
  -- The id is missing, or names a topic with no parent that can sink without being deleted.
  abbrev pub IsUndoable : ℕ → Reading → Type 0
  IsUndoable id (err c) = is_not_found c ≡ true
  IsUndoable id (ok none) = ⊥
  IsUndoable id (ok (some t)) =
      (after before : List ℕ) × (t.id ≡ id)
      × (id < 256 ^ 8)
      × (marshal (sink parent t) ≡ some after)
      × (marshal t ≡ some before)
      × (t.parent_id ≡ none)
      × (1 ≤ t.depth)
      × (t.depth < 3)

  rise-sink :
      (t : TopicSlot) → t.parent_id ≡ none → 1 ≤ t.depth → t.depth < 3 → rise (sink parent t) ≡ t
  rise-sink t orphan low high =
      let d : (if ltb 1 ((t.depth + 1) % 256) then (t.depth + 1) % 256 - 1 else (t.depth + 1) % 256)
          ≡ t.depth =
        ground arith in
      λ i. record t { depth = d i; parent_id = sym orphan i }

  shallow : (t : TopicSlot) → t.depth < 3 → is_deep parent t ≡ false
  shallow t high = ground arith

  sinkable : (id : ℕ) (r : Reading) → IsUndoable id r → IsSinkable marshal parent id r
  sinkable id (err c) u = u
  sinkable id (ok none) u = u
  sinkable id (ok (some t)) (after, before, at, small, m, m', orphan, low, high) =
      (after, at, small, m)

  risen-sunk : (id : ℕ) (r : Reading) → IsUndoable id r → risen parent (sunk parent r) ≡ r
  risen-sunk id (err c) u = refl
  risen-sunk id (ok none) u = refl
  risen-sunk id (ok (some t)) (after, before, at, small, m, m', orphan, low, high) =
      rw (shallow t high, ==_self parent) (ap (λ x. ok (some x)) (rise-sink t orphan low high))

  risable :
      (unmarshal : List ℕ → Option TopicSlot) (id : ℕ) (r : Reading)
      → IsUndoable id r
      → IsRisable marshal unmarshal parent id (sunk parent r)
  risable unmarshal id (err c) u = u
  risable unmarshal id (ok none) u = absurd u
  risable unmarshal id (ok (some t)) (after, before, at, small, m, m', orphan, low, high) =
      rw (shallow t high, ==_self parent)
        (before, at, small, ap marshal (rise-sink t orphan low high) ∙ m')

  unsunk :
      (unmarshal : List ℕ → Option TopicSlot) (id : ℕ) (r : Reading)
      → IsUndoable id r
      → IsRisable marshal unmarshal parent id r
  unsunk unmarshal id (err c) u = u
  unsunk unmarshal id (ok none) u = absurd u
  unsunk unmarshal id (ok (some t)) (after, before, at, small, m, m', orphan, low, high) =
      rw orphan tt

  either :
      (unmarshal : List ℕ → Option TopicSlot) (p : Bool) (id : ℕ) (r : Reading)
      → IsUndoable id r
      → IsRisable marshal unmarshal parent id (if p then sunk parent r else r)
  either unmarshal true id r u = risable unmarshal id r u
  either unmarshal false id r u = unsunk unmarshal id r u

-- When no system call fails, on a ready engine whose listed ids are missing or name topics of depth 1 or 2
-- with no parent: CompressTopicsL2 and the RestoreSunkTopicsL2 that follows succeed, and every topic of every
-- domain reads as before the two.
-- The codec loses nothing, and the ids have 64 bits.
pub restore_sunk_topics_l2-compress_topics_l2 :
    (marshal : TopicSlot → Option (List ℕ)) (unmarshal : List ℕ → Option TopicSlot) (e : Engine)
    (a parent : ℕ) (ids : List ℕ)
    → IsLossless marshal unmarshal
    → e.plan ≡ []
    → IsReady e
    → a < 256 ^ 8
    → All (λ i. IsUndoable marshal parent i (read_topic_lenient unmarshal e a i)) ids
    → (e₁ : Engine) × (e₂ : Engine) × (compress_topics_l2 marshal unmarshal a ids parent e
        ≡ (ok tt, e₁))
      × (restore_sunk_topics_l2 marshal unmarshal a ids parent e₁ ≡ (ok tt, e₂))
      × ((b j : ℕ) → read_topic_lenient unmarshal e₂ b j ≡ read_topic_lenient unmarshal e b j)
restore_sunk_topics_l2-compress_topics_l2 marshal unmarshal e a parent ids lossless calm ready la
      u =
    let read = λ (i : ℕ). read_topic_lenient unmarshal e a i in
    let (e₁, eq₁, ready₁, calm₁, law₁) =
      compress_topics_l2_lem marshal unmarshal e a parent ids lossless calm ready la (
        All-then marshal unmarshal lossless a parent la (λ i. IsUndoable marshal parent i (read i))
          (λ i. IsSinkable marshal parent i (read i)) ids
          (λ i h. sinkable marshal parent i (read i) h) u) in
    let (e₂, eq₂, ready₂, calm₂, law₂) =
      restore_sunk_topics_l2_lem marshal unmarshal lossless a parent la e₁ ids calm₁ ready₁ (
        All-then marshal unmarshal lossless a parent la (λ i. IsUndoable marshal parent i (read i))
          (λ i. IsRisable marshal unmarshal parent i (read_topic_lenient unmarshal e₁ a i)) ids
          (λ i h.
            subst (IsRisable marshal unmarshal parent i) (sym (law₁ a i))
              (either marshal parent unmarshal (a == a && contains ids i) i (read i) h))
          u) in
    (
      e₁,
      e₂,
      eq₁,
      eq₂,
      λ b j.
          law₂ b j
          ∙ ap (λ x. if a == b && contains ids j then risen parent x else x) (law₁ b j)
          ∙ elim (Bool-cases (a == b && contains ids j)) [
            | inr other ↦ rw other refl
            | inl named ↦
                let same : a ≡ b = ground (arith, named) in
                rw named (
                  subst
                    (λ x.
                      risen parent (sunk parent (read_topic_lenient unmarshal e x j))
                      ≡ read_topic_lenient unmarshal e x j)
                    same
                    (risen-sunk marshal parent j (read j) (
                      All-contains (λ i. IsUndoable marshal parent i (read i)) ids j u
                        (ground (arith, named)))))
          ],
    )
