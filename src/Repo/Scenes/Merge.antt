-- ===== src/Repo/Scenes/Merge.antt =====
-- MergeScenesL2, when no system call fails: the topics of the merged scenes move, and the scenes go.
use mem_hop.Prelude.{
  ℕ, ◌<◌, ◌^◌, ◌≡◌, refl, ap, ◌∙◌, List, [], ◌∷◌, Bool, true, false, Option, none, some, ◌&&◌, ◌==◌,
  contains, All, if◌then◌else◌, arith, Bool-cases, inl, inr,
}
use mem_hop.Errors.{ok}
use mem_hop.Storage.Engine.{Engine}
use mem_hop.Storage.Frame.RoundTrip.{IsStorable}
use mem_hop.Storage.Read.{read_record}
use mem_hop.Storage.Ready.{IsReady}
use mem_hop.Storage.Write.{RecordEntry}
use mem_hop.Storage.Store.Batch.{frame_of_entry, latest, over}
use mem_hop.Storage.Store.Batch.Read.{write_record_batch-read_record}
use mem_hop.Storage.Store.Purge.{without, delete_record_batch-read_record}
use mem_hop.Index.Topics.{TopicSlot}
use mem_hop.Records.{collect_all_strict}
use mem_hop.Records.Laws.{IsLossless}
use mem_hop.Repo.Scenes.{moves, merge_scenes_l2}

-- The last topic of the list that has the id and is in one of the scenes.
abbrev pub later_or : Option TopicSlot → Bool → TopicSlot → Option TopicSlot
later_or (some t) here mine = some t
later_or none here mine = if here then some mine else none

abbrev pub moving : List ℕ → List TopicSlot → ℕ → Option TopicSlot
moving secondary [] j = none
moving secondary (t ∷ ts) j =
    later_or (moving secondary ts j) (contains secondary t.scene_id && t.id == j) t

later_or-false : (o : Option TopicSlot) (t : TopicSlot) → later_or o false t ≡ o
later_or-false none t = refl
later_or-false (some x) t = refl

abbrev word : Option (List ℕ) → Option (ℕ × List ℕ)
word none = none
word (some bytes) = some (4, bytes)

-- The record of a topic that moved.
abbrev pub moved_word : (TopicSlot → Option (List ℕ)) → ℕ → Option TopicSlot → Option (ℕ × List ℕ)
moved_word marshal primary none = none
moved_word marshal primary (some t) = word (marshal (record t { scene_id = primary }))

module _ (marshal : TopicSlot → Option (List ℕ)) (unmarshal : List ℕ → Option TopicSlot)
    (lossless : IsLossless marshal unmarshal) (a primary : ℕ) (la : a < 256 ^ 8) where
  -- A topic whose id fits its field and that can be marshalled in its new scene.
  abbrev pub IsMovable : TopicSlot → Type 0
  IsMovable t =
      (bytes : List ℕ) × (t.id < 256 ^ 8) × (marshal (record t { scene_id = primary }) ≡ some bytes)

  abbrev CanMove : Option TopicSlot → Type 0
  CanMove none = Unit {0}
  CanMove (some t) = IsMovable t

  moving-CanMove :
      (secondary : List ℕ) (ts : List TopicSlot) (j : ℕ)
      → All IsMovable ts
      → CanMove (moving secondary ts j)
  moving-CanMove secondary [] j can = tt
  moving-CanMove secondary (t ∷ ts) j can =
      last (moving secondary ts j) (contains secondary t.scene_id && t.id == j)
        (moving-CanMove secondary ts j can.1)
    where
      last : (o : Option TopicSlot) (here : Bool) → CanMove o → CanMove (later_or o here t)
      last (some x) here c = c
      last none true c = can.0
      last none false c = tt

  join :
      (o : Option TopicSlot) (here : Bool) (t : TopicSlot) (bytes : List ℕ)
      → CanMove o
      → marshal (record t { scene_id = primary }) ≡ some bytes
      → elim (moved_word marshal primary o) [
        | some v ↦ some v
        | none ↦ if here then some (4, bytes) else none
      ]
        ≡ moved_word marshal primary (later_or o here t)
  join (some x) here t bytes (more, lx, mx) m = rw mx refl
  join none true t bytes c m = rw m refl
  join none false t bytes c m = refl

  gated :
      (own here : Bool) (o : Option TopicSlot) (t : TopicSlot) (bytes : List ℕ)
      → CanMove o
      → marshal (record t { scene_id = primary }) ≡ some bytes
      → elim (if own then moved_word marshal primary o else none) [
        | some v ↦ some v
        | none ↦ if own && here then some (4, bytes) else none
      ]
        ≡ (if own then moved_word marshal primary (later_or o here t) else none)
  gated true here o t bytes c m = join o here t bytes c m
  gated false here o t bytes c m = refl

  moves_lem :
      (secondary : List ℕ) (ts : List TopicSlot)
      → All IsMovable ts
      → (ws : List RecordEntry) × (moves marshal unmarshal a primary secondary ts ≡ ok ws)
        × All (λ w. IsStorable (frame_of_entry w)) ws
        × ((b j : ℕ)
            → latest ws b j
              ≡ (if a == b then moved_word marshal primary (moving secondary ts j) else none))
  unfolding moves
  moves_lem secondary [] can = ([], refl, tt, λ b j. ground arith)
  moves_lem secondary (t ∷ ts) ((bytes, lt, m), can) =
      let (ws, eq, fit, law) = moves_lem secondary ts can in
      elim (Bool-cases (contains secondary t.scene_id)) [
        | inr stays ↦ (
          ws,
          rw stays eq,
          fit,
          λ b j. law b j ∙ rw (stays, later_or-false (moving secondary ts j) t) refl,
        )
        | inl goes ↦
            let w : RecordEntry = record {
              agent_id = a;
              record_type = 4;
              id_hash = t.id;
              payload = bytes;
            } in
            let storable : IsStorable (frame_of_entry w) = record {
              typed = omega arith;
              sized = lossless.sized (record t { scene_id = primary }) bytes m;
              agent = la;
              id = lt;
            } in
            (
              w ∷ ws,
              rw goes (rw (m, eq) refl),
              (storable, fit),
              λ b j.
                  rw (law b j, goes)
                    (gated (a == b) (t.id == j) (moving secondary ts j) t bytes
                      (moving-CanMove secondary ts j can) m),
            )
      ]

  -- When no system call fails, on a ready engine whose topics all read back and can be stored in their new scene:
  -- MergeScenesL2 succeeds; a topic of a merged scene reads in the primary one and otherwise as it was
  -- scanned; the records that the merged scenes name are gone; every other record reads as before.
  -- The codec loses nothing, and the ids have 64 bits.
  pub merge_scenes_l2_lem :
      (e : Engine) (secondary : List ℕ) (topics : List TopicSlot)
      → e.plan ≡ []
      → IsReady e
      → collect_all_strict unmarshal e a 4 ≡ ok topics
      → All IsMovable topics
      → (e' : Engine) × (merge_scenes_l2 marshal unmarshal a primary secondary e ≡ (ok tt, e'))
        × IsReady e'
        × (e'.plan ≡ [])
        × ((b j : ℕ)
            → read_record e' b j ≡ (
                without (a == b && contains secondary j) (
                  over
                    (if a == b
                      then moved_word marshal primary (moving secondary topics j)
                      else none)
                    (read_record e b j))))
  unfolding merge_scenes_l2
  merge_scenes_l2_lem e secondary topics calm ready scanned can =
      let (ws, eq, fit, law) = moves_lem secondary topics can in
      let (os, e₁, eq₁, ready₁, calm₁, law₁) = write_record_batch-read_record ws e calm ready fit in
      let (e₂, eq₂, ready₂, calm₂, law₂) =
        delete_record_batch-read_record e₁ calm₁ ready₁ a secondary in
      (
        e₂,
        rw scanned (rw eq (rw (eq₁, eq₂) refl)),
        ready₂,
        calm₂,
        λ b j.
            law₂ b j
            ∙ ap (without (a == b && contains secondary j))
                (law₁ b j ∙ ap (λ w. over w (read_record e b j)) (law b j)),
      )
