-- ===== src/Repo/Scenes/Turns.antt =====
-- Opening a turn of a scene, creating a scene, and settling a turn's topic, when no system call fails.
use mem_hop.Prelude.{
  ◌+◌, ◌%◌, ℕ, ◌<◌, ◌^◌, ◌≡◌, refl, ◌∙◌, List, [], false, Option, some, ◌&&◌, ◌==◌, ==_self,
  if◌then◌else◌, arith, Bool-cases, inl, inr,
}
use mem_hop.Prelude.Int.{ℤ}
use mem_hop.Errors.{Result, ok, err, not_found}
use mem_hop.Storage.Engine.{Engine}
use mem_hop.Storage.Frame.RoundTrip.{IsStorable}
use mem_hop.Storage.Read.{read_record}
use mem_hop.Storage.Ready.{IsReady}
use mem_hop.Storage.Store.{frame_of}
use mem_hop.Records.{read_json, is_not_found}
use mem_hop.Records.Laws.{IsLossless, write_json-read_json, write_json-read_record}
use mem_hop.Repo.Scenes.{SceneSlot, read_scene_slot, open_scene_turn, create_over, create_scene_l2}

-- A scene in which one more turn was opened.
abbrev pub turned : ℤ → SceneSlot → SceneSlot
turned stamp slot = record {
  scene_id = slot.scene_id;
  scene_name = slot.scene_name;
  turn_seq = (slot.turn_seq + 1) % 2 ^ 64;
  last_used_at = stamp;
  l3_id = slot.l3_id;
}

-- What CreateSceneL2 answers where the address reads so, and what reads there behind it.
abbrev pub created_answer : Result SceneSlot → Result (Unit {0})
created_answer (ok stored) = ok tt
created_answer (err c) = if is_not_found c then ok tt else err c

abbrev pub created_scene : SceneSlot → Result SceneSlot → Result SceneSlot
created_scene slot (ok stored) = ok stored
created_scene slot (err c) = if is_not_found c then ok slot else err c

module _ (marshal : SceneSlot → Option (List ℕ)) (unmarshal : List ℕ → Option SceneSlot)
    (lossless : IsLossless marshal unmarshal) where
  scene_fits :
      (a scene : ℕ) (slot : SceneSlot) (bytes : List ℕ)
      → a < 256 ^ 8
      → scene < 256 ^ 8
      → marshal slot ≡ some bytes
      → IsStorable (frame_of a 5 scene bytes)
  scene_fits a scene slot bytes la ls m = record {
    typed = omega arith;
    sized = lossless.sized slot bytes m;
    agent = la;
    id = ls;
  }

  -- When no system call fails, on a ready engine that holds the scene: OpenSceneTurn answers the scene with its turn
  -- counter one higher, modulo 2^64, with the stamp as its last use, and with all else as it was; this is what
  -- reads back; every other record reads as before.
  pub open_scene_turn_lem :
      (e : Engine) (a scene : ℕ) (stamp : ℤ) (slot : SceneSlot) (bytes : List ℕ)
      → e.plan ≡ []
      → IsReady e
      → a < 256 ^ 8
      → scene < 256 ^ 8
      → read_scene_slot marshal unmarshal e a scene ≡ ok slot
      → marshal (turned stamp slot) ≡ some bytes
      → (e' : Engine) × (open_scene_turn marshal unmarshal a scene stamp e
          ≡ (ok (turned stamp slot), e'))
        × IsReady e'
        × (e'.plan ≡ [])
        × ((b j u : ℕ)
            → read_json unmarshal e' b j u ≡ (
                if a == b && scene == j
                then (if 5 == u then ok (turned stamp slot) else err not_found)
                else read_json unmarshal e b j u))
  unfolding open_scene_turn
  open_scene_turn_lem e a scene stamp slot bytes calm ready la ls here m =
      let next = turned stamp slot in
      let (e', eq, ready', calm', law) =
        write_json-read_json marshal unmarshal e a 5 scene next bytes calm ready
          (scene_fits a scene next bytes la ls m) m (lossless.back next bytes m) in
      (e', rw here (rw eq refl), ready', calm', law)

  create_over_lem :
      (e : Engine) (a : ℕ) (slot : SceneSlot) (bytes : List ℕ) (r : Result SceneSlot)
      → e.plan ≡ []
      → IsReady e
      → a < 256 ^ 8
      → slot.scene_id < 256 ^ 8
      → marshal slot ≡ some bytes
      → read_scene_slot marshal unmarshal e a slot.scene_id ≡ r
      → (e' : Engine) × (create_over marshal unmarshal a slot r e ≡ (created_answer r, e'))
        × IsReady e'
        × (e'.plan ≡ [])
        × (read_scene_slot marshal unmarshal e' a slot.scene_id ≡ created_scene slot r)
        × ((b j : ℕ)
            → (a == b && slot.scene_id == j) ≡ false
            → read_record e' b j ≡ read_record e b j)
  unfolding read_json
  create_over_lem e a slot bytes (ok stored) calm ready la ls m here =
      (e, refl, ready, calm, here, λ b j h. refl)
  create_over_lem e a slot bytes (err c) calm ready la ls m here =
      elim (Bool-cases (is_not_found c)) [
        | inr hard ↦ (e, rw hard refl, ready, calm, here ∙ rw hard refl, λ b j h. refl)
        | inl free ↦
            let (e', eq, ready', calm', law) =
              write_json-read_record marshal unmarshal e a 5 slot.scene_id slot bytes calm ready
                (scene_fits a slot.scene_id slot bytes la ls m) m in
            (
              e',
              rw free eq,
              ready',
              calm',
              rw (law a slot.scene_id, ==_self a, ==_self slot.scene_id)
                  (rw (lossless.back slot bytes m, free) refl),
              λ b j h. law b j ∙ rw h refl,
            )
      ]

  -- When no system call fails, on a ready engine: CreateSceneL2 leaves a scene that reads back as it is, and a record
  -- that is damaged with its error; it stores the scene where there is none; no other record changes.
  -- The codec writes the scene and loses nothing, and the ids have 64 bits.
  pub create_scene_l2_lem :
      (e : Engine) (a : ℕ) (slot : SceneSlot) (bytes : List ℕ)
      → e.plan ≡ []
      → IsReady e
      → a < 256 ^ 8
      → slot.scene_id < 256 ^ 8
      → marshal slot ≡ some bytes
      → (e' : Engine) × (create_scene_l2 marshal unmarshal a slot e
          ≡ (created_answer (read_scene_slot marshal unmarshal e a slot.scene_id), e'))
        × IsReady e'
        × (e'.plan ≡ [])
        × (read_scene_slot marshal unmarshal e' a slot.scene_id
            ≡ created_scene slot (read_scene_slot marshal unmarshal e a slot.scene_id))
        × ((b j : ℕ)
            → (a == b && slot.scene_id == j) ≡ false
            → read_record e' b j ≡ read_record e b j)
  unfolding create_scene_l2
  create_scene_l2_lem e a slot bytes calm ready la ls m =
      create_over_lem e a slot bytes (read_scene_slot marshal unmarshal e a slot.scene_id) calm
        ready la ls m refl
