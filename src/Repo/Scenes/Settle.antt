-- ===== src/Repo/Scenes/Settle.antt =====
-- CreateTurnTopicL2, when no system call fails: a turn that is settled again keeps its place.
use mem_hop.Prelude.{
  subst, ℕ, ◌<◌, ◌^◌, ◌≡◌, refl, sym, ap, ◌∙◌, List, [], false, Option, none, some, ◌&&◌, ◌==◌,
  ==_self, arith,
}
use Prim.Native.String.{String}
use mem_hop.Prelude.Int.{ℤ}
use mem_hop.Errors.{Result, ok, err, not_found, ◌>>=◌}
use mem_hop.Storage.Engine.{Engine}
use mem_hop.Storage.Frame.RoundTrip.{IsStorable}
use mem_hop.Storage.Read.{read_record}
use mem_hop.Storage.Ready.{IsReady}
use mem_hop.Storage.Store.{frame_of}
use mem_hop.Index.Topics.{TopicSlot}
use mem_hop.Records.Laws.{IsLossless, write_json-read_record}
use mem_hop.Repo.Topics.{decode_topic, read_topic_lenient}
use mem_hop.Repo.Scenes.{settled, turn_topic, create_turn_topic_l2}

-- The topic of a turn, with its words and times at a place in the tree.
abbrev pub turn_at : ℕ → ℕ → List String → ℤ → ℤ → String → ℕ → Option ℕ → TopicSlot
turn_at scene topic keywords user agent name depth parent = record {
  id = topic;
  scene_id = scene;
  parent_id = parent;
  depth = depth;
  name = name;
  fused_keywords = keywords;
  user_timestamp = user;
  agent_timestamp = agent;
}

-- The place that a turn has: that of the topic stored there, or a root's without a name where nothing is stored.
abbrev pub IsPlace : Result (Option TopicSlot) → String → ℕ → Option ℕ → Type 0
IsPlace (err c) name depth parent = (c ≡ not_found) × (name ≡ "") × (depth ≡ 1) × (parent ≡ none)
IsPlace (ok none) name depth parent = ⊥
IsPlace (ok (some t)) name depth parent =
    (t.name ≡ name) × (t.depth ≡ depth) × (t.parent_id ≡ parent)

module _ (marshal : TopicSlot → Option (List ℕ)) (unmarshal : List ℕ → Option TopicSlot)
    (lossless : IsLossless marshal unmarshal) (a scene topic : ℕ) (la : a < 256 ^ 8)
    (lt : topic < 256 ^ 8) (name : String) (depth : ℕ) (parent : Option ℕ) where
  settled_at :
      (keywords : List String) (user agent : ℤ) (r : Result (Option TopicSlot))
      → IsPlace r name depth parent
      → settled marshal unmarshal (turn_topic marshal unmarshal scene topic keywords user agent) r
        ≡ ok (turn_at scene topic keywords user agent name depth parent)
  settled_at keywords user agent (err c) (gone, n, d, p) = rw (gone, n, d, p) refl
  settled_at keywords user agent (ok none) place = absurd place
  settled_at keywords user agent (ok (some t)) (n, d, p) = rw (n, d, p) refl

  -- One settle.
  settle_once :
      (e : Engine) (keywords : List String) (user agent : ℤ) (bytes : List ℕ)
      → e.plan ≡ []
      → IsReady e
      → IsPlace (read_topic_lenient unmarshal e a topic) name depth parent
      → marshal (turn_at scene topic keywords user agent name depth parent) ≡ some bytes
      → (e' : Engine) × (create_turn_topic_l2 marshal unmarshal a scene topic keywords user agent e
          ≡ (ok (turn_at scene topic keywords user agent name depth parent), e'))
        × IsReady e'
        × (e'.plan ≡ [])
        × (read_topic_lenient unmarshal e' a topic
            ≡ ok (some (turn_at scene topic keywords user agent name depth parent)))
        × ((b j : ℕ) → (a == b && topic == j) ≡ false → read_record e' b j ≡ read_record e b j)
  unfolding create_turn_topic_l2 read_topic_lenient
  settle_once e keywords user agent bytes calm ready place m =
      let t = turn_at scene topic keywords user agent name depth parent in
      let fits : IsStorable (frame_of a 4 topic bytes) = record {
        typed = omega arith;
        sized = lossless.sized t bytes m;
        agent = la;
        id = lt;
      } in
      let (e', eq, ready', calm', law) =
        write_json-read_record marshal unmarshal e a 4 topic t bytes calm ready fits m in
      let there : read_record e' a topic ≡ ok (4, bytes) =
        law a topic ∙ rw (==_self a, ==_self topic) refl in
      (
        e',
        rw (settled_at keywords user agent (read_record e a topic >>= decode_topic unmarshal) place)
            (rw eq refl),
        ready',
        calm',
        ap (λ x. x >>= decode_topic unmarshal) there ∙ rw (lossless.back t bytes m) refl,
        λ b j h. law b j ∙ rw h refl,
      )

  -- When no system call fails, on a ready engine: a turn is settled, and settled again with other words and times. Where
  -- a topic is stored there at the start, both answers have its name, depth and parent; where nothing is
  -- stored, they have no name and stand at depth 1 without a parent. Each has the words and times that it was
  -- given; the second reads back, and every other record reads as before both.
  pub create_turn_topic_l2_again :
      (e : Engine) (keywords keywords' : List String) (user agent user' agent' : ℤ)
      (bytes bytes' : List ℕ)
      → e.plan ≡ []
      → IsReady e
      → IsPlace (read_topic_lenient unmarshal e a topic) name depth parent
      → marshal (turn_at scene topic keywords user agent name depth parent) ≡ some bytes
      → marshal (turn_at scene topic keywords' user' agent' name depth parent) ≡ some bytes'
      → (e₁ : Engine) × (e₂ : Engine) × (create_turn_topic_l2 marshal unmarshal a scene topic
            keywords user agent e
          ≡ (ok (turn_at scene topic keywords user agent name depth parent), e₁))
        × (create_turn_topic_l2 marshal unmarshal a scene topic keywords' user' agent' e₁
            ≡ (ok (turn_at scene topic keywords' user' agent' name depth parent), e₂))
        × (read_topic_lenient unmarshal e₂ a topic
            ≡ ok (some (turn_at scene topic keywords' user' agent' name depth parent)))
        × ((b j : ℕ) → (a == b && topic == j) ≡ false → read_record e₂ b j ≡ read_record e b j)
  create_turn_topic_l2_again e keywords keywords' user agent user' agent' bytes bytes' calm ready
        place m m' =
      let (e₁, eq, ready₁, calm₁, here, law) =
        settle_once e keywords user agent bytes calm ready place m in
      let (e₂, eq', ready₂, calm₂, here', law') =
        settle_once e₁ keywords' user' agent' bytes' calm₁ ready₁
          (subst (λ r. IsPlace r name depth parent) (sym here) (refl, refl, refl)) m' in
      (e₁, e₂, eq, eq', here', λ b j h. law' b j h ∙ law b j h)
