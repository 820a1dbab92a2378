-- ===== src/Examples/Topics.antt =====
-- A topic in a new database sinks and rises again. The codec writes a topic as eight numbers; it knows only
-- topics without a name and keywords.
use Prim.Native.String.{String}
use text.Mathlib.Text.{◌==◌ as str_eq}
use text.Mathlib.TextEquality.{eq_iff}
use mem_hop.Prelude.{
  ℕ, suc, zero, ◌<◌, ◌^◌, ◌≡◌, refl, sym, ap, ◌∙◌, List, [], ◌∷◌, Bool, true, false, Option, none,
  some, ◌&&◌, ◌==◌, if◌then◌else◌, arith, length, contains, All, subst, Bool-cases, inl, inr,
}
use mem_hop.Prelude.Int.{ℤ, pos, negsuc}
use mem_hop.Prelude.Map.{get}
use mem_hop.Errors.{ok, err, not_found, ◌>>=◌}
use mem_hop.Storage.Engine.{Engine}
use mem_hop.Storage.Read.{read_record}
use mem_hop.Storage.Fresh.{created, created-IsReady}
use mem_hop.Storage.Ready.{IsReady}
use mem_hop.Storage.Frame.RoundTrip.{IsStorable}
use mem_hop.Storage.Store.{frame_of}
use mem_hop.Index.Topics.{TopicSlot}
use mem_hop.Records.{write_json}
use mem_hop.Records.Laws.{IsLossless, write_json-read_record}
use mem_hop.Repo.Topics.{
  sink, decode_topic, read_topic_lenient, compress_topics_l2, restore_sunk_topics_l2,
}
use mem_hop.Repo.Topics.Sink.{sunk, IsSinkable, compress_topics_l2_lem}
use mem_hop.Repo.Topics.Undo.{IsUndoable, restore_sunk_topics_l2-compress_topics_l2}

abbrev pub sign : ℤ → ℕ
sign (pos n) = 0
sign (negsuc n) = 1

abbrev pub size : ℤ → ℕ
size (pos n) = n
size (negsuc n) = n

abbrev pub int_of : ℕ → ℕ → ℤ
int_of zero n = pos n
int_of (suc s) n = negsuc n

pub int_of_lem : (z : ℤ) → int_of (sign z) (size z) ≡ z
int_of_lem (pos n) = refl
int_of_lem (negsuc n) = refl

abbrev parent_code : Option ℕ → ℕ
parent_code none = 0
parent_code (some p) = suc p

abbrev parent_of : ℕ → Option ℕ
parent_of zero = none
parent_of (suc p) = some p

parent_of_lem : (o : Option ℕ) → parent_of (parent_code o) ≡ o
parent_of_lem none = refl
parent_of_lem (some p) = refl

abbrev pub numbers : TopicSlot → List ℕ
numbers t =
    t.id
    ∷ t.scene_id
    ∷ parent_code t.parent_id
    ∷ t.depth
    ∷ sign t.user_timestamp
    ∷ size t.user_timestamp
    ∷ sign t.agent_timestamp
    ∷ size t.agent_timestamp
    ∷ []

abbrev is_empty : List String → Bool
is_empty [] = true
is_empty (x ∷ xs) = false

is_empty_lem : (xs : List String) → is_empty xs ≡ true → xs ≡ []
is_empty_lem [] h = refl
is_empty_lem (x ∷ xs) h = absurd (cc h)

abbrev is_plain : TopicSlot → Bool
is_plain t = str_eq t.name "" && is_empty t.fused_keywords

abbrev pub marshal : TopicSlot → Option (List ℕ)
marshal t = if is_plain t then some (numbers t) else none

abbrev pub unmarshal : List ℕ → Option TopicSlot
unmarshal (i ∷ s ∷ p ∷ d ∷ us ∷ u ∷ gs ∷ g ∷ []) = some (record {
  id = i;
  scene_id = s;
  parent_id = parent_of p;
  depth = d;
  name = "";
  fused_keywords = [];
  user_timestamp = int_of us u;
  agent_timestamp = int_of gs g;
})
unmarshal bytes = none

pub true_parts : (p q : Bool) → (p && q) ≡ true → (p ≡ true) × (q ≡ true)
true_parts p q h = (ground (arith, h), ground (arith, h))

unmarshal-numbers : (t : TopicSlot) → is_plain t ≡ true → unmarshal (numbers t) ≡ some t
unmarshal-numbers t plain =
    let (n, k) = true_parts (str_eq t.name "") (is_empty t.fused_keywords) plain in
    let name = (eq_iff t.name "").0 n in
    let words = is_empty_lem t.fused_keywords k in
    λ i. some (record t {
      parent_id = parent_of_lem t.parent_id i;
      name = sym name i;
      fused_keywords = sym words i;
      user_timestamp = int_of_lem t.user_timestamp i;
      agent_timestamp = int_of_lem t.agent_timestamp i;
    })

back : (t : TopicSlot) (bytes : List ℕ) → marshal t ≡ some bytes → unmarshal bytes ≡ some t
back t bytes h = elim (Bool-cases (is_plain t)) [
  | inl plain ↦
      let same : numbers t ≡ bytes = cc (rw plain at h) in
      ap unmarshal (sym same) ∙ unmarshal-numbers t plain
  | inr fancy ↦ absurd (cc (rw fancy at h))
]

sized : (t : TopicSlot) (bytes : List ℕ) → marshal t ≡ some bytes → length bytes < 256 ^ 4
sized t bytes h = elim (Bool-cases (is_plain t)) [
  | inl plain ↦ let same : numbers t ≡ bytes = cc (rw plain at h) in omega (arith, ap length same)
  | inr fancy ↦ absurd (cc (rw fancy at h))
]

pub lossless : IsLossless marshal unmarshal
lossless = record { back = back; sized = sized }

abbrev pub topic : TopicSlot
topic = record {
  id = 20;
  scene_id = 3;
  parent_id = none;
  depth = 1;
  name = "";
  fused_keywords = [];
  user_timestamp = pos 5;
  agent_timestamp = negsuc 6;
}

pub topic-IsStorable : IsStorable (frame_of 1 4 20 (numbers topic))
topic-IsStorable = record {
  typed = omega arith;
  sized = omega arith;
  agent = omega arith;
  id = omega arith;
}

abbrev pub made :
    (e' : Engine) × (write_json marshal 1 4 20 topic created ≡ (ok tt, e'))
    × IsReady e'
    × (e'.plan ≡ [])
    × ((b j : ℕ)
        → read_record e' b j
          ≡ (if 1 == b && 20 == j then ok (4, numbers topic) else read_record created b j))
made =
    write_json-read_record marshal unmarshal created 1 4 20 topic (numbers topic) refl
      created-IsReady topic-IsStorable refl

abbrev engine : Engine
engine = made.0

here : read_topic_lenient unmarshal engine 1 20 ≡ ok (some topic)
unfolding read_topic_lenient
here = ap (λ r. r >>= decode_topic unmarshal) (made.4 1 20)

missing : read_topic_lenient unmarshal engine 1 30 ≡ err not_found
unfolding read_topic_lenient read_record get
missing = ap (λ r. r >>= decode_topic unmarshal) (made.4 1 30)

undoable :
    All (λ i. IsUndoable marshal 77 i (read_topic_lenient unmarshal engine 1 i)) (20 ∷ 30 ∷ [])
undoable = (
  subst (IsUndoable marshal 77 20) (sym here) (
    numbers (sink 77 topic),
    numbers topic,
    refl,
    omega arith,
    refl,
    refl,
    refl,
    omega arith,
    omega arith,
  ),
  (subst (IsUndoable marshal 77 30) (sym missing) refl, tt),
)

sinkable :
    All (λ i. IsSinkable marshal 77 i (read_topic_lenient unmarshal engine 1 i)) (20 ∷ 30 ∷ [])
sinkable = (
  subst (IsSinkable marshal 77 20) (sym here) (numbers (sink 77 topic), refl, omega arith, refl),
  (subst (IsSinkable marshal 77 30) (sym missing) refl, tt),
)

compress_topics_l2_lem_example :
    (e' : Engine) × (compress_topics_l2 marshal unmarshal 1 (20 ∷ 30 ∷ []) 77 engine ≡ (ok tt, e'))
    × IsReady e'
    × (e'.plan ≡ [])
    × ((b j : ℕ)
        → read_topic_lenient unmarshal e' b j ≡ (
            if 1 == b && contains (20 ∷ 30 ∷ []) j
            then sunk 77 (read_topic_lenient unmarshal engine b j)
            else read_topic_lenient unmarshal engine b j))
compress_topics_l2_lem_example =
    compress_topics_l2_lem marshal unmarshal engine 1 77 (20 ∷ 30 ∷ []) lossless made.3 made.2
      (omega arith) sinkable

restore_sunk_topics_l2-compress_topics_l2_example :
    (e₁ : Engine) × (e₂ : Engine) × (compress_topics_l2 marshal unmarshal 1 (20 ∷ 30 ∷ []) 77 engine
      ≡ (ok tt, e₁))
    × (restore_sunk_topics_l2 marshal unmarshal 1 (20 ∷ 30 ∷ []) 77 e₁ ≡ (ok tt, e₂))
    × ((b j : ℕ) → read_topic_lenient unmarshal e₂ b j ≡ read_topic_lenient unmarshal engine b j)
restore_sunk_topics_l2-compress_topics_l2_example =
    restore_sunk_topics_l2-compress_topics_l2 marshal unmarshal engine 1 77 (20 ∷ 30 ∷ []) lossless
      made.3 made.2 (omega arith) undoable
