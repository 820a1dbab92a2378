-- ===== src/Index/Content/Order.antt =====
-- The entries of a topic stay in strictly rising Seq order: the binary search finds what it looks
-- for, one Seq has one entry, and the last entry has the highest Seq.
use mem_hop.Prelude.{
  ℕ, ◌<◌, ◌≤◌, ◌≡◌, refl, List, [], ◌∷◌, Option, none, some, arith, ltb, ◌==◌, if◌then◌else◌, All,
  Bool-cases, inl, inr, ◌&&◌,
}
use mem_hop.Prelude.Map.{get-put}
use mem_hop.Index.Content.{
  Entry, ContentIndex, at_topic, insert_entry, append, max_node_loop, max_node_seq, last_seq,
  max_seq,
}

-- Every Seq is above `low` and below those behind it.
abbrev pub RisesFrom : ℕ → List Entry → Type 0
RisesFrom low [] = Unit
RisesFrom low (e ∷ es) = (low < e.seq) × RisesFrom e.seq es

-- The entry at a Seq.
unfoldable pub find : List Entry → ℕ → Option Entry
find [] s = none
find (e ∷ es) s = if e.seq == s then some e else find es s

pub RisesFrom-weaken :
    {low low' : ℕ} (es : List Entry) → low' ≤ low → RisesFrom low es → RisesFrom low' es
RisesFrom-weaken [] h r = r
RisesFrom-weaken (e ∷ es) h r = (omega (arith, r.0), r.1)

pub insert_entry-RisesFrom :
    (low : ℕ) (e : Entry) (es : List Entry)
    → low < e.seq
    → RisesFrom low es
    → RisesFrom low (insert_entry e es)
unfolding insert_entry
insert_entry-RisesFrom low e [] h r = (h, tt)
insert_entry-RisesFrom low e (x ∷ xs) h r = elim (Bool-cases (ltb x.seq e.seq)) [
  | inl below ↦ rw below (r.0, insert_entry-RisesFrom x.seq e xs (ground (arith, below)) r.1)
  | inr above ↦ rw above (elim (Bool-cases (x.seq == e.seq)) [
    | inl same ↦ rw same (h, RisesFrom-weaken xs (ground (arith, same)) r.1)
    | inr other ↦ rw other (h, (ground (arith, above, other), r.1))
  ])
]

find_below : (es : List Entry) (low s : ℕ) → s ≤ low → RisesFrom low es → find es s ≡ none
unfolding find
find_below [] low s h r = refl
find_below (e ∷ es) low s h r = ground (arith, find_below es e.seq s, r.0)

find-insert_entry :
    (es : List Entry) (low : ℕ) (e : Entry) (s : ℕ)
    → RisesFrom low es
    → find (insert_entry e es) s ≡ (if e.seq == s then some e else find es s)
unfolding find insert_entry
find-insert_entry [] low e s r = refl
find-insert_entry (x ∷ xs) low e s r = ground (arith, find-insert_entry xs x.seq e s r.1)

-- Every topic in order, from Seq 1 on.
pub record IsOrdered (idx : ContentIndex) : Type 0 where
  pub rises : (topic : ℕ) → RisesFrom 0 (at_topic idx topic)

pub at_topic-append :
    (idx : ContentIndex) (t : ℕ) (e : Entry) (u : ℕ)
    → at_topic (append idx t e) u
      ≡ (if t == u then insert_entry e (at_topic idx t) else at_topic idx u)
unfolding append
at_topic-append idx t e u = ground (arith, get-put idx t (insert_entry e (at_topic idx t)) u)

-- An entry with a positive Seq keeps every topic in strictly rising Seq order.
pub append-IsOrdered :
    (idx : ContentIndex) (t : ℕ) (e : Entry)
    → 0 < e.seq
    → IsOrdered idx
    → IsOrdered (append idx t e)
append-IsOrdered idx t e h o = record {
  rises = λ u. rw (at_topic-append idx t e u) (elim (Bool-cases (t == u)) [
    | inl same ↦ rw same (insert_entry-RisesFrom 0 e (at_topic idx t) h (o.rises t))
    | inr other ↦ rw other (o.rises u)
  ]);
}

-- Append puts one entry at (topic, Seq), in place of the one that was there, and keeps all others.
pub find-append :
    (idx : ContentIndex) (t : ℕ) (e : Entry) (u s : ℕ)
    → IsOrdered idx
    → find (at_topic (append idx t e) u) s
      ≡ (if t == u && e.seq == s then some e else find (at_topic idx u) s)
find-append idx t e u s o =
    ground (arith, at_topic-append idx t e u, find-insert_entry (at_topic idx t) 0 e s (o.rises t))

last_seq-ge :
    (low : ℕ) (e : Entry) (es : List Entry) → RisesFrom low (e ∷ es) → e.seq ≤ last_seq (e ∷ es)
unfolding last_seq
last_seq-ge low e [] r = omega arith
last_seq-ge low e (f ∷ es) r = omega (arith, last_seq-ge e.seq f es r.1)

find_above_last :
    (es : List Entry) (low s : ℕ) → RisesFrom low es → last_seq es < s → find es s ≡ none
unfolding find last_seq
find_above_last [] low s r h = refl
find_above_last (e ∷ []) low s r h = ground arith
find_above_last (e ∷ f ∷ es) low s r h =
    ground (arith, find_above_last (f ∷ es) e.seq s r.1 h, last_seq-ge e.seq f es r.1, r.1.0)

-- No entry of the topic has a Seq above MaxSeq, so the next one is free.
pub max_seq_free :
    (idx : ContentIndex) (topic s : ℕ)
    → IsOrdered idx
    → max_seq idx topic < s
    → find (at_topic idx topic) s ≡ none
unfolding max_seq
max_seq_free idx topic s o h = find_above_last (at_topic idx topic) 0 s (o.rises topic) h

max_node_loop-ge : (es : List Entry) (top : ℕ) → top ≤ max_node_loop top es
unfolding max_node_loop
max_node_loop-ge [] top = omega arith
max_node_loop-ge (e ∷ es) top =
    ground (arith, max_node_loop-ge es (if ltb top e.node_seq then e.node_seq else top))

max_node_loop_bounds : (es : List Entry) (top : ℕ) → All (λ e. e.node_seq ≤ max_node_loop top es) es
unfolding max_node_loop
max_node_loop_bounds [] top = tt
max_node_loop_bounds (e ∷ es) top =
    let next = if ltb top e.node_seq then e.node_seq else top in
    (ground (arith, max_node_loop-ge es next), max_node_loop_bounds es next)

-- No record of the topic names a plan step above MaxNodeSeq.
pub max_node_seq_bounds :
    (idx : ContentIndex) (topic : ℕ)
    → All (λ e. e.node_seq ≤ max_node_seq idx topic) (at_topic idx topic)
unfolding max_node_seq
max_node_seq_bounds idx topic = max_node_loop_bounds (at_topic idx topic) 0
