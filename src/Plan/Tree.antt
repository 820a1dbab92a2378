-- ===== src/Plan/Tree.antt =====
-- internal/domain/plancache.go: what every operation on the cached trees keeps, and the ordinals
-- that it hands out.
use mem_hop.Prelude.{
  ℕ, List, [], ◌∷◌, ◌+◌, ◌%◌, ◌≤◌, ◌<◌, Bool, true, false, Option, none, some, not, leb, ltb, ◌==◌,
  ◌≡◌, ◌≢◌, inl, inr, ◌&&◌, ◌||◌, refl, sym, ap, ◌∙◌, subst, if◌then◌else◌, keep_if, contains, any,
  All, arith, Bool-cases, ==_iff, ==_self,
}
use mem_hop.Prelude.Int.{pos}
use mem_hop.Prelude.Map.{get, put, delete, get-put, get-delete}
use mem_hop.Plan.{
  Node, PlanAggregate, PlanCache, insert_by_seq, sort_by_seq, latest_loop, is_open,
  recompute_plan_agg, nodes_of, tree_at, has_seq, top_seq, next_seq, replace_node, known_or_new,
  upsert_tree, upsert_node, survivors, leave_nodes, remove_from_tree, remove_nodes, remove_topic,
}

-- Every ordinal is at least `low`, and they ascend.
abbrev pub AscendsFrom : ℕ → List Node → Type 0
AscendsFrom low [] = Unit
AscendsFrom low (n ∷ ns) = (low ≤ n.seq) × AscendsFrom n.seq ns

-- A cached tree: it has a node, its nodes are in order, and its two figures are those of its nodes.
abbrev pub IsTree : PlanAggregate → Type 0
IsTree agg =
    (agg.nodes ≢ [])
    × AscendsFrom 0 agg.nodes
    × (agg.last_active_at ≡ latest_loop (pos 0) agg.nodes)
    × (agg.has_non_done ≡ any is_open agg.nodes)

abbrev pub IsCache : PlanCache → Type 0
IsCache cache = (topic : ℕ) (agg : PlanAggregate) → get cache topic ≡ some agg → IsTree agg

AscendsFrom-le :
    (low high : ℕ) (ns : List Node) → low ≤ high → AscendsFrom high ns → AscendsFrom low ns
AscendsFrom-le low high [] l a = tt
AscendsFrom-le low high (n ∷ ns) l a = (omega (arith, a.0), a.1)

insert_by_seq-AscendsFrom :
    (low : ℕ) (n : Node) (ns : List Node)
    → low ≤ n.seq
    → AscendsFrom low ns
    → AscendsFrom low (insert_by_seq n ns)
unfolding insert_by_seq
insert_by_seq-AscendsFrom low n [] l a = (l, tt)
insert_by_seq-AscendsFrom low n (x ∷ xs) l a = elim (Bool-cases (leb n.seq x.seq)) [
  | inl e ↦ rw e (l, (ground arith, a.1))
  | inr e ↦ rw e (a.0, insert_by_seq-AscendsFrom x.seq n xs (ground arith) a.1)
]

pub sort_by_seq-AscendsFrom : (ns : List Node) → AscendsFrom 0 (sort_by_seq ns)
unfolding sort_by_seq
sort_by_seq-AscendsFrom [] = tt
sort_by_seq-AscendsFrom (n ∷ ns) =
    insert_by_seq-AscendsFrom 0 n (sort_by_seq ns) (omega arith) (sort_by_seq-AscendsFrom ns)

any-insert_by_seq :
    (p : Node → Bool) (n : Node) (ns : List Node) → any p (insert_by_seq n ns) ≡ (p n || any p ns)
unfolding insert_by_seq
any-insert_by_seq p n [] = refl
any-insert_by_seq p n (x ∷ xs) = elim (Bool-cases (leb n.seq x.seq)) [
  | inl e ↦ rw e refl
  | inr e ↦ rw (e, any-insert_by_seq p n xs) (ground arith)
]

pub any-sort_by_seq : (p : Node → Bool) (ns : List Node) → any p (sort_by_seq ns) ≡ any p ns
unfolding sort_by_seq
any-sort_by_seq p [] = refl
any-sort_by_seq p (n ∷ ns) = rw (any-insert_by_seq p n (sort_by_seq ns), any-sort_by_seq p ns) refl

-- A node that is replaced has the ordinal of the node that replaces it.
abbrev pub KeepsOrdinal : Node → List Node → Type 0
KeepsOrdinal node ns = All (λ n. n.id_hash ≡ node.id_hash → n.seq ≡ node.seq) ns

any-replace_node :
    (s : ℕ) (node : Node) (ns : List Node)
    → KeepsOrdinal node ns
    → any (λ n. n.seq == s) (replace_node node ns) ≡ ((node.seq == s) || any (λ n. n.seq == s) ns)
unfolding replace_node
any-replace_node s node [] k = refl
any-replace_node s node (n ∷ ns) k = elim (Bool-cases (n.id_hash == node.id_hash)) [
  | inl e ↦ rw (e, k.0 ((==_iff n.id_hash node.id_hash).0 e)) (ground arith)
  | inr e ↦ rw (e, any-replace_node s node ns k.1) (ground arith)
]

nonempty_of_any : (p : Node → Bool) (ns : List Node) → any p ns ≡ true → ns ≢ []
nonempty_of_any p [] h e = absurd (cc)
nonempty_of_any p (n ∷ ns) h e = absurd (cc)

pub sort_by_seq-nonempty : (ns : List Node) → ns ≢ [] → sort_by_seq ns ≢ []
sort_by_seq-nonempty [] h = absurd (h refl)
sort_by_seq-nonempty (n ∷ ns) h =
    nonempty_of_any (λ m. m.seq == n.seq) (sort_by_seq (n ∷ ns))
      (any-sort_by_seq (λ m. m.seq == n.seq) (n ∷ ns) ∙ rw (==_self n.seq) refl)

any-replace_node_self :
    (node : Node) (ns : List Node)
    → any (λ n. n.id_hash == node.id_hash) (replace_node node ns) ≡ true
unfolding replace_node
any-replace_node_self node [] = rw (==_self node.id_hash) refl
any-replace_node_self node (n ∷ ns) = elim (Bool-cases (n.id_hash == node.id_hash)) [
  | inl e ↦ rw (e, ==_self node.id_hash) refl
  | inr e ↦ rw (e, any-replace_node_self node ns) (ground arith)
]

pub recompute-figures :
    (agg : PlanAggregate)
    → agg.nodes ≢ []
    → AscendsFrom 0 agg.nodes
    → IsTree (recompute_plan_agg agg)
unfolding recompute_plan_agg
recompute-figures agg h a = (h, a, refl, refl)

upsert_tree-IsTree : (agg : PlanAggregate) (node : Node) → IsTree (upsert_tree agg node)
unfolding upsert_tree
upsert_tree-IsTree agg node =
    recompute-figures (record agg { nodes = sort_by_seq (replace_node node agg.nodes) })
      (nonempty_of_any (λ n. n.id_hash == node.id_hash) (sort_by_seq (replace_node node agg.nodes))
        (any-sort_by_seq (λ n. n.id_hash == node.id_hash) (replace_node node agg.nodes)
          ∙ any-replace_node_self node agg.nodes))
      (sort_by_seq-AscendsFrom (replace_node node agg.nodes))

same_tree : {a b : PlanAggregate} → some a ≡ some b → a ≡ b
same_tree e = cc

no_tree : {a : PlanAggregate} → none ≡ some a → ⊥
no_tree e = cc

get-put_same :
    (cache : PlanCache) (t : ℕ) (agg : PlanAggregate) (k : ℕ)
    → (t == k) ≡ true
    → get (put cache t agg) k ≡ some agg
get-put_same cache t agg k h = rw (get-put cache t agg k, h) refl

get-put_other :
    (cache : PlanCache) (t : ℕ) (agg : PlanAggregate) (k : ℕ)
    → (t == k) ≡ false
    → get (put cache t agg) k ≡ get cache k
get-put_other cache t agg k h = rw (get-put cache t agg k, h) refl

get-delete_same : (cache : PlanCache) (t k : ℕ) → (t == k) ≡ true → get (delete cache t) k ≡ none
get-delete_same cache t k h = rw (get-delete cache t k, h) refl

get-delete_other :
    (cache : PlanCache) (t k : ℕ) → (t == k) ≡ false → get (delete cache t) k ≡ get cache k
get-delete_other cache t k h = rw (get-delete cache t k, h) refl

pub put-IsCache :
    (cache : PlanCache) (t : ℕ) (agg : PlanAggregate)
    → IsCache cache
    → IsTree agg
    → IsCache (put cache t agg)
put-IsCache cache t agg c i topic found e = elim (Bool-cases (t == topic)) [
  | inl h ↦
      subst IsTree {x = agg} {y = found} (same_tree (sym (get-put_same cache t agg topic h) ∙ e)) i
  | inr h ↦ c topic found (sym (get-put_other cache t agg topic h) ∙ e)
]

delete-IsCache : (cache : PlanCache) (t : ℕ) → IsCache cache → IsCache (delete cache t)
delete-IsCache cache t c topic found e = elim (Bool-cases (t == topic)) [
  | inl h ↦ absurd (no_tree (sym (get-delete_same cache t topic h) ∙ e))
  | inr h ↦ c topic found (sym (get-delete_other cache t topic h) ∙ e)
]

keep_if-AscendsFrom :
    (p : Node → Bool) (low : ℕ) (ns : List Node)
    → AscendsFrom low ns
    → AscendsFrom low (keep_if p ns)
keep_if-AscendsFrom p low [] a = tt
keep_if-AscendsFrom p low (n ∷ ns) a = elim (Bool-cases (p n)) [
  | inl e ↦ rw e (a.0, keep_if-AscendsFrom p n.seq ns a.1)
  | inr e ↦ rw e (keep_if-AscendsFrom p low ns (AscendsFrom-le low n.seq ns a.0 a.1))
]

survivors-AscendsFrom :
    (doomed : List ℕ) (ns : List Node) → AscendsFrom 0 ns → AscendsFrom 0 (survivors doomed ns)
unfolding survivors
survivors-AscendsFrom doomed ns a =
    keep_if-AscendsFrom (λ n. not (contains doomed n.id_hash)) 0 ns a

leave_nodes-IsCache :
    (cache : PlanCache) (topic : ℕ) (agg : PlanAggregate) (left : List Node)
    → AscendsFrom 0 left
    → IsCache cache
    → IsCache (leave_nodes cache topic agg left)
unfolding leave_nodes
leave_nodes-IsCache cache topic agg [] a c = delete-IsCache cache topic c
leave_nodes-IsCache cache topic agg (x ∷ xs) a c =
    put-IsCache cache topic (recompute_plan_agg (record agg { nodes = x ∷ xs })) c
      (recompute-figures (record agg { nodes = x ∷ xs }) (λ e. absurd (cc)) a)

remove_from_tree-IsCache :
    (cache : PlanCache) (topic : ℕ) (doomed : List ℕ) (known : Option PlanAggregate)
    → get cache topic ≡ known
    → IsCache cache
    → IsCache (remove_from_tree cache topic doomed known)
unfolding remove_from_tree
remove_from_tree-IsCache cache topic doomed none e c = c
remove_from_tree-IsCache cache topic doomed (some agg) e c =
    leave_nodes-IsCache cache topic agg (survivors doomed agg.nodes)
      (survivors-AscendsFrom doomed agg.nodes ((c topic agg e).1)) c

remove_nodes-IsCache :
    (cache : PlanCache) (topic : ℕ) (doomed : List ℕ)
    → IsCache cache
    → IsCache (remove_nodes cache topic doomed)
unfolding remove_nodes
remove_nodes-IsCache cache topic doomed c =
    remove_from_tree-IsCache cache topic doomed (get cache topic) refl c

-- The writes that a domain makes into its cache.
pub data Change : Type 0 where
  upsert : Node → Change
  drop_nodes : ℕ → List ℕ → Change
  drop_topic : ℕ → Change

unfoldable pub change : Change → PlanCache → PlanCache
change (upsert node) cache = upsert_node cache node.topic_id node
change (drop_nodes topic doomed) cache = remove_nodes cache topic doomed
change (drop_topic topic) cache = remove_topic cache topic

unfoldable pub changes : List Change → PlanCache → PlanCache
changes [] cache = cache
changes (c ∷ cs) cache = changes cs (change c cache)

change-IsCache : (c : Change) (cache : PlanCache) → IsCache cache → IsCache (change c cache)
unfolding change upsert_node remove_topic
change-IsCache (upsert node) cache i =
    put-IsCache cache node.topic_id
      (upsert_tree (known_or_new node.topic_id (get cache node.topic_id)) node) i
      (upsert_tree-IsTree (known_or_new node.topic_id (get cache node.topic_id)) node)
change-IsCache (drop_nodes topic doomed) cache i = remove_nodes-IsCache cache topic doomed i
change-IsCache (drop_topic topic) cache i = delete-IsCache cache topic i

-- Any sequence of upserts, node removals and topic removals keeps every cached tree in order, with a
-- node and with the figures of its nodes.
pub changes-IsCache :
    (cs : List Change) (cache : PlanCache) → IsCache cache → IsCache (changes cs cache)
unfolding changes
changes-IsCache [] cache i = i
changes-IsCache (c ∷ cs) cache i = changes-IsCache cs (change c cache) (change-IsCache c cache i)

any-upsert_tree :
    (agg : PlanAggregate) (node : Node) (s : ℕ)
    → KeepsOrdinal node agg.nodes
    → any (λ n. n.seq == s) ((upsert_tree agg node).nodes)
      ≡ ((node.seq == s) || any (λ n. n.seq == s) agg.nodes)
unfolding upsert_tree recompute_plan_agg
any-upsert_tree agg node s k =
    any-sort_by_seq (λ n. n.seq == s) (replace_node node agg.nodes)
    ∙ any-replace_node s node agg.nodes k

known_or_new-nodes :
    (t : ℕ) (known : Option PlanAggregate) → (known_or_new t known).nodes ≡ nodes_of known
known_or_new-nodes t none = refl
known_or_new-nodes t (some agg) = refl

-- After an upsert a topic has the node's ordinal and those that it had, and the other topics have
-- theirs, where a cached node with the node's id has the node's ordinal.
pub has_seq-upsert_node :
    (cache : PlanCache) (t : ℕ) (node : Node) (topic s : ℕ)
    → KeepsOrdinal node (tree_at cache t)
    → has_seq (upsert_node cache t node) topic s
      ≡ (((t == topic) && (node.seq == s)) || has_seq cache topic s)
unfolding has_seq upsert_node
has_seq-upsert_node cache t node topic s k = elim (Bool-cases (t == topic)) [
  | inl h ↦
      rw
        (
          get-put_same cache t (upsert_tree (known_or_new t (get cache t)) node) topic h,
          h,
          sym ((==_iff t topic).0 h),
        )
        (any-upsert_tree (known_or_new t (get cache t)) node s
            (subst (KeepsOrdinal node) (sym (known_or_new-nodes t (get cache t))) k)
          ∙ ap (λ ns. (node.seq == s) || any (λ n. n.seq == s) ns)
              (known_or_new-nodes t (get cache t)))
  | inr h ↦
      rw (get-put_other cache t (upsert_tree (known_or_new t (get cache t)) node) topic h, h) refl
]

-- The loop of NextSeq is above every ordinal.
top_seq-bound :
    (top bound : ℕ) (ns : List Node)
    → top_seq top ns ≤ bound
    → (top ≤ bound) × All (λ n. n.seq ≤ bound) ns
unfolding top_seq
top_seq-bound top bound [] h = (h, tt)
top_seq-bound top bound (n ∷ ns) h = elim (Bool-cases (ltb top n.seq)) [
  | inl e ↦
      let rest =
        top_seq-bound n.seq bound ns
          (subst (λ b. top_seq (if b then n.seq else top) ns ≤ bound) e h) in
      (ground (arith, rest.0), (rest.0, rest.1))
  | inr e ↦
      let rest =
        top_seq-bound top bound ns
          (subst (λ b. top_seq (if b then n.seq else top) ns ≤ bound) e h) in
      (rest.0, (ground (arith, rest.0), rest.1))
]

top_seq-below :
    (top limit : ℕ) (ns : List Node)
    → top < limit
    → All (λ n. n.seq < limit) ns
    → top_seq top ns < limit
unfolding top_seq
top_seq-below top limit [] l h = l
top_seq-below top limit (n ∷ ns) l h = elim (Bool-cases (ltb top n.seq)) [
  | inl e ↦ rw e (top_seq-below n.seq limit ns h.0 h.1)
  | inr e ↦ rw e (top_seq-below top limit ns l h.1)
]

any_above : (s : ℕ) (ns : List Node) → All (λ n. n.seq < s) ns → any (λ n. n.seq == s) ns ≡ false
any_above s [] h = refl
any_above s (n ∷ ns) h = rw (any_above s ns h.1) (ground (arith, h.0))

All_lt : (a b : ℕ) (ns : List Node) → a < b → All (λ n. n.seq ≤ a) ns → All (λ n. n.seq < b) ns
All_lt a b [] l h = tt
All_lt a b (n ∷ ns) l h = (omega (arith, h.0), All_lt a b ns l h.1)

next_of : ℕ → ℕ → ℕ
next_of top reserved = ((if ltb top reserved then reserved else top) + 1) % 4294967296

next_of-above :
    (top reserved : ℕ)
    → top < 4294967295
    → reserved < 4294967295
    → (top < next_of top reserved) × (reserved < next_of top reserved)
unfolding next_of
next_of-above top reserved t r = (ground arith, ground arith)

-- Below the last uint32, the ordinal that NextSeq hands out is above the reserved one, is not 0 and is
-- no cached node's.
pub next_seq_free :
    (cache : PlanCache) (topic reserved : ℕ)
    → All (λ n. n.seq < 4294967295) (tree_at cache topic)
    → reserved < 4294967295
    → (reserved < next_seq cache topic reserved)
      × (has_seq cache topic (next_seq cache topic reserved) ≡ false)
unfolding next_seq has_seq next_of
next_seq_free cache topic reserved h r =
    let ns = tree_at cache topic in
    let above =
      next_of-above (top_seq 0 ns) reserved (top_seq-below 0 4294967295 ns (omega arith) h) r in
    (
      above.1,
      any_above (next_of (top_seq 0 ns) reserved) ns (
          All_lt (top_seq 0 ns) (next_of (top_seq 0 ns) reserved) ns above.0
            ((top_seq-bound 0 (top_seq 0 ns) ns (omega arith)).1)),
    )
