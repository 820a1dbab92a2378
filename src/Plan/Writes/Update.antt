-- ===== src/Plan/Writes/Update.antt =====
-- What UpdateNode leaves in the record and in the plan cache, field by field.
use Prim.Native.String.{String}
use text.Mathlib.Text.{◌==◌ as str_eq}
use text.Mathlib.TextEquality.{eq_iff}
use mem_hop.Prelude.{
  ℕ, ◌<◌, ◌≡◌, ◌≢◌, refl, ap, ◌∙◌, List, [], ◌∷◌, Bool, true, false, Option, none, some, not, any,
  All, ◌==◌, ◌&&◌, ◌||◌, ==_iff, arith, if◌then◌else◌, Bool-cases, inl, inr, ◌⊎◌,
}
use mem_hop.Prelude.Int.{ℤ, pos, negsuc}
use mem_hop.Prelude.Map.{get, get-put}
use mem_hop.Errors.{ok, err, not_found}
use mem_hop.Storage.Ready.{IsReady}
use mem_hop.Storage.Frame.RoundTrip.{IsStorable}
use mem_hop.Storage.Store.{frame_of}
use mem_hop.Records.{read_json}
use mem_hop.Records.Laws.{write_json-read_json}
use mem_hop.Plan.{
  Node, PlanAggregate, PlanCache, recompute_plan_agg, nodes_of, tree_at, known_or_new, replace_node,
  upsert_tree, upsert_node,
}
use mem_hop.Plan.Status.{status_to_u8, is_terminal_status}
use mem_hop.Plan.Tree.{any-sort_by_seq}
use mem_hop.Plan.Writes.{
  Domain, Step, restate, is_zero, hash_plan_node, write_node, read_plan_node, update_node,
}
use mem_hop.Plan.Writes.Outcome.{write_plan_node_ok}

-- Of the nodes at most one has the id.
abbrev pub AtMostOnce : ℕ → List Node → Type 0
AtMostOnce id [] = Unit
AtMostOnce id (n ∷ ns) = (n.id_hash ≡ id → All (λ m. m.id_hash ≢ id) ns) × AtMostOnce id ns

-- The text that is stated, or the one that was there when it is left blank.
abbrev pub IsStated : String → String → String → Type 0
IsStated stated old new = (stated ≡ "" → new ≡ old) × (stated ≢ "" → new ≡ stated)

-- What a step is when `status` was stored for it at the moment `now`: done and failed are 1 and 2.
pub record IsRestated (now : ℤ) (status : ℕ) (step : Step) (old new : Node) : Type 0 where
  pub identity :
      (new.id_hash ≡ old.id_hash)
      × (new.topic_id ≡ old.topic_id)
      × (new.seq ≡ old.seq)
      × (new.parent_seq ≡ old.parent_seq)
      × (new.created_at ≡ old.created_at)
  pub state : (new.status ≡ status) × (new.updated_at ≡ now)
  pub title : IsStated step.title old.title new.title
  pub summary : IsStated step.summary old.summary new.summary
  pub folded :
      (step.summary ≡ "" → new.summary_folded ≡ old.summary_folded)
      × (step.summary ≢ "" → new.summary_folded ≡ false)
  pub running : status ≡ 0 → new.finished_at ≡ pos 0
  pub ends : (status ≡ 1) ⊎ (status ≡ 2) → old.finished_at ≡ pos 0 → new.finished_at ≡ now
  pub ended :
      (status ≡ 1) ⊎ (status ≡ 2) → old.finished_at ≢ pos 0 → new.finished_at ≡ old.finished_at

stated :
    {A : Type 0} (t : String) (old new : A)
    → (t ≡ "" → (if str_eq t "" then old else new) ≡ old)
      × (t ≢ "" → (if str_eq t "" then old else new) ≡ new)
stated t old new = (
  (λ h. rw ((eq_iff t "").1 h) refl),
  λ h. elim (Bool-cases (str_eq t "")) [
    | inl e ↦ absurd (h ((eq_iff t "").0 e))
    | inr e ↦ rw e refl
  ],
)

is_zero_lem : (z : ℤ) → z ≢ pos 0 → is_zero z ≡ false
is_zero_lem (pos n) h = elim (Bool-cases (n == 0)) [
  | inl e ↦ absurd (h (ap pos ((==_iff n 0).0 e)))
  | inr e ↦ e
]
is_zero_lem (negsuc n) h = refl

terminal : (status : ℕ) → (status ≡ 1) ⊎ (status ≡ 2) → is_terminal_status status ≡ true
terminal status (inl h) = rw h refl
terminal status (inr h) = rw h refl

restate-IsRestated :
    (now : ℤ) (status : ℕ) (step : Step) (node : Node)
    → IsRestated now status step node (restate now status step node)
unfolding restate
restate-IsRestated now status step node = record {
  identity = (refl, refl, refl, refl, refl);
  state = (refl, refl);
  title = stated step.title node.title step.title;
  summary = stated step.summary node.summary step.summary;
  folded = stated step.summary node.summary_folded false;
  running = λ h. rw h refl;
  ends = λ h z. rw (terminal status h) (rw z refl);
  ended = λ h z. rw (terminal status h) (rw (is_zero_lem node.finished_at z) refl);
}

any-others :
    (id : ℕ) (p : Node → Bool) (ns : List Node)
    → All (λ m. m.id_hash ≢ id) ns
    → any p ns ≡ any (λ n. not (n.id_hash == id) && p n) ns
any-others id p [] h = refl
any-others id p (n ∷ ns) h = ground (arith, h.0, any-others id p ns h.1)

any-replace_once :
    (p : Node → Bool) (node : Node) (ns : List Node)
    → AtMostOnce node.id_hash ns
    → any p (replace_node node ns)
      ≡ (p node || any (λ n. not (n.id_hash == node.id_hash) && p n) ns)
unfolding replace_node
any-replace_once p node [] h = refl
any-replace_once p node (n ∷ ns) h = elim (Bool-cases (n.id_hash == node.id_hash)) [
  | inl e ↦ rw (e, any-others node.id_hash p ns (h.0 ((==_iff n.id_hash node.id_hash).0 e))) refl
  | inr e ↦ rw (e, any-replace_once p node ns h.1) (ground arith)
]

known_nodes : (topic : ℕ) (o : Option PlanAggregate) → (known_or_new topic o).nodes ≡ nodes_of o
known_nodes topic none = refl
known_nodes topic (some agg) = refl

any-upsert_node :
    (p : Node → Bool) (cache : PlanCache) (t : ℕ) (node : Node) (k : ℕ)
    → AtMostOnce node.id_hash (tree_at cache t)
    → any p (tree_at (upsert_node cache t node) k) ≡ (
        if t == k
        then p node || any (λ n. not (n.id_hash == node.id_hash) && p n) (tree_at cache k)
        else any p (tree_at cache k))
unfolding upsert_node upsert_tree recompute_plan_agg
any-upsert_node p cache t node k once =
    let agg = known_or_new t (get cache t) in
    ap (λ o. any p (nodes_of o)) (get-put cache t (upsert_tree agg node) k)
    ∙ elim (Bool-cases (t == k)) [
      | inr other ↦ rw other refl
      | inl same ↦
          let here : t ≡ k = (==_iff t k).0 same in
          rw same (
            any-sort_by_seq p (replace_node node agg.nodes)
            ∙ ap (λ ns. any p (replace_node node ns)) (known_nodes t (get cache t))
            ∙ any-replace_once p node (tree_at cache t) once
            ∙ ap
                (λ x. p node || any (λ n. not (n.id_hash == node.id_hash) && p n) (tree_at cache x))
                here)
    ]

-- The text of a status and the number that is stored for it.
abbrev pub IsStatus : String → ℕ → Type 0
IsStatus text status =
    ((text ≡ "in_progress") × (status ≡ 0))
    ⊎ (((text ≡ "done") × (status ≡ 1)) ⊎ ((text ≡ "failed") × (status ≡ 2)))

status_to_u8-IsStatus :
    (text : String) (status : ℕ) → IsStatus text status → status_to_u8 text ≡ ok status
unfolding status_to_u8
status_to_u8-IsStatus text status (inl (t, s)) = rw (t, s) refl
status_to_u8-IsStatus text status (inr (inl (t, s))) = rw (t, s) refl
status_to_u8-IsStatus text status (inr (inr (t, s))) = rw (t, s) refl

module _ (marshal : Node → Option (List ℕ)) (unmarshal : List ℕ → Option Node)
    (xxhash : List ℕ → ℕ) where
  -- When no system call fails, on a ready engine, where the step reads back under its own address, its status is one of
  -- the three, the cache holds it at most once and the codec reads the restated step back: UpdateNode
  -- stores the step with that status and the new time, with the title and the summary that are stated or,
  -- where these are blank, those it had, and with the moment it ended set once and cleared when it runs
  -- again. That step is what reads back and what the cache holds in place of the old one; every other
  -- record and cached step is as before.
  pub update_node_lem :
      (agent : ℕ) (now : ℤ) (step : Step) (d : Domain) (status : ℕ) (node : Node)
      → d.engine.plan ≡ []
      → IsReady d.engine
      → IsStatus step.status status
      → read_plan_node marshal unmarshal xxhash d.engine agent
          (hash_plan_node xxhash step.topic_id step.seq)
        ≡ ok node
      → 0 < node.seq
      → node.id_hash ≡ hash_plan_node xxhash node.topic_id node.seq
      → AtMostOnce node.id_hash (tree_at d.plans node.topic_id)
      → ((new : Node)
          → IsRestated now status step node new
          → (bytes : List ℕ) × (marshal new ≡ some bytes)
            × (unmarshal bytes ≡ some new)
            × IsStorable (frame_of agent 15 node.id_hash bytes))
      → (d' : Domain) × (new : Node) × (update_node marshal unmarshal xxhash agent now step d
          ≡ (ok tt, d'))
        × IsRestated now status step node new
        × ((b j u : ℕ)
            → read_json unmarshal d'.engine b j u ≡ (
                if agent == b && node.id_hash == j
                then (if 15 == u then ok new else err not_found)
                else read_json unmarshal d.engine b j u))
        × ((p : Node → Bool) (topic : ℕ)
            → any p (tree_at d'.plans topic) ≡ (
                if node.topic_id == topic
                then p new
                  || any (λ n. not (n.id_hash == node.id_hash) && p n) (tree_at d.plans topic)
                else any p (tree_at d.plans topic)))
        × IsReady d'.engine
        × (d'.engine.plan ≡ [])
  unfolding update_node write_node restate
  update_node_lem agent now step d status node calm r known here nz addr once codec =
      let new = restate now status step node in
      let (bytes, m, u, s) = codec new (restate-IsRestated now status step node) in
      let (e', eq, r', calm', law) =
        write_json-read_json marshal unmarshal d.engine agent 15 node.id_hash new bytes calm r s m
          u in
      let wrote = write_plan_node_ok marshal unmarshal xxhash agent new d.engine e' nz addr eq in
      (
        record d { engine = e'; plans = upsert_node d.plans node.topic_id new },
        new,
        rw (status_to_u8-IsStatus step.status status known, here) (rw wrote refl),
        restate-IsRestated now status step node,
        law,
        (λ p topic. any-upsert_node p d.plans node.topic_id new topic once),
        r',
        calm',
      )
