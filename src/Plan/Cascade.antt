-- ===== src/Plan/Cascade.antt =====
-- internal/repo/l5layer.go: the steps that go with a deleted turn, PlanNodeIDsByTopicIDs and
-- DeletePlanNodesByIDs. Unmarshal of encoding/json is a parameter.
use mem_hop.Prelude.{
  ℕ, ◌≡◌, refl, sym, ap, ◌∙◌, List, [], ◌∷◌, Bool, false, Option, any, contains, ◌==◌, ◌&&◌, ◌||◌,
  if◌then◌else◌, Bool-cases, inl, inr,
}
use mem_hop.Errors.{Result, ok, io, ◌>>=◌}
use mem_hop.Storage.Engine.{Engine, Act, fail, pure, on_error, ◌>>=◌ as ◌and_then◌}
use mem_hop.Storage.Delete.{delete_record_batch}
use mem_hop.Records.{collect_all_strict, iter_all}
use mem_hop.Records.Laws.{collect_all_strict_lem}
use mem_hop.Plan.{Node}

-- The loop of PlanNodeIDsByTopicIDs.
unfoldable pub doomed_of : List ℕ → List Node → List ℕ
doomed_of topics [] = []
doomed_of topics (n ∷ ns) =
    let rest = doomed_of topics ns in if contains topics n.topic_id then n.id_hash ∷ rest else rest

unfoldable pub delete_plan_nodes_by_ids : ℕ → List ℕ → Act (Unit {0})
delete_plan_nodes_by_ids agent_id ids =
    on_error (delete_record_batch agent_id ids and_then λ n. pure tt) (λ c. fail io)

-- Whether a node is one of those topics' and has this id.
abbrev pub is_named : List ℕ → ℕ → Node → Bool
is_named topics x n = contains topics n.topic_id && n.id_hash == x

module _ (unmarshal : List ℕ → Option Node) where
  unfoldable pub plan_node_ids_by_topic_ids : Engine → ℕ → List ℕ → Result (List ℕ)
  plan_node_ids_by_topic_ids e agent_id [] = ok []
  plan_node_ids_by_topic_ids e agent_id (t ∷ ts) =
      collect_all_strict unmarshal e agent_id 15 >>= λ nodes. ok (doomed_of (t ∷ ts) nodes)

contains-doomed_of :
    (topics : List ℕ) (x : ℕ) (ns : List Node)
    → contains (doomed_of topics ns) x ≡ any (is_named topics x) ns
unfolding doomed_of
contains-doomed_of topics x [] = refl
contains-doomed_of topics x (n ∷ ns) = elim (Bool-cases (contains topics n.topic_id)) [
  | inl h ↦ rw h (ap (λ b. n.id_hash == x || b) (contains-doomed_of topics x ns))
  | inr h ↦ rw h (contains-doomed_of topics x ns)
]

no_topics : (x : ℕ) (ns : List Node) → any (is_named [] x) ns ≡ false
no_topics x [] = refl
no_topics x (n ∷ ns) = no_topics x ns

ok_inj : {A : Type 0} {a b : A} → ok a ≡ ok b → a ≡ b
ok_inj h = cc h

-- Where ids are answered, they are the ids of the steps that the scan of the bucket reads and that are one
-- of the topics', and no others.
pub plan_node_ids_by_topic_ids_lem :
    (unmarshal : List ℕ → Option Node) (e : Engine) (agent : ℕ) (topics ids : List ℕ) (x : ℕ)
    → plan_node_ids_by_topic_ids unmarshal e agent topics ≡ ok ids
    → contains ids x ≡ any (is_named topics x) (iter_all unmarshal e agent 15)
unfolding plan_node_ids_by_topic_ids
plan_node_ids_by_topic_ids_lem unmarshal e agent [] ids x h =
    ap (λ is. contains is x) (sym (ok_inj h)) ∙ sym (no_topics x (iter_all unmarshal e agent 15))
plan_node_ids_by_topic_ids_lem unmarshal e agent (t ∷ ts) ids x h =
    elim (collect_all_strict_lem unmarshal e agent 15) [
      | inl (eq, clean) ↦
          ap (λ is. contains is x) (sym (ok_inj (rw eq at h)))
          ∙ contains-doomed_of (t ∷ ts) x (iter_all unmarshal e agent 15)
      | inr (id, c, mem, read, hard, eq) ↦ absurd (cc (rw eq at h))
    ]
