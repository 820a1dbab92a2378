-- ===== src/Plan/Writes/Refused.antt =====
-- internal/plan/write.go: what a call that fails leaves of the mirrors.
use mem_hop.Prelude.{
  ℕ, ◌≡◌, sym, ap, List, Option, none, some, not, ◌==◌, ◌&&◌, Bool-cases, inl, inr,
}
use mem_hop.Prelude.Int.{ℤ}
use mem_hop.Errors.{Code, Result, ok, err}
use mem_hop.Storage.Engine.{Engine}
use mem_hop.Index.Content.{max_node_seq}
use mem_hop.Plan.{Node, has_seq, next_seq}
use mem_hop.Plan.Status.{status_to_u8}
use mem_hop.Plan.Writes.{
  hash_plan_node, Domain, NodeSpec, Step, new_node, restate, write_plan_node, cached, write_node,
  read_plan_node, refused, create_at, create_node, update_read, update_status, update_node,
}

-- The mirrors are as they were.
abbrev pub IsUntouched : Domain → Domain → Type 0
IsUntouched d d' = (d'.plans ≡ d.plans) × (d'.content ≡ d.content)

module _ (marshal : Node → Option (List ℕ)) (unmarshal : List ℕ → Option Node)
    (xxhash : List ℕ → ℕ) where
  cached_err :
      {A : Type 0} (a : A) (node : Node) (d d' : Domain) (c : Code) (r : Result (Unit {0}) × Engine)
      → cached marshal unmarshal xxhash a node d r ≡ (err c, d')
      → IsUntouched d d'
  cached_err a node d d' c (ok u, e) h = absurd (cc (ap (λ x. x.0) h))
  cached_err a node d d' c (err k, e) h =
      (ap (λ x. x.1.plans) (sym h), ap (λ x. x.1.content) (sym h))

  create_at_err :
      (agent : ℕ) (now : ℤ) (spec : NodeSpec) (seq : ℕ) (d d' : Domain) (o : Option Code) (c : Code)
      → create_at marshal unmarshal xxhash agent now spec seq d o ≡ (err c, d')
      → IsUntouched d d'
  unfolding write_node
  create_at_err agent now spec seq d d' (some k) c h =
      (ap (λ x. x.1.plans) (sym h), ap (λ x. x.1.content) (sym h))
  create_at_err agent now spec seq d d' none c h =
      cached_err seq (new_node (hash_plan_node xxhash spec.topic_id seq) spec seq now) d d' c
        (write_plan_node marshal unmarshal xxhash agent
          (new_node (hash_plan_node xxhash spec.topic_id seq) spec seq now) d.engine)
        h

  -- However the system calls end: where CreateNode answers an error, the plan cache and the content index
  -- are as they were.
  pub create_node_err :
      (agent : ℕ) (now : ℤ) (spec : NodeSpec) (d d' : Domain) (c : Code)
      → create_node marshal unmarshal xxhash agent now spec d ≡ (err c, d')
      → IsUntouched d d'
  unfolding create_node
  create_node_err agent now spec d d' c h =
      let seq = next_seq d.plans spec.topic_id (max_node_seq d.content spec.topic_id) in
      let o = refused marshal unmarshal xxhash (
        read_plan_node marshal unmarshal xxhash d.engine agent
          (hash_plan_node xxhash spec.topic_id seq)) in
      elim (Bool-cases
        (not (spec.parent_seq == 0) && not (has_seq d.plans spec.topic_id spec.parent_seq))) [
          | inl orphan ↦
              let g = rw orphan at h in (ap (λ x. x.1.plans) (sym g), ap (λ x. x.1.content) (sym g))
          | inr known ↦ create_at_err agent now spec seq d d' o c (rw known at h)
        ]

  update_read_err :
      (agent : ℕ) (now : ℤ) (status : ℕ) (step : Step) (d d' : Domain) (r : Result Node) (c : Code)
      → update_read marshal unmarshal xxhash agent now status step d r ≡ (err c, d')
      → IsUntouched d d'
  unfolding write_node
  update_read_err agent now status step d d' (err k) c h =
      (ap (λ x. x.1.plans) (sym h), ap (λ x. x.1.content) (sym h))
  update_read_err agent now status step d d' (ok node) c h =
      cached_err tt (restate now status step node) d d' c
        (write_plan_node marshal unmarshal xxhash agent (restate now status step node) d.engine) h

  update_status_err :
      (agent : ℕ) (now : ℤ) (step : Step) (d d' : Domain) (r : Result ℕ) (c : Code)
      → update_status marshal unmarshal xxhash agent now step d r ≡ (err c, d')
      → IsUntouched d d'
  update_status_err agent now step d d' (err k) c h =
      (ap (λ x. x.1.plans) (sym h), ap (λ x. x.1.content) (sym h))
  update_status_err agent now step d d' (ok status) c h =
      update_read_err agent now status step d d'
        (read_plan_node marshal unmarshal xxhash d.engine agent
          (hash_plan_node xxhash step.topic_id step.seq))
        c h

  -- However the system calls end: where UpdateNode answers an error, the plan cache and the content index
  -- are as they were.
  pub update_node_err :
      (agent : ℕ) (now : ℤ) (step : Step) (d d' : Domain) (c : Code)
      → update_node marshal unmarshal xxhash agent now step d ≡ (err c, d')
      → IsUntouched d d'
  unfolding update_node
  update_node_err agent now step d d' c h =
      update_status_err agent now step d d' (status_to_u8 step.status) c h
