-- ===== src/Plan/Writes/Outcome.antt =====
-- What CreateNode leaves, and the moment at which a restated step ended.

use mem_hop.Prelude.{
  ℕ, ◌<◌, ◌≡◌, refl, sym, List, Bool, true, false, Option, some, not, All, ◌==◌, ◌&&◌, ◌||◌, arith,
  ==_self, if◌then◌else◌, Bool-cases, inl, inr, ◌⊎◌, [],
}
use mem_hop.Prelude.Int.{ℤ, pos}
use mem_hop.Errors.{ok, err, not_found}
use mem_hop.Storage.Engine.{Engine}
use mem_hop.Storage.Ready.{IsReady}
use mem_hop.Storage.Frame.RoundTrip.{IsStorable}
use mem_hop.Storage.Store.{frame_of}
use mem_hop.Records.{write_json}
use mem_hop.Records.Laws.{write_json-read_json}
use mem_hop.Index.Content.{max_node_seq}
use mem_hop.Plan.{Node, has_seq, next_seq, tree_at, upsert_node}
use mem_hop.Plan.Tree.{KeepsOrdinal, has_seq-upsert_node, next_seq_free}
use mem_hop.Plan.Status.{is_terminal_status}
use mem_hop.Plan.Writes.{
  is_zero, hash_plan_node, Domain, NodeSpec, Step, new_node, restate, rec_l5_plan_node,
  write_plan_node, write_node, read_plan_node, create_node,
}

module _ (marshal : Node → Option (List ℕ)) (unmarshal : List ℕ → Option Node)
    (xxhash : List ℕ → ℕ) where
  abbrev pub new_seq : Domain → NodeSpec → ℕ
  new_seq d spec = next_seq d.plans spec.topic_id (max_node_seq d.content spec.topic_id)

  abbrev pub new_id : Domain → NodeSpec → ℕ
  new_id d spec = hash_plan_node xxhash spec.topic_id (new_seq d spec)

  -- The step that CreateNode adds.
  abbrev pub step_of : Domain → NodeSpec → ℤ → Node
  step_of d spec now = new_node (new_id d spec) spec (new_seq d spec) now

  pub write_plan_node_ok :
      (agent : ℕ) (node : Node) (e e' : Engine)
      → 0 < node.seq
      → node.id_hash ≡ hash_plan_node xxhash node.topic_id node.seq
      → write_json marshal agent rec_l5_plan_node node.id_hash node e ≡ (ok tt, e')
      → write_plan_node marshal unmarshal xxhash agent node e ≡ (ok tt, e')
  unfolding write_plan_node
  write_plan_node_ok agent node e e' pos_seq addr eq =
      let nz : (node.seq == 0) ≡ false = ground arith in rw (nz, sym addr, ==_self node.id_hash) eq

  parent_known :
      (p : ℕ) (known : Bool) → (p ≡ 0) ⊎ (known ≡ true) → (not (p == 0) && not known) ≡ false
  parent_known p known (inl h) = rw h refl
  parent_known p known (inr h) = ground (arith, h)

  -- On a ready engine, when no system call fails, for a parent that is 0 or the ordinal of a cached step of the turn,
  -- below the last ordinal of a uint32, with an address that no record holds and a codec that reads this one
  -- node back: CreateNode answers an ordinal above every one its turn's content names, which no
  -- cached step had; the step reads back from the records as it was made, and the cache knows its ordinal
  -- beside those it knew.
  pub create_node_lem :
      (agent : ℕ) (now : ℤ) (spec : NodeSpec) (d : Domain) (bytes : List ℕ)
      → d.engine.plan ≡ []
      → IsReady d.engine
      → (spec.parent_seq ≡ 0) ⊎ (has_seq d.plans spec.topic_id spec.parent_seq ≡ true)
      → All (λ n. n.seq < 4294967295) (tree_at d.plans spec.topic_id)
      → max_node_seq d.content spec.topic_id < 4294967295
      → read_plan_node marshal unmarshal xxhash d.engine agent (new_id d spec) ≡ err not_found
      → KeepsOrdinal (step_of d spec now) (tree_at d.plans spec.topic_id)
      → IsStorable (frame_of agent 15 (new_id d spec) bytes)
      → marshal (step_of d spec now) ≡ some bytes
      → unmarshal bytes ≡ some (step_of d spec now)
      → (d' : Domain) × (create_node marshal unmarshal xxhash agent now spec d
          ≡ (ok (new_seq d spec), d'))
        × (max_node_seq d.content spec.topic_id < new_seq d spec)
        × (has_seq d.plans spec.topic_id (new_seq d spec) ≡ false)
        × (read_plan_node marshal unmarshal xxhash d'.engine agent (new_id d spec)
            ≡ ok (step_of d spec now))
        × ((topic s : ℕ)
            → has_seq d'.plans topic s
              ≡ ((spec.topic_id == topic && new_seq d spec == s) || has_seq d.plans topic s))
        × IsReady d'.engine
        × (d'.engine.plan ≡ [])
  unfolding create_node write_node
  create_node_lem agent now spec d bytes calm r parent small reserved free k s m u =
      let node = step_of d spec now in
      let (above, fresh) = next_seq_free d.plans spec.topic_id _ small reserved in
      let (e', eq, r', calm', law) =
        write_json-read_json marshal unmarshal d.engine agent 15 (new_id d spec) node bytes calm r s
          m u in
      let wrote = write_plan_node_ok agent node d.engine e' (omega (arith, above)) refl eq in
      (
        record d { engine = e'; plans = upsert_node d.plans spec.topic_id node },
        rw (parent_known spec.parent_seq _ parent, free) (rw wrote refl),
        above,
        fresh,
        rw (==_self agent, ==_self (new_id d spec)) at (law agent (new_id d spec) 15),
        (λ topic x. has_seq-upsert_node d.plans spec.topic_id node topic x k),
        r',
        calm',
      )

-- A step that ends stamps the moment it ended once: while the statuses that follow are terminal ones, the
-- stamp stays; a status that is not terminal takes it away.
pub restate-restate :
    (now later : ℤ) (status next : ℕ) (step again : Step) (node : Node)
    → is_zero now ≡ false
    → is_terminal_status status ≡ true
    → (restate later next again (restate now status step node)).finished_at
      ≡ (if is_terminal_status next then (restate now status step node).finished_at else pos 0)
unfolding restate
restate-restate now later status next step again node stamp ended =
    elim (Bool-cases (is_zero node.finished_at)) [
      | inl h ↦ rw (ended, h) (rw stamp refl)
      | inr h ↦ rw (ended, h) (rw h refl)
    ]
