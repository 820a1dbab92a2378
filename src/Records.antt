-- ===== src/Records.antt =====
-- internal/repo/core/record.go: typed records over the engine. encoding/json is a pair of parameters,
-- which answer `none` where Marshal or Unmarshal returns an error.
pub mod Laws
use mem_hop.Prelude.{
  ℕ, List, [], ◌∷◌, Bool, true, false, Option, none, some, not, ◌==◌, if◌then◌else◌,
}
use mem_hop.Errors.{Code, Result, ok, err, not_found, serialization, deserialization, ◌>>=◌}
use mem_hop.Storage.Engine.{Engine, Act, index_by_type, fail, pure, ◌>>=◌ as ◌and_then◌}
use mem_hop.Storage.Read.{read_record}
use mem_hop.Storage.Write.{write_record}

abbrev pub is_not_found : Code → Bool
is_not_found not_found = true
is_not_found _ = false

module _ {T : Type 0} (unmarshal : List ℕ → Option T) where
  -- A record of another type answers as a missing one does.
  abbrev pub decode : ℕ → ℕ × List ℕ → Result T
  decode record_type r =
      if not (r.0 == record_type)
      then err not_found
      else elim (unmarshal r.1) [ none ↦ err deserialization | some v ↦ ok v ]

  unfoldable pub read_json : Engine → ℕ → ℕ → ℕ → Result T
  read_json e agent_id id record_type = read_record e agent_id id >>= decode record_type

  -- The loop of IterAll: what will not read is left out.
  unfoldable pub iter_ids : Engine → ℕ → ℕ → List ℕ → List T
  iter_ids e agent_id record_type [] = []
  iter_ids e agent_id record_type (id ∷ ids) =
      let rest = iter_ids e agent_id record_type ids in
      elim (read_json e agent_id id record_type) [ ok v ↦ v ∷ rest | err c ↦ rest ]

  unfoldable pub iter_all : Engine → ℕ → ℕ → List T
  iter_all e agent_id record_type =
      iter_ids e agent_id record_type (index_by_type e agent_id record_type)

  -- The loop of CollectAllStrict: the first member that will not read stops it, a missing one does not.
  unfoldable pub collect_ids : Engine → ℕ → ℕ → List ℕ → Result (List T)
  collect_ids e agent_id record_type [] = ok []
  collect_ids e agent_id record_type (id ∷ ids) =
      let rest = collect_ids e agent_id record_type ids in
      elim (read_json e agent_id id record_type) [
        | ok v ↦ rest >>= λ vs. ok (v ∷ vs)
        | err c ↦ if is_not_found c then rest else err c
      ]

  unfoldable pub collect_all_strict : Engine → ℕ → ℕ → Result (List T)
  collect_all_strict e agent_id record_type =
      collect_ids e agent_id record_type (index_by_type e agent_id record_type)

module _ {T : Type 0} (marshal : T → Option (List ℕ)) where
  abbrev pub write_bytes : ℕ → ℕ → ℕ → Option (List ℕ) → Act (Unit {0})
  write_bytes agent_id record_type id none = fail serialization
  write_bytes agent_id record_type id (some bytes) =
      write_record agent_id record_type id bytes and_then λ off. pure tt

  unfoldable pub write_json : ℕ → ℕ → ℕ → T → Act (Unit {0})
  write_json agent_id record_type id v = write_bytes agent_id record_type id (marshal v)
