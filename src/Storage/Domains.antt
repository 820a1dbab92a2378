-- ===== src/Storage/Domains.antt =====
-- The primary index of the engine, agent id → id hash → offset, and its lookups behind each change.
pub mod Tidy
use mem_hop.Prelude.{
  ℕ, ◌≡◌, ◌∙◌, [], ◌∷◌, Option, none, some, arith, ◌==◌, ◌&&◌, if◌then◌else◌, Option-cases, inl,
  inr,
}
use mem_hop.Prelude.Map.{Map, get, put, delete, get-put, get-delete, inner}

abbrev pub Index : Type 0
Index = Map (Map ℕ)

-- `index[agentID][idHash]`; a missing domain is a nil map, which holds nothing.
abbrev pub offset_of : Index → ℕ → ℕ → Option ℕ
offset_of index a id = get (inner (get index a)) id

-- dropFromIndexLocked: a domain that holds nothing goes.
unfoldable pub drop_from_index : Index → ℕ → ℕ → Index
drop_from_index index agent_id id = elim (get index agent_id) [
  | none ↦ index
  | some m ↦ elim (delete m id) [
    | [] ↦ delete index agent_id
    | x ∷ xs ↦ put index agent_id (x ∷ xs)
  ]
]

pub offset_of-put :
    (index : Index) (a id off b j : ℕ)
    → offset_of (put index a (put (inner (get index a)) id off)) b j
      ≡ (if a == b && id == j then some off else offset_of index b j)
offset_of-put index a id off b j = ground (
  arith,
  get-put index a (put (inner (get index a)) id off) b,
  get-put (inner (get index a)) id off j,
)

-- The domain of a dropped id, as a lookup sees it.
prune_lookup :
    (m : Map ℕ) (index : Index) (a b j : ℕ)
    → get (inner (get (elim m [ [] ↦ delete index a | x ∷ xs ↦ put index a (x ∷ xs) ]) b)) j
      ≡ (if a == b then get m j else offset_of index b j)
unfolding get
prune_lookup [] index a b j = ground (arith, get-delete index a b)
prune_lookup (x ∷ xs) index a b j = ground (arith, get-put index a (x ∷ xs) b)

none_there :
    (index : Index) (a id b j : ℕ)
    → get index a ≡ none
    → offset_of index b j ≡ (if a == b && id == j then none else offset_of index b j)
unfolding get
none_there index a id b j e = ground arith

pub offset_of-drop_from_index :
    (index : Index) (a id b j : ℕ)
    → offset_of (drop_from_index index a id) b j
      ≡ (if a == b && id == j then none else offset_of index b j)
unfolding drop_from_index
offset_of-drop_from_index index a id b j = elim (Option-cases (get index a)) [
  | inl e ↦ rw (e, drop_from_index) (none_there index a id b j e)
  | inr (m, e) ↦
      rw (e, drop_from_index)
        (prune_lookup (delete m id) index a b j ∙ ground (arith, get-delete m id j, e))
]
