-- ===== src/Graph/Adjacency.antt =====
-- internal/graph/query.go: which nodes connectNodes makes neighbours.
use mem_hop.Prelude.{
  ℕ, List, [], ◌∷◌, Bool, true, not, ◌&&◌, ◌||◌, ◌==◌, ◌≡◌, refl, ap, ◌∙◌, if◌then◌else◌, contains,
  arith, Bool-cases, inl, inr, ==_iff, any,
}
use mem_hop.Prelude.Map.{get, put, get-put}
use mem_hop.Graph.{
  Adjacency, GraphEdge, neighbours, add_to_set, link, connect_to, connect_nodes, kept_kind,
  keep_edge, subgraph_loop, subgraph_adjacency,
}

abbrev pub adjacent : Adjacency → ℕ → ℕ → Bool
adjacent adj a b = contains (neighbours adj a) b

contains-same : (xs : List ℕ) (a x : ℕ) → (a == x) ≡ true → contains xs x ≡ contains xs a
contains-same xs a x h = rw ((==_iff a x).0 h) refl

absorb :
    (xs : List ℕ) (a x : ℕ) → contains xs a ≡ true → contains xs x ≡ ((a == x) || contains xs x)
absorb xs a x e = elim (Bool-cases (a == x)) [
  | inl h ↦ rw (h, contains-same xs a x h) e
  | inr h ↦ rw h refl
]

contains-add_to_set :
    (xs : List ℕ) (a x : ℕ) → contains (add_to_set xs a) x ≡ ((a == x) || contains xs x)
unfolding add_to_set
contains-add_to_set xs a x = elim (Bool-cases (contains xs a)) [
  | inl e ↦ rw e (absorb xs a x e)
  | inr e ↦ rw e refl
]

adjacent-put :
    (adj : Adjacency) (k : ℕ) (xs : List ℕ) (x y : ℕ)
    → adjacent (put adj k xs) x y ≡ (if k == x then contains xs y else adjacent adj x y)
adjacent-put adj k xs x y = elim (Bool-cases (k == x)) [
  | inl e ↦ rw (get-put adj k xs x, e) refl
  | inr e ↦ rw (get-put adj k xs x, e) refl
]

adjacent-same :
    (adj : Adjacency) (a x y : ℕ) → a ≡ x → contains (neighbours adj a) y ≡ adjacent adj x y
adjacent-same adj a x y h = ap (λ k. adjacent adj k y) h

-- A link makes the two neighbours of one another, and no others.
adjacent-link :
    (adj : Adjacency) (a b x y : ℕ)
    → adjacent (link adj a b) x y
      ≡ (((a == x) && (b == y)) || ((b == x) && (a == y)) || adjacent adj x y)
unfolding link
adjacent-link adj a b x y =
    rw
      (
        adjacent-put (put adj a (add_to_set (neighbours adj a) b)) b
            (add_to_set (neighbours (put adj a (add_to_set (neighbours adj a) b)) b) a) x y,
        contains-add_to_set (neighbours (put adj a (add_to_set (neighbours adj a) b)) b) a y,
        adjacent-put adj a (add_to_set (neighbours adj a) b) b y,
        adjacent-put adj a (add_to_set (neighbours adj a) b) x y,
        contains-add_to_set (neighbours adj a) b y,
      )
      (ground (arith, adjacent-same adj a x y, adjacent-same adj b x y))

-- What a pair of members adds.
abbrev pub pairs_to : ℕ → List ℕ → ℕ → ℕ → Bool
pairs_to a bs x y = not (x == y) && (((a == x) && contains bs y) || ((a == y) && contains bs x))

adjacent-connect_to :
    (adj : Adjacency) (a : ℕ) (bs : List ℕ) (x y : ℕ)
    → adjacent (connect_to adj a bs) x y ≡ (pairs_to a bs x y || adjacent adj x y)
unfolding connect_to
adjacent-connect_to adj a [] x y = ground arith
adjacent-connect_to adj a (b ∷ bs) x y = elim (Bool-cases (a == b)) [
  | inl e ↦ rw (e, adjacent-connect_to adj a bs x y) (ground arith)
  | inr e ↦
      rw (e, adjacent-connect_to (link adj a b) a bs x y, adjacent-link adj a b x y) (ground arith)
]

-- Two members of the list, apart.
abbrev pub members : List ℕ → ℕ → ℕ → Bool
members ids x y = not (x == y) && contains ids x && contains ids y

adjacent-connect_nodes :
    (adj : Adjacency) (ids : List ℕ) (x y : ℕ)
    → adjacent (connect_nodes adj ids) x y ≡ (members ids x y || adjacent adj x y)
unfolding connect_nodes
adjacent-connect_nodes adj [] x y = ground arith
adjacent-connect_nodes adj (a ∷ bs) x y =
    rw (adjacent-connect_nodes (connect_to adj a bs) bs x y, adjacent-connect_to adj a bs x y)
      (ground arith)

adjacent-keep_edge :
    (kinds : List ℕ) (e : GraphEdge) (s : Adjacency × List GraphEdge) (x y : ℕ)
    → adjacent ((keep_edge kinds e s).0) x y
      ≡ ((kept_kind kinds e && members e.node_ids x y) || adjacent s.0 x y)
adjacent-keep_edge kinds e s x y = elim (Bool-cases (kept_kind kinds e)) [
  | inl h ↦ rw (h, adjacent-connect_nodes s.0 e.node_ids x y) refl
  | inr h ↦ rw h refl
]

adjacent-subgraph_loop :
    (kinds : List ℕ) (es : List GraphEdge) (s : Adjacency × List GraphEdge) (x y : ℕ)
    → adjacent ((subgraph_loop kinds es s).0) x y
      ≡ (any (λ e. kept_kind kinds e && members e.node_ids x y) es || adjacent s.0 x y)
unfolding subgraph_loop
adjacent-subgraph_loop kinds [] s x y = refl
adjacent-subgraph_loop kinds (e ∷ es) s x y =
    adjacent-subgraph_loop kinds es (keep_edge kinds e s) x y
    ∙ rw (adjacent-keep_edge kinds e s x y) (ground arith)

-- In the adjacency of a graph's edges two nodes are neighbours exactly where they differ and an edge of
-- a kind that is asked for, or of any kind when none is named, has both: so in either order.
pub adjacent-subgraph_adjacency :
    (kinds : List ℕ) (edges : List GraphEdge) (x y : ℕ)
    → adjacent ((subgraph_adjacency kinds edges).0) x y
      ≡ any (λ e. kept_kind kinds e && members e.node_ids x y) edges
unfolding subgraph_adjacency get
adjacent-subgraph_adjacency kinds edges x y =
    adjacent-subgraph_loop kinds edges ([], []) x y ∙ ground arith
