-- ===== src/Graph/Walk/Reach.antt =====
-- internal/graph/query.go: BfsWithinDepth visits what can be reached, and no more.
use mem_hop.Prelude.{
  ℕ, zero, suc, ◌+◌, ◌≤◌, List, [], ◌∷◌, ◌≡◌, refl, subst, arith, inl, inr, ◌↔◌, ==_self,
}
use mem_hop.Prelude.Int.{pos}
use mem_hop.Graph.{Adjacency, neighbours, sweep, rounds, round_limit, bfs_within_depth}
use mem_hop.Graph.Walk.{In, Sub, sweep-Grows, IsFrontier, sweep-IsFrontier}

-- A path of so many hops.
pub data Hops (adj : Adjacency) : ℕ → ℕ → ℕ → Type 0 where
  here : (a : ℕ) → Hops adj 0 a a
  hop : (n a b c : ℕ) → In (neighbours adj a) b → Hops adj n b c → Hops adj (suc n) a c

-- The same, ended by a hop.
snoc :
    (adj : Adjacency) (n a b c : ℕ)
    → Hops adj n a b
    → In (neighbours adj b) c
    → Hops adj (suc n) a c
snoc adj zero a b c (here _) i = hop 0 a c c i (here c)
snoc adj (suc n) a b c (hop _ _ d _ j p) i = hop (suc n) a d c j (snoc adj n d b c p i)

-- Closed under the adjacency.
abbrev pub Closed : Adjacency → List ℕ → Type 0
Closed adj xs = (a : ℕ) → In xs a → Sub (neighbours adj a) xs

pub Closed-path :
    (adj : Adjacency) (xs : List ℕ) (n a c : ℕ) → Closed adj xs → In xs a → Hops adj n a c → In xs c
Closed-path adj xs zero a c h i (here _) = i
Closed-path adj xs (suc n) a c h i (hop _ _ b _ j p) = Closed-path adj xs n b c h (h a i b j) p

pub IsFrontier-Closed :
    (adj : Adjacency) (visited : List ℕ)
    → IsFrontier adj (record { visited = visited; next = [] })
    → Closed adj visited
IsFrontier-Closed adj visited f a i = elim (f.settled a i) [ inl j ↦ absurd (cc j) | inr k ↦ k ]

-- What is visited stays visited.
pub rounds-Sub :
    (n : ℕ) (adj : Adjacency) (visited next : List ℕ)
    → Sub visited (rounds n adj (record { visited = visited; next = next }))
unfolding rounds
rounds-Sub zero adj visited next = λ x i. i
rounds-Sub (suc n) adj visited [] = λ x i. i
rounds-Sub (suc n) adj visited (q ∷ qs) = λ x i.
    let r = sweep adj (q ∷ qs) (record { visited = visited; next = [] }) in
    rounds-Sub n adj r.visited r.next x
      ((sweep-Grows adj (q ∷ qs) (record { visited = visited; next = [] })).0.keeps x i)

-- Every node within as many hops of a visited node as rounds are left is visited at the end.
pub rounds-path :
    (n : ℕ) (adj : Adjacency) (visited next : List ℕ) (k a c : ℕ)
    → IsFrontier adj (record { visited = visited; next = next })
    → k ≤ n
    → In visited a
    → Hops adj k a c
    → In (rounds n adj (record { visited = visited; next = next })) c
unfolding rounds
rounds-path n adj visited next zero a c f l i (here _) = rounds-Sub n adj visited next a i
rounds-path zero adj visited next (suc k) a c f l i p = absurd (omega arith)
rounds-path (suc n) adj visited [] (suc k) a c f l i p =
    Closed-path adj visited (suc k) a c (IsFrontier-Closed adj visited f) i p
rounds-path (suc n) adj visited (q ∷ qs) (suc k) a c f l i (hop _ _ b _ j p) =
    let g = sweep-Grows adj (q ∷ qs) (record { visited = visited; next = [] }) in
    let r = sweep adj (q ∷ qs) (record { visited = visited; next = [] }) in
    rounds-path n adj r.visited r.next k b c
      (sweep-IsFrontier adj (record { visited = visited; next = q ∷ qs }) f) (omega arith)
      (elim (f.settled a i) [ inl m ↦ g.1 a m b j | inr m ↦ g.0.keeps b (m b j) ]) p

-- Within so many hops of `start`.
abbrev pub Within : Adjacency → ℕ → ℕ → ℕ → Type 0
Within adj m start x = (k : ℕ) × ((k ≤ m) × Hops adj k start x)

Within-le :
    (adj : Adjacency) (m n start x : ℕ) → m ≤ n → Within adj m start x → Within adj n start x
Within-le adj m n start x l w = (w.0, (omega (arith, w.1.0), w.1.1))

pub rounds-Within :
    (n : ℕ) (adj : Adjacency) (visited next : List ℕ) (m start : ℕ)
    → Sub next visited
    → ((x : ℕ) → In visited x → Within adj m start x)
    → (x : ℕ) → In (rounds n adj (record { visited = visited; next = next })) x
    → Within adj (n + m) start x
unfolding rounds
rounds-Within zero adj visited next m start s h x i =
    Within-le adj m (0 + m) start x (omega arith) (h x i)
rounds-Within (suc n) adj visited [] m start s h x i =
    Within-le adj m (suc n + m) start x (omega arith) (h x i)
rounds-Within (suc n) adj visited (q ∷ qs) m start s h x i =
    let g = sweep-Grows adj (q ∷ qs) (record { visited = visited; next = [] }) in
    let r = sweep adj (q ∷ qs) (record { visited = visited; next = [] }) in
    Within-le adj (n + suc m) (suc n + m) start x (omega arith) (
      rounds-Within n adj r.visited r.next (suc m) start
        (λ y j. elim (g.0.from_new y j) [ inl k ↦ absurd (cc k) | inr k ↦ k.2 ])
        (λ y j. elim (g.0.adds y j) [
          | inl k ↦ Within-le adj m (suc m) start y (omega arith) (h y k)
          | inr k ↦
              let w = h k.0.0 (s k.0.0 k.0.1.0) in
              (suc w.0, (omega (arith, w.1.0), snoc adj w.0 start k.0.0 y w.1.1 k.0.1.1))
        ])
        x i)

pub only_start : (start x : ℕ) → In (start ∷ []) x → start ≡ x
only_start start x i = ground (arith, i)

pub start-IsFrontier :
    (adj : Adjacency) (start : ℕ)
    → IsFrontier adj (record { visited = start ∷ []; next = start ∷ [] })
start-IsFrontier adj start = record { next_visited = λ x i. i; settled = λ x i. inl i }

-- With a positive depth, the walk visits exactly the nodes within that many hops of the start.
pub bfs_within_depth-Within :
    (start : ℕ) (adj : Adjacency) (d x : ℕ)
    → In (bfs_within_depth start adj (pos (suc d))) x ↔ Within adj (suc d) start x
unfolding bfs_within_depth round_limit
bfs_within_depth-Within start adj d x = (
  λ i. Within-le adj (suc d + 0) (suc d) start x (omega arith) (
      rounds-Within (suc d) adj (start ∷ []) (start ∷ []) 0 start (λ y j. j)
        (λ y j. (0, (omega arith, subst (Hops adj 0 start) (only_start start y j) (here start)))) x
        i),
  λ w.
      rounds-path (suc d) adj (start ∷ []) (start ∷ []) w.0 start x (start-IsFrontier adj start)
        w.1.0 (rw (==_self start) refl) w.1.1,
)
