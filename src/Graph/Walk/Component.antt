-- ===== src/Graph/Walk/Component.antt =====
-- internal/graph/query.go: BfsWithinDepth without a bound, which visits the start's component.
use mem_hop.Prelude.{
  ℕ, zero, suc, ◌+◌, ◌≤◌, ◌<◌, List, [], ◌∷◌, ◌++◌, false, ◌==◌, ◌≡◌, refl, sym, ◌∙◌, subst,
  if◌then◌else◌, contains, arith, Bool-cases, inl, inr, ◌⊎◌, ◌↔◌, ==_iff, ==_self, length,
}
use mem_hop.Prelude.Int.{ℤ, pos, negsuc, lt_int}
use mem_hop.Prelude.Map.{get}
use mem_hop.Graph.{Adjacency, neighbours, sweep, entries, rounds, round_limit, bfs_within_depth}
use mem_hop.Graph.Walk.{In, Sub, sweep-Grows, IsFrontier, sweep-IsFrontier}
use mem_hop.Graph.Walk.Reach.{
  Hops, here, Closed, Closed-path, IsFrontier-Closed, rounds-Sub, rounds-Within, only_start,
  start-IsFrontier,
}

-- The entries of the adjacency that are not visited.
abbrev missing : List ℕ → List ℕ → ℕ
missing [] visited = 0
missing (x ∷ xs) visited = (if contains visited x then 0 else 1) + missing xs visited

missing-Sub : (xs v w : List ℕ) → Sub v w → missing xs w ≤ missing xs v
missing-Sub [] v w s = omega arith
missing-Sub (x ∷ xs) v w s = elim (Bool-cases (contains v x)) [
  | inl e ↦ rw (e, s x e) (omega (arith, missing-Sub xs v w s))
  | inr e ↦ rw e (ground (arith, missing-Sub xs v w s))
]

missing-less :
    (xs v w : List ℕ) (x : ℕ)
    → Sub v w
    → In xs x
    → contains v x ≡ false
    → In w x
    → missing xs w < missing xs v
missing-less [] v w x s i a b = absurd (cc i)
missing-less (y ∷ xs) v w x s i a b = elim (Bool-cases (y == x)) [
  | inl e ↦
      let h = (==_iff y x).0 e in
      rw (subst (λ z. contains v z ≡ false) (sym h) a, subst (In w) (sym h) b)
        (omega (arith, missing-Sub xs v w s))
  | inr e ↦
      let rest = missing-less xs v w x s (sym (rw e refl) ∙ i) a b in
      elim (Bool-cases (contains v y)) [
        | inl h ↦ rw (h, s y h) (omega (arith, rest))
        | inr h ↦ rw h (ground (arith, rest))
      ]
]

missing-length : (xs v : List ℕ) → missing xs v ≤ length xs
missing-length [] v = omega arith
missing-length (x ∷ xs) v = ground (arith, missing-length xs v)

In-append_left : (xs ys : List ℕ) (x : ℕ) → In xs x → In (xs ++ ys) x
In-append_left [] ys x i = absurd (cc i)
In-append_left (a ∷ xs) ys x i = elim (Bool-cases (a == x)) [
  | inl e ↦ rw e refl
  | inr e ↦ rw e (In-append_left xs ys x (sym (rw e refl) ∙ i))
]

In-append_right : (xs ys : List ℕ) (x : ℕ) → In ys x → In (xs ++ ys) x
In-append_right [] ys x i = i
In-append_right (a ∷ xs) ys x i = rw (In-append_right xs ys x i) (ground arith)

neighbours-entries : (adj : Adjacency) (a : ℕ) → Sub (neighbours adj a) (entries adj)
unfolding get
neighbours-entries [] a x i = absurd (cc i)
neighbours-entries ((k, bs) ∷ adj) a x i = elim (Bool-cases (k == a)) [
  | inl e ↦ In-append_left bs (entries adj) x (sym (rw e refl) ∙ i)
  | inr e ↦ In-append_right bs (entries adj) x (neighbours-entries adj a x (sym (rw e refl) ∙ i))
]

-- A round that visits something leaves less to visit.
next-cases : (xs : List ℕ) → (xs ≡ []) ⊎ ((q : ℕ) × In xs q)
next-cases [] = inl refl
next-cases (q ∷ qs) = inr (q, rw (==_self q) refl)

sweep-missing :
    (adj : Adjacency) (queue visited : List ℕ) (q : ℕ)
    → In ((sweep adj queue (record { visited = visited; next = [] })).next) q
    → missing (entries adj) ((sweep adj queue (record { visited = visited; next = [] })).visited)
      < missing (entries adj) visited
sweep-missing adj queue visited q i =
    let g = sweep-Grows adj queue (record { visited = visited; next = [] }) in
    elim (g.0.from_new q i) [
      | inl j ↦ absurd (cc j)
      | inr j ↦
          missing-less (entries adj) visited
            ((sweep adj queue (record { visited = visited; next = [] })).visited) q g.0.keeps
            (neighbours-entries adj j.1.0 q j.1.1.1) j.0 j.2
    ]

rounds_stop :
    (n : ℕ) (adj : Adjacency) (visited next : List ℕ)
    → next ≡ []
    → rounds n adj (record { visited = visited; next = next }) ≡ visited
unfolding rounds
rounds_stop zero adj visited next e = refl
rounds_stop (suc n) adj visited [] e = refl
rounds_stop (suc n) adj visited (q ∷ qs) e = absurd (cc e)

stopped-Closed :
    (adj : Adjacency) (visited next : List ℕ)
    → next ≡ []
    → IsFrontier adj (record { visited = visited; next = next })
    → Closed adj visited
stopped-Closed adj visited [] e f = IsFrontier-Closed adj visited f
stopped-Closed adj visited (q ∷ qs) e f = absurd (cc e)

-- With more rounds left than there are entries to visit, the walk ends closed.
rounds-Closed :
    (n : ℕ) (adj : Adjacency) (visited next : List ℕ)
    → IsFrontier adj (record { visited = visited; next = next })
    → missing (entries adj) visited < n
    → Closed adj (rounds n adj (record { visited = visited; next = next }))
unfolding rounds
rounds-Closed zero adj visited next f l = absurd (omega arith)
rounds-Closed (suc n) adj visited [] f l = IsFrontier-Closed adj visited f
rounds-Closed (suc n) adj visited (q ∷ qs) f l =
    let r = sweep adj (q ∷ qs) (record { visited = visited; next = [] }) in
    let f' = sweep-IsFrontier adj (record { visited = visited; next = q ∷ qs }) f in
    elim (next-cases r.next) [
      | inl e ↦
          subst (Closed adj) (sym (rounds_stop n adj r.visited r.next e))
            (stopped-Closed adj r.visited r.next e f')
      | inr e ↦
          rounds-Closed n adj r.visited r.next f'
            (omega (arith, l, sweep-missing adj (q ∷ qs) visited e.0 e.1))
    ]

limit_enough :
    (adj : Adjacency) (start : ℕ) → missing (entries adj) (start ∷ []) < suc (length (entries adj))
limit_enough adj start = omega (arith, missing-length (entries adj) (start ∷ []))

whole :
    (start : ℕ) (adj : Adjacency) (x : ℕ)
    → In
        (rounds
          (suc (length (entries adj)))
          adj
          (record { visited = start ∷ []; next = start ∷ [] }))
        x
      ↔ ((k : ℕ) × Hops adj k start x)
whole start adj x =
    let n = suc (length (entries adj)) in
    (
      λ i.
          let w =
            rounds-Within n adj (start ∷ []) (start ∷ []) 0 start (λ y j. j)
              (λ y j.
                (0, (omega arith, subst (Hops adj 0 start) (only_start start y j) (here start))))
              x i in
          (w.0, w.1.1),
      λ p.
          Closed-path adj (rounds n adj (record { visited = start ∷ []; next = start ∷ [] })) p.0
            start x
            (rounds-Closed n adj (start ∷ []) (start ∷ []) (start-IsFrontier adj start)
              (limit_enough adj start))
            (rounds-Sub n adj (start ∷ []) (start ∷ []) start (rw (==_self start) refl)) p.1,
    )

-- Without a bound, at a depth of 0 or below, the walk visits exactly the nodes that some path leads to.
pub bfs_within_depth-Hops :
    (start : ℕ) (adj : Adjacency) (depth : ℤ) (x : ℕ)
    → lt_int (pos 0) depth ≡ false
    → In (bfs_within_depth start adj depth) x ↔ ((k : ℕ) × Hops adj k start x)
unfolding bfs_within_depth round_limit
bfs_within_depth-Hops start adj (pos zero) x e = whole start adj x
bfs_within_depth-Hops start adj (pos (suc n)) x e = absurd (ground (arith, e))
bfs_within_depth-Hops start adj (negsuc n) x e = whole start adj x
