-- ===== src/Graph/Walk.antt =====
-- internal/graph/query.go: what BfsWithinDepth visits.
pub mod Reach
pub mod Component
use mem_hop.Prelude.{
  ℕ, zero, suc, ◌+◌, ◌≤◌, ◌<◌, List, [], ◌∷◌, ◌++◌, Bool, true, false, not, ◌&&◌, ◌||◌, ◌==◌, ◌≡◌,
  refl, sym, ap, ◌∙◌, subst, if◌then◌else◌, contains, arith, Bool-cases, inl, inr, ◌⊎◌, ◌↔◌, ==_iff,
  ==_self, length, length-append,
}
use mem_hop.Prelude.Map.{get}
use mem_hop.Graph.{Adjacency, set_of, neighbours, Round, visit, sweep, entries}

-- Membership in a list that stands for a set.
abbrev pub In : List ℕ → ℕ → Type 0
In xs x = contains xs x ≡ true

abbrev pub Sub : List ℕ → List ℕ → Type 0
Sub xs ys = (x : ℕ) → In xs x → In ys x

In-append : (xs : List ℕ) (a x : ℕ) → contains (xs ++ (a ∷ [])) x ≡ (contains xs x || (a == x))
In-append [] a x = ground arith
In-append (y ∷ ys) a x = rw (In-append ys a x) (ground arith)

-- What one neighbour does to the round.
abbrev pub visit_one : ℕ → Round → Round
visit_one nb r =
    if contains r.visited nb
    then r
    else record { visited = nb ∷ r.visited; next = r.next ++ (nb ∷ []) }

-- The facts of a round's growth from `r` to `s`, by neighbours that `P` holds of.
pub record Grows (P : ℕ → Type 0) (r s : Round) : Type 0 where
  pub keeps : Sub r.visited s.visited
  pub keeps_next : Sub r.next s.next
  pub adds : (x : ℕ) → In s.visited x → In r.visited x ⊎ (P x × In s.next x)
  pub from_new :
      (x : ℕ) → In s.next x → In r.next x ⊎ ((contains r.visited x ≡ false) × P x × In s.visited x)

Grows-refl : (P : ℕ → Type 0) (r : Round) → Grows P r r
Grows-refl P r = record {
  keeps = λ x i. i;
  keeps_next = λ x i. i;
  adds = λ x i. inl i;
  from_new = λ x i. inl i;
}

not_in : (xs ys : List ℕ) (x : ℕ) → Sub xs ys → contains ys x ≡ false → contains xs x ≡ false
not_in xs ys x s e = elim (Bool-cases (contains xs x)) [
  | inl h ↦ absurd (cc (sym e ∙ s x h))
  | inr h ↦ h
]

Grows-trans : {P : ℕ → Type 0} {r s t : Round} → Grows P r s → Grows P s t → Grows P r t
Grows-trans {P} {r} {s} {t} f g = record {
  keeps = λ x i. g.keeps x (f.keeps x i);
  keeps_next = λ x i. g.keeps_next x (f.keeps_next x i);
  adds = λ x i. elim (g.adds x i) [
    | inl j ↦ elim (f.adds x j) [ inl k ↦ inl k | inr k ↦ inr (k.0, g.keeps_next x k.1) ]
    | inr j ↦ inr j
  ];
  from_new = λ x i. elim (g.from_new x i) [
    | inl j ↦ elim (f.from_new x j) [ inl k ↦ inl k | inr k ↦ inr (k.0, k.1, g.keeps x k.2) ]
    | inr j ↦ inr (not_in r.visited s.visited x f.keeps j.0, j.1, j.2)
  ];
}

Grows-mono : {P Q : ℕ → Type 0} {r s : Round} → ((x : ℕ) → P x → Q x) → Grows P r s → Grows Q r s
Grows-mono f g = record {
  keeps = g.keeps;
  keeps_next = g.keeps_next;
  adds = λ x i. elim (g.adds x i) [ inl j ↦ inl j | inr j ↦ inr (f x j.0, j.1) ];
  from_new = λ x i. elim (g.from_new x i) [ inl j ↦ inl j | inr j ↦ inr (j.0, f x j.1, j.2) ];
}

add_one :
    (nb : ℕ) (r : Round)
    → contains r.visited nb ≡ false
    → Grows (λ x. x ≡ nb) r (record { visited = nb ∷ r.visited; next = r.next ++ (nb ∷ []) })
add_one nb r e = record {
  keeps = λ x i. ground arith;
  keeps_next = λ x i. In-append r.next nb x ∙ ground arith;
  adds = λ x i. elim (Bool-cases (nb == x)) [
    | inl h ↦ inr (sym ((==_iff nb x).0 h), In-append r.next nb x ∙ ground arith)
    | inr h ↦ inl (sym (rw h refl) ∙ i)
  ];
  from_new = λ x i. elim (Bool-cases (nb == x)) [
    | inl h ↦ inr (
      subst (λ y. contains r.visited y ≡ false) ((==_iff nb x).0 h) e,
      sym ((==_iff nb x).0 h),
      rw h refl,
    )
    | inr h ↦ inl (ground (arith, In-append r.next nb x, i))
  ];
}

visit_one-Grows :
    (nb : ℕ) (r : Round) → Grows (λ x. x ≡ nb) r (visit_one nb r) × In ((visit_one nb r).visited) nb
visit_one-Grows nb r = elim (Bool-cases (contains r.visited nb)) [
  | inl e ↦ rw e (Grows-refl (λ x. x ≡ nb) r, e)
  | inr e ↦ rw e (add_one nb r e, rw (==_self nb) refl)
]

visit-Grows :
    (nbs : List ℕ) (r : Round) → Grows (In nbs) r (visit nbs r) × Sub nbs ((visit nbs r).visited)
unfolding visit
visit-Grows [] r = (Grows-refl (In []) r, λ x i. absurd (cc i))
visit-Grows (nb ∷ nbs) r =
    let one = visit_one-Grows nb r in
    let rest = visit-Grows nbs (visit_one nb r) in
    (
      Grows-trans (Grows-mono (λ x e. subst (In (nb ∷ nbs)) (sym e) (rw (==_self nb) refl)) one.0)
          (Grows-mono (λ x i. ground (arith, i)) rest.0),
      λ x i. elim (Bool-cases (nb == x)) [
        | inl h ↦ rest.0.keeps x (subst (In ((visit_one nb r).visited)) ((==_iff nb x).0 h) one.1)
        | inr h ↦ rest.1 x (sym (rw h refl) ∙ i)
      ],
    )

-- A neighbour of a node of the queue.
abbrev pub Beside : Adjacency → List ℕ → ℕ → Type 0
Beside adj queue x = (cur : ℕ) × (In queue cur × In (neighbours adj cur) x)

sweep-Grows :
    (adj : Adjacency) (queue : List ℕ) (r : Round)
    → Grows (Beside adj queue) r (sweep adj queue r)
      × ((cur : ℕ) → In queue cur → Sub (neighbours adj cur) ((sweep adj queue r).visited))
unfolding sweep
sweep-Grows adj [] r = (Grows-refl (Beside adj []) r, λ cur i. absurd (cc i))
sweep-Grows adj (q ∷ queue) r =
    let one = visit-Grows (neighbours adj q) r in
    let rest = sweep-Grows adj queue (visit (neighbours adj q) r) in
    (
      Grows-trans (Grows-mono (λ x i. (q, (rw (==_self q) refl, i))) one.0)
          (Grows-mono (λ x b. (b.0, (ground (arith, b.1.0), b.1.1))) rest.0),
      λ cur i. elim (Bool-cases (q == cur)) [
        | inl h ↦ λ x j.
            rest.0.keeps x
              (one.1 x (subst (λ k. In (neighbours adj k) x) (sym ((==_iff q cur).0 h)) j))
        | inr h ↦ rest.1 cur (sym (rw h refl) ∙ i)
      ],
    )

-- The state between two rounds: what is next is visited, and a visited node that is not next has its
-- neighbours visited.
pub record IsFrontier (adj : Adjacency) (r : Round) : Type 0 where
  pub next_visited : Sub r.next r.visited
  pub settled : (x : ℕ) → In r.visited x → In r.next x ⊎ Sub (neighbours adj x) r.visited

abbrev pub cleared : Round → Round
cleared r = record { visited = r.visited; next = [] }

pub sweep-IsFrontier :
    (adj : Adjacency) (r : Round) → IsFrontier adj r → IsFrontier adj (sweep adj r.next (cleared r))
sweep-IsFrontier adj r f =
    let g = sweep-Grows adj r.next (cleared r) in
    record {
      next_visited = λ x i. elim (g.0.from_new x i) [ inl j ↦ absurd (cc j) | inr j ↦ j.2 ];
      settled = λ x i. elim (g.0.adds x i) [
        | inl j ↦ elim (f.settled x j) [
          | inl k ↦ inr (g.1 x k)
          | inr k ↦ inr (λ y l. g.0.keeps y (k y l))
        ]
        | inr j ↦ inl j.1
      ];
    }
