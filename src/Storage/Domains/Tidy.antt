-- ===== src/Storage/Domains/Tidy.antt =====
-- The index as a Go map of Go maps: no key twice, keys of 64 bits, and how many records it has.
use mem_hop.Prelude.{
  ℕ, ◌+◌, ◌<◌, ◌≤◌, ◌^◌, ◌≡◌, refl, [], ◌∷◌, All, length, arith, ◌==◌, Bool-cases, inl, inr, ◌⊎◌,
  Option-cases,
}
use mem_hop.Prelude.Map.{Map, get, put, delete, inner, Distinct, Distinct-delete, Distinct-put}
use mem_hop.Storage.Domains.{Index, drop_from_index}
use mem_hop.Storage.Engine.{total_records}

-- A domain: its agent and its ids.
abbrev pub KeysFit : ℕ × Map ℕ → Type 0
KeysFit s = (s.0 < 256 ^ 8) × Distinct s.1 × All (λ e. e.0 < 256 ^ 8) s.1

pub record IsTidy (index : Index) : Type 0 where
  pub domains : Distinct index
  pub keys : All KeysFit index

All-delete {ℓ} :
    {V : Type ℓ} (P : ℕ × V → Type 0) (m : Map V) (k : ℕ) → All P m → All P (delete m k)
unfolding delete
All-delete P [] k h = tt
All-delete P ((j, v) ∷ m) k h = elim (Bool-cases (j == k)) [
  | inl same ↦ rw same (All-delete P m k h.1)
  | inr other ↦ rw other (h.0, All-delete P m k h.1)
]

pub All-put {ℓ} :
    {V : Type ℓ} (P : ℕ × V → Type 0) (m : Map V) (k : ℕ) (v : V)
    → P (k, v)
    → All P m
    → All P (put m k v)
unfolding put
All-put P m k v p h = (p, All-delete P m k h)

-- The domain of an agent, empty when there is none.
inner-KeysFit :
    (index : Index) (a : ℕ)
    → All KeysFit index
    → Distinct (inner (get index a)) × All (λ e. e.0 < 256 ^ 8) (inner (get index a))
unfolding get
inner-KeysFit [] a h = (tt, tt)
inner-KeysFit ((j, m) ∷ index) a h = elim (Bool-cases (j == a)) [
  | inl same ↦ rw same (h.0.1, h.0.2)
  | inr other ↦ rw other (inner-KeysFit index a h.1)
]

pub put-IsTidy :
    (index : Index) (a i off : ℕ)
    → a < 256 ^ 8
    → i < 256 ^ 8
    → IsTidy index
    → IsTidy (put index a (put (inner (get index a)) i off))
put-IsTidy index a i off la li t =
    let m = inner (get index a) in
    let (d, k) = inner-KeysFit index a t.keys in
    record {
      domains = Distinct-put index a (put m i off) t.domains;
      keys =
          All-put KeysFit index a (put m i off)
            (la, Distinct-put m i off d, All-put (λ e. e.0 < 256 ^ 8) m i off li k) t.keys;
    }

pub delete-IsTidy : (index : Index) (a : ℕ) → IsTidy index → IsTidy (delete index a)
delete-IsTidy index a t = record {
  domains = Distinct-delete index a t.domains;
  keys = All-delete KeysFit index a t.keys;
}

pub lose-IsTidy :
    (index : Index) (a i : ℕ)
    → a < 256 ^ 8
    → IsTidy index
    → IsTidy (put index a (delete (inner (get index a)) i))
lose-IsTidy index a i la t =
    let m = inner (get index a) in
    let (d, k) = inner-KeysFit index a t.keys in
    record {
      domains = Distinct-put index a (delete m i) t.domains;
      keys =
          All-put KeysFit index a (delete m i)
            (la, Distinct-delete m i d, All-delete (λ e. e.0 < 256 ^ 8) m i k) t.keys;
    }

pub length-delete {ℓ} : {V : Type ℓ} (m : Map V) (k : ℕ) → length (delete m k) ≤ length m
unfolding delete
length-delete [] k = omega arith
length-delete ((j, v) ∷ m) k = ground (arith, length-delete m k)

pub total_records-delete :
    (index : Index) (a : ℕ) → total_records (delete index a) ≤ total_records index
unfolding delete total_records
total_records-delete [] a = omega arith
total_records-delete ((j, m) ∷ index) a = ground (arith, total_records-delete index a)

-- The records of one domain, and of the others.
total_records_split :
    (index : Index) (a : ℕ)
    → length (inner (get index a)) + total_records (delete index a) ≤ total_records index
unfolding delete total_records get
total_records_split [] a = omega arith
total_records_split ((j, m) ∷ index) a = elim (Bool-cases (j == a)) [
  | inl same ↦ rw same (omega (arith, total_records-delete index a))
  | inr other ↦ rw other (omega (arith, total_records_split index a))
]

pub total_records-put :
    (index : Index) (a i off : ℕ)
    → total_records (put index a (put (inner (get index a)) i off)) ≤ total_records index + 1
unfolding put total_records
total_records-put index a i off =
    omega (arith, total_records_split index a, length-delete (inner (get index a)) i)

pub total_records-lose :
    (index : Index) (a i : ℕ)
    → total_records (put index a (delete (inner (get index a)) i)) ≤ total_records index
unfolding put total_records
total_records-lose index a i =
    omega (arith, total_records_split index a, length-delete (inner (get index a)) i)

-- A domain without the dropped record stays, or goes when nothing is left of it.
left_cases :
    (index : Index) (a : ℕ) (d : Map ℕ)
    → ((elim d [ [] ↦ delete index a | x ∷ xs ↦ put index a (x ∷ xs) ]) ≡ delete index a)
      ⊎ ((elim d [ [] ↦ delete index a | x ∷ xs ↦ put index a (x ∷ xs) ]) ≡ put index a d)
left_cases index a [] = inl refl
left_cases index a (x ∷ xs) = inr refl

pub drop_from_index-IsTidy :
    (index : Index) (a i : ℕ) → a < 256 ^ 8 → IsTidy index → IsTidy (drop_from_index index a i)
unfolding drop_from_index
drop_from_index-IsTidy index a i la t = elim (Option-cases (get index a)) [
  | inl e ↦ rw (e, drop_from_index) t
  | inr (m, e) ↦
      let lost = rw e at (lose-IsTidy index a i la t) in
      rw (e, drop_from_index)
        (elim (left_cases index a (delete m i)) [
          | inl q ↦ rw q (delete-IsTidy index a t)
          | inr q ↦ rw q lost
        ])
]

pub total_records-drop_from_index :
    (index : Index) (a i : ℕ) → total_records (drop_from_index index a i) ≤ total_records index
unfolding drop_from_index
total_records-drop_from_index index a i = elim (Option-cases (get index a)) [
  | inl e ↦ rw (e, drop_from_index) (omega arith)
  | inr (m, e) ↦
      let lost = rw e at (total_records-lose index a i) in
      rw (e, drop_from_index)
        (elim (left_cases index a (delete m i)) [
          | inl q ↦ rw q (total_records-delete index a)
          | inr q ↦ rw q lost
        ])
]
