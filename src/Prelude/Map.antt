-- ===== src/Prelude/Map.antt =====
-- Go maps with integer keys, as association lists. A Go map has no order: what is proved of a
-- function that ranges over a map holds for every order of the entries.
use Prim.Native.Nat.{ℕ}
use mathlib.Core.Path.{◌≡◌, ◌∙◌}
use mathlib.Core.Logic.{inl, inr}
use mathlib.Core.List.{List, [], ◌∷◌}
use mathlib.Core.Option.{Option, none, some}
use native.Mathlib.Omega.{arith}
use mem_hop.Prelude.Tests.{==_self, Bool-cases, ◌==◌, if◌then◌else◌}

abbrev pub Map {ℓ} : Type ℓ → Type ℓ
Map V = List (ℕ × V)

module _ {ℓ} {V : Type ℓ} where
  -- m[k], with the missing key written out.
  unfoldable pub get : Map V → ℕ → Option V
  get [] k = none
  get ((j, v) ∷ m) k = if j == k then some v else get m k

  -- delete(m, k)
  unfoldable pub delete : Map V → ℕ → Map V
  delete [] k = []
  delete ((j, v) ∷ m) k = let rest = delete m k in if j == k then rest else (j, v) ∷ rest

  -- m[k] = v
  unfoldable pub put : Map V → ℕ → V → Map V
  put m k v = (k, v) ∷ delete m k

  pub get-delete : (m : Map V) (k j : ℕ) → get (delete m k) j ≡ (if k == j then none else get m j)
  unfolding get delete
  get-delete [] k j = ground arith
  get-delete ((i, v) ∷ m) k j = ground (arith, get-delete m k j)

  pub get-put :
      (m : Map V) (k : ℕ) (v : V) (j : ℕ) → get (put m k v) j ≡ (if k == j then some v else get m j)
  unfolding get put
  get-put m k v j = ground (arith, get-delete m k j)

-- Reading a missing key of a map of maps gives a nil map.
abbrev pub inner {ℓ} : {V : Type ℓ} → Option (Map V) → Map V
inner none = []
inner (some m) = m

pub ruleset map_laws = (get-delete, get-put)

-- No key twice, as in every Go map.
abbrev pub Distinct {ℓ} : {V : Type ℓ} → Map V → Type ℓ
Distinct [] = Unit
Distinct ((k, v) ∷ m) = (get m k ≡ none) × Distinct m

pub Distinct-delete {ℓ} : {V : Type ℓ} (m : Map V) (k : ℕ) → Distinct m → Distinct (delete m k)
unfolding delete
Distinct-delete [] k d = d
Distinct-delete ((j, v) ∷ m) k d = elim (Bool-cases (j == k)) [
  | inl e ↦ rw e (Distinct-delete m k d.1)
  | inr ne ↦ rw ne (get-delete m k j ∙ ground (arith, d.0), Distinct-delete m k d.1)
]

pub Distinct-put {ℓ} : {V : Type ℓ} (m : Map V) (k : ℕ) (v : V) → Distinct m → Distinct (put m k v)
unfolding put
Distinct-put m k v d = (rw (get-delete m k k, ==_self), Distinct-delete m k d)
