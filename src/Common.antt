-- ===== src/Common.antt =====
-- internal/common/sliceutil.go: lists of ids without repetitions.
pub mod Hash
use mem_hop.Prelude.{
  ℕ, ◌≡◌, refl, ap, ◌∙◌, List, [], ◌∷◌, ◌++◌, Bool, true, false, ◌==◌, ◌||◌, if◌then◌else◌, arith,
  contains, Bool-cases, inl, inr,
}
use mem_hop.Prelude.Sort.{sort, contains-sort}

-- slices.Compact: of equal neighbours the first is kept.
unfoldable pub compact_from : ℕ → List ℕ → List ℕ
compact_from x [] = x ∷ []
compact_from x (y ∷ ys) = if x == y then compact_from x ys else x ∷ compact_from y ys

abbrev pub compacted : List ℕ → List ℕ
compacted [] = []
compacted (x ∷ xs) = compact_from x xs

unfoldable pub dedup_sorted : List ℕ → List ℕ
dedup_sorted ids = compacted (sort ids)

contains-compact_from :
    (x : ℕ) (ys : List ℕ) (j : ℕ) → contains (compact_from x ys) j ≡ (x == j || contains ys j)
unfolding compact_from
contains-compact_from x [] j = refl
contains-compact_from x (y ∷ ys) j =
    ground (arith, contains-compact_from x ys j, contains-compact_from y ys j)

contains-compacted : (xs : List ℕ) (j : ℕ) → contains (compacted xs) j ≡ contains xs j
contains-compacted [] j = refl
contains-compacted (x ∷ xs) j = contains-compact_from x xs j

pub contains-dedup_sorted : (ids : List ℕ) (j : ℕ) → contains (dedup_sorted ids) j ≡ contains ids j
unfolding dedup_sorted
contains-dedup_sorted ids j = contains-compacted (sort ids) j ∙ contains-sort ids j

-- The loop of Union over its second list; `out` is what stands in the answer, and so what `seen` holds.
unfoldable pub union_loop : List ℕ → List ℕ → List ℕ
union_loop out [] = out
union_loop out (x ∷ xs) = union_loop (if contains out x then out else out ++ (x ∷ [])) xs

unfoldable pub union : List ℕ → List ℕ → List ℕ
union a b = union_loop a b
