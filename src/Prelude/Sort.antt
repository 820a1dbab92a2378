-- ===== src/Prelude/Sort.antt =====
-- slices.Sort over unsigned integers, and slices.SortFunc.
use mem_hop.Prelude.Tests.{leb, if◌then◌else◌, ◌==◌, Bool-cases}
use mem_hop.Prelude.Lists.{any, All, contains}
use Prim.Native.Nat.{ℕ}
use mathlib.Core.Path.{◌≡◌, refl, ap, ◌∙◌}
use mathlib.Core.Logic.{inl, inr}
use mathlib.Core.Bool.{Bool, true, false, ◌||◌}
use mathlib.Core.List.{List, [], ◌∷◌, Permᴰ}
use mathlib.Core.List.Permᴰ
use native.Mathlib.Omega.{arith}

unfoldable pub insert_sorted : ℕ → List ℕ → List ℕ
insert_sorted a [] = a ∷ []
insert_sorted a (x ∷ xs) = if leb a x then a ∷ x ∷ xs else x ∷ insert_sorted a xs

unfoldable pub sort : List ℕ → List ℕ
sort [] = []
sort (x ∷ xs) = insert_sorted x (sort xs)

contains-insert_sorted :
    (a : ℕ) (xs : List ℕ) (j : ℕ) → contains (insert_sorted a xs) j ≡ (a == j || contains xs j)
unfolding insert_sorted
contains-insert_sorted a [] j = refl
contains-insert_sorted a (x ∷ xs) j = ground (arith, contains-insert_sorted a xs j)

pub contains-sort : (xs : List ℕ) (j : ℕ) → contains (sort xs) j ≡ contains xs j
unfolding sort
contains-sort [] j = refl
contains-sort (x ∷ xs) j =
    contains-insert_sorted x (sort xs) j ∙ ap (λ b. x == j || b) (contains-sort xs j)

-- slices.SortFunc over a comparison whose result is at most 0 exactly where `first a b`.
module _ {ℓ} {A : Type ℓ} (first : A → A → Bool) where
  unfoldable pub insert_by : A → List A → List A
  insert_by a [] = a ∷ []
  insert_by a (x ∷ xs) = if first a x then a ∷ x ∷ xs else x ∷ insert_by a xs

  unfoldable pub sort_by : List A → List A
  sort_by [] = []
  sort_by (x ∷ xs) = insert_by x (sort_by xs)

  any-insert_by : (p : A → Bool) (a : A) (xs : List A) → any p (insert_by a xs) ≡ (p a || any p xs)
  unfolding insert_by
  any-insert_by p a [] = refl
  any-insert_by p a (x ∷ xs) = ground (arith, any-insert_by p a xs)

  pub any-sort_by : (p : A → Bool) (xs : List A) → any p (sort_by xs) ≡ any p xs
  unfolding sort_by
  any-sort_by p [] = refl
  any-sort_by p (x ∷ xs) = any-insert_by p x (sort_by xs) ∙ ap (λ b. p x || b) (any-sort_by p xs)

  insert_by-perm : (a : A) (xs : List A) → Permᴰ (insert_by a xs) (a ∷ xs)
  unfolding insert_by
  insert_by-perm a [] = Permᴰ.cons refl Permᴰ.nil
  insert_by-perm a (x ∷ xs) = elim (Bool-cases (first a x)) [
    | inl e ↦ rw e (Permᴰ.refl (a ∷ x ∷ xs))
    | inr e ↦ rw e (Permᴰ.trans (Permᴰ.cons refl (insert_by-perm a xs)) (Permᴰ.swap refl refl))
  ]

  pub sort_by-perm : (xs : List A) → Permᴰ (sort_by xs) xs
  unfolding sort_by
  sort_by-perm [] = Permᴰ.nil
  sort_by-perm (x ∷ xs) =
      Permᴰ.trans (insert_by-perm x (sort_by xs)) (Permᴰ.cons refl (sort_by-perm xs))

  All-insert {κ} : (P : A → Type κ) (a : A) (xs : List A) → P a → All P xs → All P (insert_by a xs)
  unfolding insert_by
  All-insert P a [] p h = (p, tt)
  All-insert P a (x ∷ xs) p h = elim (Bool-cases (first a x)) [
    | inl e ↦ rw e (p, h)
    | inr e ↦ rw e (h.0, All-insert P a xs p h.1)
  ]

  pub All-sort_by {κ} : (P : A → Type κ) (xs : List A) → All P xs → All P (sort_by xs)
  unfolding sort_by
  All-sort_by P [] h = tt
  All-sort_by P (x ∷ xs) h = All-insert P x (sort_by xs) h.0 (All-sort_by P xs h.1)

  -- Every element comes first of those behind it.
  abbrev pub IsSorted : List A → Type ℓ
  IsSorted [] = Unit
  IsSorted (x ∷ xs) = All (λ y. first x y ≡ true) xs × IsSorted xs

  module _ (total : (a b : A) → first a b ≡ false → first b a ≡ true)
      (trans : (a b c : A) → first a b ≡ true → first b c ≡ true → first a c ≡ true) where
    All-insert_by :
        (b a : A) (xs : List A)
        → first b a ≡ true
        → All (λ y. first b y ≡ true) xs
        → All (λ y. first b y ≡ true) (insert_by a xs)
    unfolding insert_by
    All-insert_by b a [] h r = (h, tt)
    All-insert_by b a (x ∷ xs) h r = elim (Bool-cases (first a x)) [
      | inl e ↦ rw e (h, r)
      | inr e ↦ rw e (r.0, All-insert_by b a xs h r.1)
    ]

    All_trans :
        (a x : A) (xs : List A)
        → first a x ≡ true
        → All (λ y. first x y ≡ true) xs
        → All (λ y. first a y ≡ true) xs
    All_trans a x [] h r = tt
    All_trans a x (y ∷ ys) h r = (trans a x y h r.0, All_trans a x ys h r.1)

    insert_by-IsSorted : (a : A) (xs : List A) → IsSorted xs → IsSorted (insert_by a xs)
    unfolding insert_by
    insert_by-IsSorted a [] s = (tt, tt)
    insert_by-IsSorted a (x ∷ xs) s = elim (Bool-cases (first a x)) [
      | inl e ↦ rw e ((e, All_trans a x xs e s.0), s)
      | inr e ↦ rw e (All-insert_by x a xs (total a x e) s.0, insert_by-IsSorted a xs s.1)
    ]

    pub sort_by-IsSorted : (xs : List A) → IsSorted (sort_by xs)
    unfolding sort_by
    sort_by-IsSorted [] = tt
    sort_by-IsSorted (x ∷ xs) = insert_by-IsSorted x (sort_by xs) (sort_by-IsSorted xs)
