-- ===== src/Repo/Scenes/Group.antt =====
-- ComputeFusedTopicID: the order in which the members of a group come does not change the id.
use mem_hop.Prelude.{ℕ, ◌≡◌, refl, ap, ◌∙◌, List, [], ◌∷◌, arith}
use mem_hop.Prelude.Int.{ℤ}
use mem_hop.Prelude.Sort.{sort, insert_sorted}
use mathlib.Core.List.{Perm, Permᴰ}
use mathlib.Core.Logic.{∥∥₁_elim}
use native.Mathlib.Nat.{ℕ_set}
use mem_hop.Repo.Scenes.{compute_fused_topic_id}

insert_comm :
    (a b : ℕ) (xs : List ℕ)
    → insert_sorted a (insert_sorted b xs) ≡ insert_sorted b (insert_sorted a xs)
unfolding insert_sorted
insert_comm a b [] = ground arith
insert_comm a b (x ∷ xs) = ground (arith, insert_comm a b xs)

sort_perm : {xs ys : List ℕ} → Permᴰ xs ys → sort xs ≡ sort ys
unfolding sort
sort_perm Permᴰ.nil = refl
sort_perm (Permᴰ.cons {b = b} {l₁ = l₁} e p) =
    ap (λ x. insert_sorted x (sort l₁)) e ∙ ap (insert_sorted b) (sort_perm p)
sort_perm (Permᴰ.swap {a = a} {b = b} {l = l} e f) = insert_comm a b (sort l) ∙ rw (e, f) refl
sort_perm (Permᴰ.trans p q) = sort_perm p ∙ sort_perm q

-- A group whose members come in another order has the same id.
pub compute_fused_topic_id_perm :
    (xxhash : List ℕ → ℕ) (scene : ℕ) (user agent : ℤ) (members others : List ℕ)
    → Perm members others
    → compute_fused_topic_id xxhash scene user agent members
      ≡ compute_fused_topic_id xxhash scene user agent others
unfolding compute_fused_topic_id
compute_fused_topic_id_perm xxhash scene user agent members others p =
    ∥∥₁_elim p (ℕ_set _ _) (λ d. rw (sort_perm d) refl)
