-- ===== src/Index/Content/Removal.antt =====
-- RemoveIDs drops exactly the entries that name a doomed record, in the one topic.
use mem_hop.Prelude.{
  ℕ, ◌≤◌, ◌≡◌, refl, List, [], ◌∷◌, Bool, arith, ◌==◌, if◌then◌else◌, length, Bool-cases, inl, inr,
  not, ==_iff, keep_if, contains,
}
use mem_hop.Prelude.Map.{put, delete, get-put, get-delete}
use mem_hop.Index.Content.{Entry, ContentIndex, at_topic, remove_ids}
use mem_hop.Index.Content.Order.{RisesFrom, IsOrdered, RisesFrom-weaken}

abbrev pub kept : List ℕ → Entry → Bool
kept doomed e = not (contains doomed e.id_hash)

length-keep_if : (p : Entry → Bool) (es : List Entry) → length (keep_if p es) ≤ length es
length-keep_if p [] = omega arith
length-keep_if p (e ∷ es) = ground (arith, length-keep_if p es)

-- A filter that drops nothing by its length drops nothing.
keep_if-same :
    (p : Entry → Bool) (es : List Entry) → length (keep_if p es) ≡ length es → keep_if p es ≡ es
keep_if-same p [] h = refl
keep_if-same p (e ∷ es) h = ground (arith, keep_if-same p es, length-keep_if p es)

-- The topic is left with the entries that name no doomed record, in their order; the topic goes
-- when none is left; every other topic is untouched.
pub at_topic-remove_ids :
    (idx : ContentIndex) (topic : ℕ) (doomed : List ℕ) (u : ℕ)
    → at_topic (remove_ids idx topic doomed) u
      ≡ (if topic == u then keep_if (kept doomed) (at_topic idx topic) else at_topic idx u)
unfolding remove_ids
at_topic-remove_ids idx topic doomed u =
    elim (Bool-cases
      (length (keep_if (kept doomed) (at_topic idx topic)) == length (at_topic idx topic))) [
        | inl all ↦
            let same = keep_if-same (kept doomed) (at_topic idx topic) ((==_iff _ _).0 all) in
            rw all (ground (arith, same))
        | inr fewer ↦ rw fewer (left (keep_if (kept doomed) (at_topic idx topic)))
      ]
  where
    left :
        (es : List Entry)
        → at_topic (elim es [ [] ↦ delete idx topic | x ∷ xs ↦ put idx topic (x ∷ xs) ]) u
          ≡ (if topic == u then es else at_topic idx u)
    left [] = ground (arith, get-delete idx topic u)
    left (x ∷ xs) = ground (arith, get-put idx topic (x ∷ xs) u)

keep_if-RisesFrom :
    (p : Entry → Bool) (es : List Entry) (low : ℕ) → RisesFrom low es → RisesFrom low (keep_if p es)
keep_if-RisesFrom p [] low r = tt
keep_if-RisesFrom p (e ∷ es) low r = elim (Bool-cases (p e)) [
  | inl keep ↦ rw keep (r.0, keep_if-RisesFrom p es e.seq r.1)
  | inr lose ↦ rw lose (keep_if-RisesFrom p es low (RisesFrom-weaken es (omega (arith, r.0)) r.1))
]

-- A removal keeps the order of every topic.
pub remove_ids-IsOrdered :
    (idx : ContentIndex) (topic : ℕ) (doomed : List ℕ)
    → IsOrdered idx
    → IsOrdered (remove_ids idx topic doomed)
remove_ids-IsOrdered idx topic doomed o = record {
  rises = λ u. rw (at_topic-remove_ids idx topic doomed u) (elim (Bool-cases (topic == u)) [
    | inl same ↦ rw same (keep_if-RisesFrom (kept doomed) (at_topic idx topic) 0 (o.rises topic))
    | inr other ↦ rw other (o.rises u)
  ]);
}
