-- ===== src/Repo/Contents/Query/Wanted.antt =====
-- What a query asks for, which order it reads in, and which records it reads, described beside the code.
use Prim.Native.String.{String}
use text.Mathlib.Text.{◌==◌ as str_eq}
use mem_hop.Prelude.{
  ℕ, ◌≤◌, ◌≡◌, refl, ap, ◌∙◌, List, [], ◌∷◌, Bool, true, false, Option, none, some, not, ◌&&◌, ◌||◌,
  ◌==◌, contains, length, All, if◌then◌else◌, arith, Bool-cases, inl, inr, ◌⊎◌,
}
use mem_hop.Prelude.Int.{ℤ, pos, negsuc, lt_int, le_int}
use mem_hop.Prelude.Sort.{IsSorted}
use mem_hop.Repo.Contents.{ArchiveSlot}
use mem_hop.Repo.Contents.Reading.{
  ArchiveQuery, is_nil, admits, admits_any, admits_text, archive_first, lowered,
  matches_archive_query,
}

-- A condition that is not set holds of every value.
abbrev pub fits : Option ℕ → ℕ → Bool
fits none n = true
fits (some m) n = m == n

abbrev pub zero_int : ℤ → Bool
zero_int (pos n) = n == 0
zero_int (negsuc n) = false

-- Inside one topic the Seq is the order; across topics it is the time, and the id where the times are equal.
abbrev pub Precedes : Option ℕ → ArchiveSlot → ArchiveSlot → Type 0
Precedes (some topic) a b = a.seq ≤ b.seq
Precedes none a b =
    (lt_int a.created_at b.created_at ≡ true)
    ⊎ ((a.created_at ≡ b.created_at) × (a.id_hash ≤ b.id_hash))

abbrev pub InOrder : Option ℕ → List ArchiveSlot → Type 0
InOrder topic [] = Unit
InOrder topic (x ∷ xs) = All (Precedes topic x) xs × InOrder topic xs

same_int : (i j : ℤ) → lt_int i j ≡ false → lt_int j i ≡ false → i ≡ j
same_int (pos m) (pos n) h k = ap pos (ground (arith, h, k))
same_int (pos m) (negsuc n) h k = absurd (ground (arith, h, k))
same_int (negsuc m) (pos n) h k = absurd (ground (arith, h, k))
same_int (negsuc m) (negsuc n) h k = ap negsuc (ground (arith, h, k))

first-Precedes :
    (topic : Option ℕ) (a b : ArchiveSlot)
    → archive_first (not (is_nil topic)) a b ≡ true
    → Precedes topic a b
first-Precedes (some t) a b h = ground (arith, h)
first-Precedes none a b h = elim (Bool-cases (lt_int a.created_at b.created_at)) [
  | inl before ↦ inl before
  | inr level ↦ elim (Bool-cases (lt_int b.created_at a.created_at)) [
    | inl after ↦ absurd (cc (rw (level, after) at h))
    | inr also ↦
        inr (same_int a.created_at b.created_at level also, ground (arith, rw (level, also) at h))
  ]
]

All-Precedes :
    (topic : Option ℕ) (a : ArchiveSlot) (xs : List ArchiveSlot)
    → All (λ y. archive_first (not (is_nil topic)) a y ≡ true) xs
    → All (Precedes topic a) xs
All-Precedes topic a [] h = tt
All-Precedes topic a (x ∷ xs) h = (first-Precedes topic a x h.0, All-Precedes topic a xs h.1)

pub sorted-InOrder :
    (topic : Option ℕ) (xs : List ArchiveSlot)
    → IsSorted (archive_first (not (is_nil topic))) xs
    → InOrder topic xs
sorted-InOrder topic [] s = tt
sorted-InOrder topic (x ∷ xs) s = (All-Precedes topic x xs s.0, sorted-InOrder topic xs s.1)

admits_lem : (o : Option ℕ) (n : ℕ) → admits o n ≡ fits o n
admits_lem none n = refl
admits_lem (some m) n = ground arith

admits_any_lem : (xs : List ℕ) (n : ℕ) → admits_any xs n ≡ (length xs == 0 || contains xs n)
admits_any_lem [] n = refl
admits_any_lem (x ∷ xs) n = ground arith

text_lem : (blank found : Bool) → (if blank then true else found) ≡ (blank || found)
text_lem true found = refl
text_lem false found = refl

start_lem : (s c : ℤ) → not (lt_int (pos 0) s && lt_int c s) ≡ (le_int s (pos 0) || le_int s c)
start_lem s c = ground arith

end_lem : (s c : ℤ) → not (lt_int (pos 0) s && lt_int s c) ≡ (le_int s (pos 0) || le_int c s)
end_lem s c = ground arith

chain :
    (a b c d e f g h : Bool)
    → (if not a
        then false
        else if not b
        then false
        else if not c
        then false
        else if not d
        then false
        else if not e
        then false
        else if not f
        then false
        else if g
        then false
        else if h
        then false
        else true)
      ≡ (a && b && c && d && e && f && not g && not h)
chain false b c d e f g h = refl
chain true false c d e f g h = refl
chain true true false d e f g h = refl
chain true true true false e f g h = refl
chain true true true true false f g h = refl
chain true true true true true false g h = refl
chain true true true true true true true h = refl
chain true true true true true true false true = refl
chain true true true true true true false false = refl

module _ (unmarshal : List ℕ → Option ArchiveSlot) (has_text : String → String → Bool)
    (to_lower : String → String) where
  -- Every condition of the query that is set holds of the record; times below 1 are not set.
  abbrev pub wanted : ArchiveQuery → ArchiveSlot → Bool
  wanted q x =
      (length q.ids == 0 || contains q.ids x.id_hash)
      && fits q.topic_id x.topic_id
      && fits q.kind x.kind
      && (length q.node_seqs == 0 || contains q.node_seqs x.node_seq)
      && fits q.content_type x.content_type
      && (str_eq (to_lower q.keyword) "" || has_text (to_lower x.content) (to_lower q.keyword))
      && (le_int q.start (pos 0) || le_int q.start x.created_at)
      && (le_int q.end (pos 0) || le_int x.created_at q.end)

  pub matches-wanted :
      (q : ArchiveQuery) (x : ArchiveSlot)
      → matches_archive_query unmarshal has_text to_lower (lowered unmarshal has_text to_lower q) x
        ≡ wanted q x
  unfolding matches_archive_query
  matches-wanted q x =
      chain (admits_any q.ids x.id_hash) (admits q.topic_id x.topic_id) (admits q.kind x.kind)
        (admits_any q.node_seqs x.node_seq) (admits q.content_type x.content_type)
        (admits_text unmarshal has_text to_lower (to_lower q.keyword) x)
        (lt_int (pos 0) q.start && lt_int x.created_at q.start)
        (lt_int (pos 0) q.end && lt_int q.end x.created_at)
      ∙ rw
          (
            admits_any_lem q.ids x.id_hash,
            admits_lem q.topic_id x.topic_id,
            admits_lem q.kind x.kind,
            admits_any_lem q.node_seqs x.node_seq,
            admits_lem q.content_type x.content_type,
            text_lem (str_eq (to_lower q.keyword) "")
                (has_text (to_lower x.content) (to_lower q.keyword)),
            start_lem q.start x.created_at,
            end_lem q.end x.created_at,
          )
          refl
