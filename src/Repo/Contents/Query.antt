-- ===== src/Repo/Contents/Query.antt =====
-- QueryArchivesL4: what a query that succeeds answers of the records it read.
pub mod Wanted
pub mod Sources
use mathlib.Core.List.{Perm}
use mem_hop.Repo.Contents.Query.Wanted.{InOrder, wanted, sorted-InOrder, matches-wanted}
use mem_hop.Repo.Contents.Query.Sources.{AreRead, candidates-AreRead}
use mem_hop.Prelude.{
  ℕ, ◌-◌, ◌≡◌, refl, sym, ap, ◌∙◌, List, [], ◌∷◌, ◌++◌, Bool, true, false, any, not, ◌&&◌, ◌==◌,
  leb, keep_if, length, take, take-append-drop, if◌then◌else◌, arith, Bool-cases, inl, inr,
  length-drop, subst,
}
use Prim.Native.String.{String}
use mem_hop.Prelude.{Option}
use mem_hop.Prelude.Int.{ℤ, pos, negsuc}
use mem_hop.Prelude.Sort.{sort_by, sort_by-perm, sort_by-IsSorted}
use mem_hop.Errors.{ok}
use mem_hop.Storage.Engine.{Engine}
use mem_hop.Repo.Contents.{ArchiveSlot}
use mem_hop.Repo.Contents.Reading.{
  ArchiveQuery, is_nil, archive_first, newest, lowered, matches_archive_query, candidates, selected,
  query_archives_l4,
}

first_total :
    (one : Bool) (a b : ArchiveSlot) → archive_first one a b ≡ false → archive_first one b a ≡ true
first_total true a b h = ground (arith, h)
first_total false a b h = ground (arith, h)

first_trans :
    (one : Bool) (a b c : ArchiveSlot)
    → archive_first one a b ≡ true
    → archive_first one b c ≡ true
    → archive_first one a c ≡ true
first_trans true a b c h k = ground (arith, h, k)
first_trans false a b c h k = ground (arith, h, k)

-- How many a limit leaves of n.
abbrev pub limited : ℤ → ℕ → ℕ
limited (pos limit) n = if limit == 0 then n else if leb n limit then n else limit
limited (negsuc m) n = n

-- The answer is the tail of the result.
newest_tail :
    (out : List ArchiveSlot) (limit : ℤ)
    → (older : List ArchiveSlot) × (older ++ newest out limit ≡ out)
      × (length (newest out limit) ≡ limited limit (length out))
newest_tail out (negsuc m) = ([], refl, refl)
newest_tail out (pos limit) = elim (Bool-cases (limit == 0)) [
  | inl unlimited ↦ ([], rw unlimited refl, rw unlimited refl)
  | inr bounded ↦ elim (Bool-cases (leb (length out) limit)) [
    | inl few ↦ ([], rw (bounded, few) refl, rw (bounded, few) refl)
    | inr many ↦
        let n = length out - limit in
        (
          take n out,
          rw (bounded, many) (take-append-drop n out),
          rw (bounded, many) (length-drop n out ∙ ground (arith, many)),
        )
  ]
]

keep_if-ext :
    (p q : ArchiveSlot → Bool) (xs : List ArchiveSlot)
    → ((x : ArchiveSlot) → p x ≡ q x)
    → keep_if p xs ≡ keep_if q xs
keep_if-ext p q [] h = refl
keep_if-ext p q (x ∷ xs) h = rw (h x, keep_if-ext p q xs h) refl

module _ (unmarshal : List ℕ → Option ArchiveSlot) (has_text : String → String → Bool)
    (to_lower : String → String) (e : Engine) (a : ℕ) (q : ArchiveQuery) where
  -- Where the records that a query reads all read back: QueryArchivesL4 succeeds, and its answer, with the records that
  -- the limit leaves out before it, is the records of which every condition holds, each as often as it was
  -- read, in order of Seq inside a topic and of time and then id otherwise. With a topic and a mirror the
  -- records read are those that the mirror names; with ids and no other condition those of the ids that are
  -- not missing; else those of the whole bucket.
  pub query_archives_l4_lem :
      (out : List ArchiveSlot)
      → AreRead unmarshal e a has_text to_lower q q.topic_id q.index out
      → (older : List ArchiveSlot) × (answer : List ArchiveSlot) × (query_archives_l4 unmarshal
            has_text to_lower e a q
          ≡ ok answer)
        × InOrder q.topic_id (older ++ answer)
        × Perm (older ++ answer) (keep_if (wanted unmarshal has_text to_lower q) out)
        × (length answer ≡ limited q.limit (length (older ++ answer)))
  unfolding query_archives_l4 selected
  query_archives_l4_lem out read =
      let first = archive_first (not (is_nil q.topic_id)) in
      let matching =
        matches_archive_query unmarshal has_text to_lower (lowered unmarshal has_text to_lower q) in
      let whole = sort_by first (keep_if matching out) in
      let (older, split, count) = newest_tail whole q.limit in
      (
        older,
        newest whole q.limit,
        rw (candidates-AreRead unmarshal e a has_text to_lower q out read) refl,
        subst (InOrder q.topic_id) (sym split) (
            sorted-InOrder q.topic_id whole (
              sort_by-IsSorted first (first_total (not (is_nil q.topic_id)))
                (first_trans (not (is_nil q.topic_id))) (keep_if matching out))),
        subst (λ xs. Perm xs (keep_if (wanted unmarshal has_text to_lower q) out)) (sym split)
            (subst (λ xs. Perm whole xs)
              (keep_if-ext matching (wanted unmarshal has_text to_lower q) out
                (matches-wanted unmarshal has_text to_lower q))
              ∣ sort_by-perm first (keep_if matching out) ∣₁),
        rw split count,
      )
