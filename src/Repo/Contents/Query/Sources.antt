-- ===== src/Repo/Contents/Query/Sources.antt =====
-- The records that a query reads: those of the mirror of one topic, those of the ids it names, or the whole bucket.
use Prim.Native.String.{String}
use text.Mathlib.Text.{◌==◌ as str_eq}
use mem_hop.Prelude.{
  subst, ℕ, ◌≡◌, refl, sym, ap, List, [], ◌∷◌, Bool, Option, none, some, not, ◌&&◌, ◌==◌, length,
  map, if◌then◌else◌, arith, Bool-cases, inl, inr, ◌⊎◌,
}
use mem_hop.Prelude.Int.{ℤ, pos, negsuc}
use mem_hop.Errors.{Result-cases, ok, err, not_found}
use mem_hop.Storage.Engine.{Engine, is_some, index_by_type}
use mem_hop.Index.Content.{Entry, ContentIndex, at_topic, ids, all_ids}
use mem_hop.Records.{is_not_found, read_json, collect_ids, collect_all_strict}
use mem_hop.Repo.Contents.{ArchiveSlot}
use mem_hop.Repo.Contents.Reading.{
  ArchiveQuery, is_nil, is_zero, lowered, names_ids, list_by_id, read_archives_by_ids,
  by_ids_or_scan, candidates_at, candidates,
}
use mem_hop.Repo.Contents.Query.Wanted.{zero_int}

nil_lem : (o : Option ℕ) → is_nil o ≡ not (is_some o)
nil_lem none = refl
nil_lem (some n) = refl

zero_lem : (i : ℤ) → is_zero i ≡ zero_int i
zero_lem (pos n) = ground arith
zero_lem (negsuc n) = ground arith

module _ (unmarshal : List ℕ → Option ArchiveSlot) (e : Engine) (a : ℕ) where
  -- Every id reads, and these are the records in the order of the ids.
  abbrev pub AllRead : List ℕ → List ArchiveSlot → Type 0
  AllRead [] out = out ≡ []
  AllRead (i ∷ is) out =
      (x : ArchiveSlot) × (xs : List ArchiveSlot) × (read_json unmarshal e a i 8 ≡ ok x)
      × (out ≡ x ∷ xs)
      × AllRead is xs

  -- Every id reads or is missing, and these are the records that read.
  abbrev pub Found : List ℕ → List ArchiveSlot → Type 0
  Found [] out = out ≡ []
  Found (i ∷ is) out =
      ((x : ArchiveSlot) × (xs : List ArchiveSlot) × (read_json unmarshal e a i 8 ≡ ok x)
        × (out ≡ x ∷ xs)
        × Found is xs)
      ⊎ ((read_json unmarshal e a i 8 ≡ err not_found) × Found is out)

  read_all :
      (is : List ℕ) (out : List ArchiveSlot)
      → AllRead is out
      → read_archives_by_ids unmarshal e a is ≡ ok out
  unfolding read_archives_by_ids
  read_all [] out h = ap ok (sym h)
  read_all (i ∷ is) out (x, xs, r, o, h) = rw r (rw (read_all is xs h) (ap ok (sym o)))

  ids_map : (es : List Entry) → ids none es ≡ map (λ x. x.id_hash) es
  unfolding ids
  ids_map [] = refl
  ids_map (x ∷ xs) = ap (λ r. x.id_hash ∷ r) (ids_map xs)

  -- The other way round: what the read by ids answers is the record of every id.
  all_read :
      (is : List ℕ) (out : List ArchiveSlot)
      → read_archives_by_ids unmarshal e a is ≡ ok out
      → AllRead is out
  unfolding read_archives_by_ids
  all_read [] out h = cc h
  all_read (i ∷ is) out h = elim (Result-cases (read_json unmarshal e a i 8)) [
    | inr (c, r) ↦ elim (Bool-cases (is_not_found c)) [
      | inl gone ↦ absurd (cc (rw (r, gone) at h))
      | inr hard ↦ absurd (cc (rw (r, hard) at h))
    ]
    | inl (x, r) ↦ elim (Result-cases (read_archives_by_ids unmarshal e a is)) [
      | inr (c, rest) ↦ absurd (cc (rw (r, rest) at h))
      | inl (xs, rest) ↦
          let same : out ≡ x ∷ xs = cc (rw (r, rest) at h) in (x, xs, r, same, all_read is xs rest)
    ]
  ]

  pub all_ids-AllRead :
      (idx : ContentIndex) (topic : ℕ) (out : List ArchiveSlot)
      → read_archives_by_ids unmarshal e a (all_ids idx topic) ≡ ok out
      → AllRead (map (λ x. x.id_hash) (at_topic idx topic)) out
  unfolding all_ids
  all_ids-AllRead idx topic out h =
      subst (λ is. AllRead is out) (ids_map (at_topic idx topic))
        (all_read (ids none (at_topic idx topic)) out h)

  list-Found :
      (is : List ℕ) (out : List ArchiveSlot) → Found is out → list_by_id unmarshal e a is ≡ ok out
  unfolding list_by_id
  list-Found [] out h = ap ok (sym h)
  list-Found (i ∷ is) out (inl (x, xs, r, o, h)) =
      rw (r, list_by_id) (rw (list-Found is xs h) (ap ok (sym o)))
  list-Found (i ∷ is) out (inr (r, h)) = rw (r, list_by_id) (list-Found is out h)

  scan-Found :
      (is : List ℕ) (out : List ArchiveSlot)
      → Found is out
      → collect_ids unmarshal e a 8 is ≡ ok out
  unfolding collect_ids
  scan-Found [] out h = ap ok (sym h)
  scan-Found (i ∷ is) out (inl (x, xs, r, o, h)) =
      rw (r, collect_ids) (rw (scan-Found is xs h) (ap ok (sym o)))
  scan-Found (i ∷ is) out (inr (r, h)) = rw (r, collect_ids) (scan-Found is out h)

  module _ (has_text : String → String → Bool) (to_lower : String → String) (q : ArchiveQuery) where
    -- Whether ids are all that the query sets.
    abbrev pub only_ids : Bool
    only_ids =
        not (length q.ids == 0)
        && not (is_some q.topic_id)
        && not (is_some q.content_type)
        && not (is_some q.kind)
        && length q.node_seqs == 0
        && str_eq (to_lower q.keyword) ""
        && zero_int q.start
        && zero_int q.end

    -- What is read for a topic and a mirror: the entries of the topic, or without one of the two the named ids where
    -- nothing else is set, and the bucket otherwise.
    abbrev pub AreRead : Option ℕ → Option ContentIndex → List ArchiveSlot → Type 0
    AreRead (some topic) (some idx) out = AllRead (map (λ x. x.id_hash) (at_topic idx topic)) out
    AreRead (some topic) none out = Found (if only_ids then q.ids else index_by_type e a 8) out
    AreRead none idx out = Found (if only_ids then q.ids else index_by_type e a 8) out

    names_ids_lem :
        names_ids unmarshal has_text to_lower (lowered unmarshal has_text to_lower q) ≡ only_ids
    names_ids_lem =
        rw
          (
            nil_lem q.topic_id,
            nil_lem q.content_type,
            nil_lem q.kind,
            zero_lem q.start,
            zero_lem q.end,
          )
          refl

    by_ids_or_scan-Found :
        (out : List ArchiveSlot)
        → Found (if only_ids then q.ids else index_by_type e a 8) out
        → by_ids_or_scan unmarshal has_text to_lower e a (lowered unmarshal has_text to_lower q)
          ≡ ok out
    unfolding collect_all_strict
    by_ids_or_scan-Found out h = rw names_ids_lem (elim (Bool-cases only_ids) [
      | inl named ↦ rw named (list-Found q.ids out (rw named at h))
      | inr wide ↦ rw wide (scan-Found (index_by_type e a 8) out (rw wide at h))
    ])

    candidates_at-AreRead :
        (topic : Option ℕ) (idx : Option ContentIndex) (out : List ArchiveSlot)
        → AreRead topic idx out
        → candidates_at unmarshal has_text to_lower e a
            (lowered unmarshal has_text to_lower q)
            topic
            idx
          ≡ ok out
    unfolding all_ids
    candidates_at-AreRead (some topic) (some idx) out h =
        rw (ids_map (at_topic idx topic))
          (read_all (map (λ x. x.id_hash) (at_topic idx topic)) out h)
    candidates_at-AreRead (some topic) none out h = by_ids_or_scan-Found out h
    candidates_at-AreRead none idx out h = by_ids_or_scan-Found out h

    pub candidates-AreRead :
        (out : List ArchiveSlot)
        → AreRead q.topic_id q.index out
        → candidates unmarshal has_text to_lower e a (lowered unmarshal has_text to_lower q)
          ≡ ok out
    unfolding candidates
    candidates-AreRead out h = candidates_at-AreRead q.topic_id q.index out h
