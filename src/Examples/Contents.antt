-- ===== src/Examples/Contents.antt =====
-- Two content records of a topic in a new database: appended, read, swept and deleted. The codec writes a record as nine
-- numbers; it knows only records without a text.
use Prim.Native.String.{String}
use text.Mathlib.Text.{◌==◌ as str_eq}
use text.Mathlib.TextEquality.{eq_iff}
use mem_hop.Prelude.{
  ℕ, ◌+◌, ◌%◌, ◌<◌, ◌^◌, ◌≡◌, refl, sym, ap, ◌∙◌, List, [], ◌∷◌, ◌++◌, Bool, true, false, Option,
  none, some, any, map, keep_if, ◌&&◌, ◌==◌, leb, if◌then◌else◌, arith, length, contains, All, ◌⊎◌,
  subst, Bool-cases, inl, inr,
}
use mem_hop.Prelude.Int.{ℤ, pos}
use mem_hop.Prelude.Map.{get, put, delete, Distinct}
use mem_hop.Errors.{ok}
use mem_hop.Storage.Read.{read_record}
use mem_hop.Storage.Fresh.{created, created-IsReady}
use mem_hop.Storage.Ready.{IsReady}
use mem_hop.Storage.Store.Purge.{is_live, without}
use mem_hop.Records.Laws.{IsLossless}
use mem_hop.Plan.Writes.{digits}
use mem_hop.Index.Content.{at_topic, all_ids, append, insert_entry, expired_before}
use mem_hop.Index.Content.Order.{IsOrdered}
use mem_hop.Repo.Contents.{
  ArchiveSlot, Contents, hash_content, entry_of, addressed, mirror, address_all,
  append_archive_batch_l4, delete_topic_archives, drop_expired_archives, all_expired,
}
use mem_hop.Repo.Contents.Reading.{ArchiveQuery, read_archives_by_ids, query_archives_l4}
use mem_hop.Repo.Contents.Mirror.{IsMirrored, IsAppendable, AreApart}
use mem_hop.Repo.Contents.Append.{is_addressed, append_archive_batch_l4_lem}
use mem_hop.Repo.Contents.Removal.{
  names, names_old, current, delete_topic_archives_lem, drop_expired_archives_lem,
}
use mathlib.Core.List.{Perm}
use mem_hop.Repo.Contents.Query.Wanted.{InOrder, wanted}
use mem_hop.Repo.Contents.Query.Sources.{all_ids-AllRead}
use mem_hop.Repo.Contents.Query.{limited, query_archives_l4_lem}
use mem_hop.Examples.Topics.{sign, size, int_of, int_of_lem, true_parts}

abbrev numbers : ArchiveSlot → List ℕ
numbers arc =
    arc.id_hash
    ∷ arc.kind
    ∷ arc.seq
    ∷ arc.content_type
    ∷ arc.role
    ∷ arc.topic_id
    ∷ arc.node_seq
    ∷ sign arc.created_at
    ∷ size arc.created_at
    ∷ []

abbrev is_silent : ArchiveSlot → Bool
is_silent arc = str_eq arc.event_type "" && str_eq arc.content ""

abbrev marshal : ArchiveSlot → Option (List ℕ)
marshal arc = if is_silent arc then some (numbers arc) else none

abbrev unmarshal : List ℕ → Option ArchiveSlot
unmarshal (i ∷ k ∷ s ∷ c ∷ r ∷ t ∷ n ∷ cs ∷ m ∷ []) = some (record {
  id_hash = i;
  kind = k;
  seq = s;
  content_type = c;
  role = r;
  topic_id = t;
  event_type = "";
  node_seq = n;
  created_at = int_of cs m;
  content = "";
})
unmarshal bytes = none

unmarshal-numbers : (arc : ArchiveSlot) → is_silent arc ≡ true → unmarshal (numbers arc) ≡ some arc
unmarshal-numbers arc silent =
    let (t, c) = true_parts (str_eq arc.event_type "") (str_eq arc.content "") silent in
    let event = (eq_iff arc.event_type "").0 t in
    let content = (eq_iff arc.content "").0 c in
    λ i. some (record arc {
      event_type = sym event i;
      created_at = int_of_lem arc.created_at i;
      content = sym content i;
    })

lossless : IsLossless marshal unmarshal
lossless = record {
  back = λ arc bytes h. elim (Bool-cases (is_silent arc)) [
    | inl silent ↦
        let same : numbers arc ≡ bytes = cc (rw silent at h) in
        ap unmarshal (sym same) ∙ unmarshal-numbers arc silent
    | inr spoken ↦ absurd (cc (rw spoken at h))
  ];
  sized = λ arc bytes h. elim (Bool-cases (is_silent arc)) [
    | inl silent ↦
        let same : numbers arc ≡ bytes = cc (rw silent at h) in omega (arith, ap length same)
    | inr spoken ↦ absurd (cc (rw spoken at h))
  ];
}

-- The last byte of the text.
abbrev xxhash : List ℕ → ℕ
xxhash [] = 0
xxhash (b ∷ []) = b % 256
xxhash (b ∷ c ∷ bytes) = xxhash (c ∷ bytes)

xxhash_bounded : (bytes : List ℕ) → xxhash bytes < 256 ^ 8
xxhash_bounded [] = omega arith
xxhash_bounded (b ∷ []) = omega arith
xxhash_bounded (b ∷ c ∷ bytes) = xxhash_bounded (c ∷ bytes)

-- content:9:1 and content:9:2
abbrev used : ℕ → ℕ → Bool
used t s = t == 9 && leb 1 s && leb s 2

used_cases : (t s : ℕ) → used t s ≡ true → (t ≡ 9) × ((s ≡ 1) ⊎ (s ≡ 2))
used_cases t s h = (ground (arith, h), ground (arith, h))

hash_used : (t s : ℕ) → (t ≡ 9) × ((s ≡ 1) ⊎ (s ≡ 2)) → hash_content xxhash t s ≡ 48 + s
unfolding digits
hash_used t s (nine, inl one) = ap (λ x. hash_content xxhash x s) nine ∙ rw one refl
hash_used t s (nine, inr two) = ap (λ x. hash_content xxhash x s) nine ∙ rw two refl

apart : AreApart marshal unmarshal xxhash used
apart t s u v h k same =
    let mine = hash_used t s (used_cases t s h) in
    let other = hash_used u v (used_cases u v k) in
    ((used_cases t s h).0 ∙ sym (used_cases u v k).0, omega (arith, mine, other, same))

abbrev slot : ℕ → ℤ → ArchiveSlot
slot seq now = record {
  id_hash = 0;
  kind = 0;
  seq = seq;
  content_type = 0;
  role = 1;
  topic_id = 9;
  event_type = "";
  node_seq = 0;
  created_at = now;
  content = "";
}

abbrev slots : List ArchiveSlot
slots = slot 1 (pos 5) ∷ slot 2 (pos 60) ∷ []

abbrev blank : Contents
blank = record { engine = created; index = [] }

blank-IsOrdered : IsOrdered []
unfolding get
blank-IsOrdered = record { rises = λ topic. tt }

blank-IsMirrored : IsMirrored marshal unmarshal xxhash used (read_record created 1) []
unfolding get
blank-IsMirrored u = tt

slots_fit : All (IsAppendable marshal unmarshal xxhash used) slots
slots_fit = (
  (numbers (addressed marshal xxhash (slot 1 (pos 5))), refl, omega arith, refl),
  ((numbers (addressed marshal xxhash (slot 2 (pos 60))), refl, omega arith, refl), tt),
)

abbrev Stored : Type 0
Stored =
    (s' : Contents) × (append_archive_batch_l4 marshal xxhash 1 slots blank ≡ (ok tt, s'))
    × IsReady s'.engine
    × (s'.engine.plan ≡ [])
    × (s'.index ≡ mirror (address_all marshal xxhash slots) [])
    × IsOrdered s'.index
    × IsMirrored marshal unmarshal xxhash used (read_record s'.engine 1) s'.index
    × ((u : ℕ)
        → (answer : List ArchiveSlot) × (read_archives_by_ids unmarshal s'.engine 1
              (all_ids s'.index u)
            ≡ ok answer)
          × (map entry_of answer ≡ at_topic s'.index u)
          × All (λ arc. arc.topic_id ≡ u) answer)
    × ((b j : ℕ)
        → (1 == b && is_addressed xxhash slots j) ≡ false
        → read_record s'.engine b j ≡ read_record created b j)

abbrev stored : Stored
stored =
    append_archive_batch_l4_lem marshal unmarshal xxhash used lossless apart 1 (omega arith)
      xxhash_bounded slots blank refl created-IsReady blank-IsOrdered blank-IsMirrored slots_fit

append_archive_batch_l4_lem_example : Stored
append_archive_batch_l4_lem_example =
    append_archive_batch_l4_lem marshal unmarshal xxhash used lossless apart 1 (omega arith)
      xxhash_bounded slots blank refl created-IsReady blank-IsOrdered blank-IsMirrored slots_fit

delete_topic_archives_lem_example :
    (s' : Contents) × (delete_topic_archives 1 (9 ∷ []) stored.0 ≡ (ok tt, s'))
    × IsReady s'.engine
    × (s'.engine.plan ≡ [])
    × ((b j : ℕ)
        → read_record s'.engine b j ≡ (
            without
              (1 == b && any (λ t. names (at_topic stored.0.index t) j) (9 ∷ []))
              (read_record stored.0.engine b j)))
    × ((u : ℕ)
        → at_topic s'.index u ≡ (if contains (9 ∷ []) u then [] else at_topic stored.0.index u))
delete_topic_archives_lem_example = delete_topic_archives_lem 1 (9 ∷ []) stored.0 stored.3 stored.2

one_mirrored : Distinct (mirror (address_all marshal xxhash slots) [])
unfolding mirror address_all append put delete get insert_entry
one_mirrored = (refl, tt)

one_topic : Distinct stored.0.index
one_topic = subst Distinct (sym stored.4) one_mirrored

drop_expired_archives_lem_example :
    (s' : Contents) × (drop_expired_archives 1 (pos 50) stored.0 ≡ (
      ok (
          length (
            keep_if
              (is_live stored.0.engine 1)
              (all_expired (expired_before stored.0.index (pos 50))))),
      s',
    ))
    × IsReady s'.engine
    × (s'.engine.plan ≡ [])
    × ((b j : ℕ)
        → read_record s'.engine b j ≡ (
            without
              (1 == b && any (λ row. names_old (pos 50) row.1 j) stored.0.index)
              (read_record stored.0.engine b j)))
    × ((u : ℕ)
        → at_topic s'.index u
          ≡ (keep_if (current (pos 50) (at_topic stored.0.index u)) (at_topic stored.0.index u)))
drop_expired_archives_lem_example =
    drop_expired_archives_lem 1 (pos 50) stored.0 stored.3 stored.2 one_topic

abbrev has_text : String → String → Bool
has_text text keyword = false

abbrev to_lower : String → String
to_lower text = text

abbrev query : ArchiveQuery
query = record {
  ids = [];
  topic_id = some 9;
  content_type = none;
  kind = none;
  node_seqs = [];
  keyword = "";
  start = pos 0;
  end = pos 0;
  limit = pos 1;
  index = some stored.0.index;
}

abbrev reading :
    (u : ℕ)
    → (answer : List ArchiveSlot) × (read_archives_by_ids unmarshal stored.0.engine 1
          (all_ids stored.0.index u)
        ≡ ok answer)
      × (map entry_of answer ≡ at_topic stored.0.index u)
      × All (λ arc. arc.topic_id ≡ u) answer
reading = stored.7

query_archives_l4_lem_example :
    (older : List ArchiveSlot) × (answer : List ArchiveSlot) × (query_archives_l4 unmarshal has_text
        to_lower stored.0.engine 1 query
      ≡ ok answer)
    × InOrder (some 9) (older ++ answer)
    × Perm (older ++ answer) (keep_if (wanted unmarshal has_text to_lower query) (reading 9).0)
    × (length answer ≡ limited (pos 1) (length (older ++ answer)))
query_archives_l4_lem_example =
    query_archives_l4_lem unmarshal has_text to_lower stored.0.engine 1 query (reading 9).0
      (all_ids-AllRead unmarshal stored.0.engine 1 stored.0.index 9 (reading 9).0 (reading 9).1)
