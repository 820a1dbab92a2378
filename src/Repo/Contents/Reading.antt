-- ===== src/Repo/Contents/Reading.antt =====
-- internal/repo/l4layer.go: reading content records, by their ids or by a query. Unmarshal of encoding/json,
-- strings.Contains and strings.ToLower are parameters.
use Prim.Native.String.{String}
use text.Mathlib.Text.{◌==◌ as str_eq}
use mem_hop.Prelude.{
  ℕ, ◌-◌, List, [], ◌∷◌, Bool, true, false, Option, none, some, not, ◌&&◌, ◌==◌, leb, if◌then◌else◌,
  contains, keep_if, length, drop,
}
use mem_hop.Prelude.Int.{ℤ, pos, lt_int, le_int}
use mem_hop.Prelude.Sort.{sort_by}
use mem_hop.Errors.{Result, ok, err, io, ◌>>=◌}
use mem_hop.Storage.Engine.{Engine}
use mem_hop.Records.{read_json, is_not_found, collect_all_strict}
use mem_hop.Index.Content.{ContentIndex, all_ids}
use mem_hop.Repo.Contents.{ArchiveSlot, rec_l4_archive}

-- ArchiveQuery: an absent pointer is `none`.
pub record ArchiveQuery : Type 0 where
  pub ids : List ℕ
  pub topic_id : Option ℕ
  pub content_type : Option ℕ
  pub kind : Option ℕ
  pub node_seqs : List ℕ
  pub keyword : String
  pub start : ℤ
  pub end : ℤ
  pub limit : ℤ
  pub index : Option ContentIndex

abbrev pub is_nil : Option ℕ → Bool
is_nil none = true
is_nil (some n) = false

-- `q.X != nil && v != *q.X`, the other way round.
abbrev pub admits : Option ℕ → ℕ → Bool
admits none n = true
admits (some m) n = n == m

abbrev pub admits_any : List ℕ → ℕ → Bool
admits_any [] n = true
admits_any (x ∷ xs) n = contains (x ∷ xs) n

abbrev pub is_zero : ℤ → Bool
is_zero i = le_int i (pos 0) && le_int (pos 0) i

-- compareArchives, as whether `a` comes no later than `b`: the Seq inside one topic, else the time and
-- then the id.
abbrev pub archive_first : Bool → ArchiveSlot → ArchiveSlot → Bool
archive_first true a b = leb a.seq b.seq
archive_first false a b =
    if lt_int a.created_at b.created_at
    then true
    else if lt_int b.created_at a.created_at
    then false
    else leb a.id_hash b.id_hash

-- The last `limit` of an ascending result; a limit that is not positive keeps all.
abbrev pub newest : List ArchiveSlot → ℤ → List ArchiveSlot
newest out (pos limit) =
    if limit == 0
    then out
    else if leb (length out) limit
    then out
    else drop (length out - limit) out
newest out limit = out

module _ (unmarshal : List ℕ → Option ArchiveSlot) where
  abbrev pub read_archive_slot : Engine → ℕ → ℕ → Result ArchiveSlot
  read_archive_slot e agent_id id = read_json unmarshal e agent_id id rec_l4_archive

  -- listByID: an id that names no record is skipped, another error ends the listing.
  unfoldable pub list_by_id : Engine → ℕ → List ℕ → Result (List ArchiveSlot)
  list_by_id e agent_id [] = ok []
  list_by_id e agent_id (id ∷ ids) =
      let rest = list_by_id e agent_id ids in
      elim (read_archive_slot e agent_id id) [
        | ok arc ↦ rest >>= λ arcs. ok (arc ∷ arcs)
        | err c ↦ if is_not_found c then rest else err c
      ]

  -- A missing record is an error here: the mirror and the disk disagree.
  abbrev pub named : Result ArchiveSlot → Result ArchiveSlot
  named (ok arc) = ok arc
  named (err c) = if is_not_found c then err io else err c

  unfoldable pub read_archives_by_ids : Engine → ℕ → List ℕ → Result (List ArchiveSlot)
  read_archives_by_ids e agent_id [] = ok []
  read_archives_by_ids e agent_id (id ∷ ids) = named (read_archive_slot e agent_id id) >>= λ arc.
      read_archives_by_ids e agent_id ids >>= λ arcs. ok (arc ∷ arcs)

module _ (unmarshal : List ℕ → Option ArchiveSlot) (has_text : String → String → Bool)
    (to_lower : String → String) where
  abbrev pub admits_text : String → ArchiveSlot → Bool
  admits_text keyword arc =
      if str_eq keyword "" then true else has_text (to_lower arc.content) keyword

  unfoldable pub matches_archive_query : ArchiveQuery → ArchiveSlot → Bool
  matches_archive_query q arc =
      if not (admits_any q.ids arc.id_hash)
      then false
      else if not (admits q.topic_id arc.topic_id)
      then false
      else if not (admits q.kind arc.kind)
      then false
      else if not (admits_any q.node_seqs arc.node_seq)
      then false
      else if not (admits q.content_type arc.content_type)
      then false
      else if not (admits_text q.keyword arc)
      then false
      else if lt_int (pos 0) q.start && lt_int arc.created_at q.start
      then false
      else if lt_int (pos 0) q.end && lt_int q.end arc.created_at
      then false
      else true

  -- Whether the query names ids and nothing else.
  abbrev pub names_ids : ArchiveQuery → Bool
  names_ids q =
      not (length q.ids == 0)
      && is_nil q.topic_id
      && is_nil q.content_type
      && is_nil q.kind
      && length q.node_seqs == 0
      && str_eq q.keyword ""
      && is_zero q.start
      && is_zero q.end

  abbrev pub by_ids_or_scan : Engine → ℕ → ArchiveQuery → Result (List ArchiveSlot)
  by_ids_or_scan e agent_id q =
      if names_ids q
      then list_by_id unmarshal e agent_id q.ids
      else collect_all_strict unmarshal e agent_id rec_l4_archive

  -- The switch of QueryArchivesL4.
  abbrev pub candidates_at :
      Engine → ℕ → ArchiveQuery → Option ℕ → Option ContentIndex → Result (List ArchiveSlot)
  candidates_at e agent_id q (some topic) (some idx) =
      read_archives_by_ids unmarshal e agent_id (all_ids idx topic)
  candidates_at e agent_id q (some topic) none = by_ids_or_scan e agent_id q
  candidates_at e agent_id q none idx = by_ids_or_scan e agent_id q

  abbrev pub lowered : ArchiveQuery → ArchiveQuery
  lowered q = record q { keyword = to_lower q.keyword }

  unfoldable pub candidates : Engine → ℕ → ArchiveQuery → Result (List ArchiveSlot)
  candidates e agent_id q = candidates_at e agent_id q q.topic_id q.index

  unfoldable pub selected : ArchiveQuery → List ArchiveSlot → List ArchiveSlot
  selected q out =
      newest
        (sort_by (archive_first (not (is_nil q.topic_id))) (keep_if (matches_archive_query q) out))
        q.limit

  unfoldable pub query_archives_l4 : Engine → ℕ → ArchiveQuery → Result (List ArchiveSlot)
  query_archives_l4 e agent_id q =
      candidates e agent_id (lowered q) >>= λ out. ok (selected (lowered q) out)
